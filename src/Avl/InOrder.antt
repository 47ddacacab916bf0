-- ===== src/Avl/InOrder.antt =====
-- The tree of src/memtable/avl_tree.h as the list of its entries in order.
use tiny_db.Prelude.{
  ℕ, zero, suc, ◌<◌, ◌≡◌, refl, sym, ap, ◌∙◌, false, some, List, [], ◌∷◌, ◌++◌, append_assoc,
  append-nil, All, length, arith, if◌then◌else◌,
}
use tiny_db.Avl.{Tree, AvlTree, is_null, push_left_path, find_first, find_next, at_top, collect}

module _ {ℓ} {K V : Type ℓ} where
  abbrev pub entries : Tree K V → List (K × V)
  entries Tree.leaf = []
  entries (Tree.node l k v h r) = entries l ++ ((k, v) ∷ entries r)

  -- What a walk from this stack on still visits.
  abbrev pub to_visit : List (Tree K V) → List (K × V)
  to_visit [] = []
  to_visit (Tree.leaf ∷ path) = to_visit path
  to_visit (Tree.node l k v h r ∷ path) = (k, v) ∷ (entries r ++ to_visit path)

  -- No null pointer is on the stack.
  abbrev pub IsPath : List (Tree K V) → Type 0
  IsPath = All (λ (t : Tree K V). is_null t ≡ false)

  to_visit-push_left_path :
      (t : Tree K V) (path : List (Tree K V))
      → to_visit (push_left_path t path) ≡ entries t ++ to_visit path
  unfolding push_left_path
  to_visit-push_left_path Tree.leaf path = refl
  to_visit-push_left_path (Tree.node l k v h r) path =
      to_visit-push_left_path l (Tree.node l k v h r ∷ path)
      ∙ sym (append_assoc (entries l) ((k, v) ∷ entries r) (to_visit path))

  push_left_path-IsPath :
      (t : Tree K V) (path : List (Tree K V)) → IsPath path → IsPath (push_left_path t path)
  unfolding push_left_path
  push_left_path-IsPath Tree.leaf path h = h
  push_left_path-IsPath (Tree.node l k v h r) path p = push_left_path-IsPath l _ (refl, p)

  -- A turn of the loop takes one entry.
  visit_right :
      (r : Tree K V) (path : List (Tree K V))
      → IsPath path
      → (to_visit (if is_null r then path else push_left_path r path) ≡ entries r ++ to_visit path)
        × IsPath (if is_null r then path else push_left_path r path)
  visit_right Tree.leaf path h = (refl, h)
  visit_right (Tree.node l k v h r) path p = (
    to_visit-push_left_path (Tree.node l k v h r) path,
    push_left_path-IsPath (Tree.node l k v h r) path p,
  )

  pub collect-to_visit :
      (f : ℕ) (path : List (Tree K V))
      → IsPath path
      → length (to_visit path) < f
      → collect f (at_top path) ≡ some (to_visit path)
  unfolding collect find_next
  collect-to_visit zero path p h = absurd (omega arith)
  collect-to_visit (suc f) [] p h = refl
  collect-to_visit (suc f) (Tree.leaf ∷ path) p h = absurd (ground arith)
  collect-to_visit (suc f) (Tree.node l k v height r ∷ path) (q, p) h =
      let (same, p') = visit_right r path p in
      rw (collect-to_visit f _ p' (omega (arith, ap length same)))
        (ap (λ m. some ((k, v) ∷ m)) same)

  -- The walk from the first node on follows no null pointer, ends within as many turns as the tree has
  -- entries and one more, and yields each entry once, from the left to the right.
  pub collect-find_first :
      (t : AvlTree K V)
      → collect (suc (length (entries t.root))) (find_first t) ≡ some (entries t.root)
  unfolding find_first
  collect-find_first t =
      let same : to_visit (push_left_path t.root []) ≡ entries t.root =
        to_visit-push_left_path t.root [] ∙ append-nil (entries t.root) in
      collect-to_visit _ (push_left_path t.root []) (push_left_path-IsPath t.root [] tt)
        (omega (arith, ap length same))
      ∙ ap some same
