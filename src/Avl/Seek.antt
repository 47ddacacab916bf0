-- ===== src/Avl/Seek.antt =====
-- `Search` and `Seek` of src/memtable/avl_tree.h on a search tree.
use tiny_db.Prelude.{
  suc, ◌≤◌, ◌≡◌, refl, sym, ap, subst, ◌∙◌, Bool, true, false, Option, none, some, List, [], ◌∷◌,
  ◌++◌, append_assoc, append-nil, All, length, arith, if◌then◌else◌, Bool-cases, inl, inr,
}
use tiny_db.Order.{KeyOrder, less-ne, less-ne_flip}
use tiny_db.Assoc.{lookup, IsAscending}
use tiny_db.Avl.{Tree, AvlTree, search_node, search, seek_path, seek, collect}
use tiny_db.Avl.InOrder.{entries, to_visit, IsPath, collect-to_visit}

module _ {ℓ} {K V : Type ℓ} (o : KeyOrder K) where
  open o use {same, less}

  -- The entries from the first on whose key is not below `target`.
  abbrev pub at_least : K → List (K × V) → List (K × V)
  at_least target [] = []
  at_least target ((j, v) ∷ m) =
      let rest = at_least target m in if less j target then rest else (j, v) ∷ m

  abbrev Above : K → List (K × V) → Type 0
  Above k m = All (λ (e : K × V). less k e.0 ≡ true) m

  abbrev Below : K → List (K × V) → Type 0
  Below k m = All (λ (e : K × V). less e.0 k ≡ true) m

  Below-trans : (j k : K) (m : List (K × V)) → less j k ≡ true → Below j m → Below k m
  Below-trans j k [] h b = tt
  Below-trans j k ((i, v) ∷ m) h (b, bs) = (o.less_trans i j k b h, Below-trans j k m h bs)

  Above-append : (k : K) (xs ys : List (K × V)) → Above k (xs ++ ys) → Above k xs × Above k ys
  Above-append k [] ys a = (tt, a)
  Above-append k (x ∷ xs) ys (a, as') = let (l, r) = Above-append k xs ys as' in ((a, l), r)

  -- What an ascending list is around an entry.
  record IsSplit (xs : List (K × V)) (k : K) (ys : List (K × V)) : Type ℓ where
    left : IsAscending o xs
    below : Below k xs
    above : Above k ys
    right : IsAscending o ys

  split :
      (xs : List (K × V)) (k : K) (v : V) (ys : List (K × V))
      → IsAscending o (xs ++ ((k, v) ∷ ys))
      → IsSplit xs k ys
  split [] k v ys (above, h) = record { left = tt; below = tt; above = above; right = h }
  split ((j, w) ∷ xs) k v ys (above, h) =
      let rest = split xs k v ys h in
      let (near, (next, far)) = Above-append j xs ((k, v) ∷ ys) above in
      record {
        left = (near, rest.left);
        below = (next, rest.below);
        above = rest.above;
        right = rest.right;
      }

  lookup-Above : (k : K) (m : List (K × V)) → Above k m → lookup o k m ≡ none
  lookup-Above k [] a = refl
  lookup-Above k ((j, v) ∷ m) (a, as') = rw (less-ne_flip o k j a, lookup-Above k m as') refl

  lookup-Below : (k : K) (xs ys : List (K × V)) → Below k xs → lookup o k (xs ++ ys) ≡ lookup o k ys
  lookup-Below k [] ys b = refl
  lookup-Below k ((j, v) ∷ xs) ys (b, bs) = rw (less-ne o j k b) (lookup-Below k xs ys bs)

  lookup-append :
      (k : K) (xs ys : List (K × V)) → lookup o k ys ≡ none → lookup o k (xs ++ ys) ≡ lookup o k xs
  lookup-append k [] ys h = h
  lookup-append k ((j, v) ∷ xs) ys h = rw (lookup-append k xs ys h) refl

  Above-trans : (j k : K) (m : List (K × V)) → less j k ≡ true → Above k m → Above j m
  Above-trans j k [] h a = tt
  Above-trans j k ((i, v) ∷ m) h (a, as') = (o.less_trans j k i h a, Above-trans j k m h as')

  abbrev value_of : Tree K V → Option V
  value_of Tree.leaf = none
  value_of (Tree.node l k v h r) = some v

  search_node-lookup :
      (key : K) (t : Tree K V)
      → IsAscending o (entries t)
      → value_of (search_node o key t) ≡ lookup o key (entries t)
  unfolding search_node
  search_node-lookup key Tree.leaf h = refl
  search_node-lookup key (Tree.node l k v height r) h =
      let s = split (entries l) k v (entries r) h in
      elim (Bool-cases (less key k)) [
        | inl before ↦
            let none_right : lookup o key ((k, v) ∷ entries r) ≡ none =
              lookup-Above key ((k, v) ∷ entries r)
                (before, Above-trans key k (entries r) before s.above) in
            rw (before, search_node)
              (search_node-lookup key l s.left ∙ sym (lookup-append key (entries l) _ none_right))
        | inr not_before ↦ elim (Bool-cases (less k key)) [
          | inl after ↦
              rw (not_before, after, search_node)
                (search_node-lookup key r s.right
                  ∙ sym (
                      lookup-Below key (entries l) ((k, v) ∷ entries r)
                        (Below-trans k key (entries l) after s.below)
                      ∙ rw (less-ne o k key after) refl))
          | inr not_after ↦
              rw (not_before, not_after, search_node)
                (let equal : same key k ≡ true = ground (arith, o.less_total key k) in
                  let e : k ≡ key = sym ((o.same_iff key k).0 equal) in
                  let found : same k key ≡ true = (o.same_iff k key).1 e in
                  sym (
                    lookup-Below key (entries l) ((k, v) ∷ entries r)
                      (subst (λ x. Below x (entries l)) e s.below)
                    ∙ rw found refl))
        ]
      ]

  -- The answer of `Search` for what is stored, and what is at `value_ptr`.
  abbrev pub found : V → Option V → Bool × V
  found old none = (false, old)
  found old (some v) = (true, v)

  -- On a tree whose keys ascend strictly from left to right, `Search` finds exactly the keys that the
  -- tree has, and writes the value of the one that it finds to `value_ptr`, and else nothing.
  pub search-lookup :
      (key : K) (old : V) (t : AvlTree K V)
      → IsAscending o (entries t.root)
      → search o key old t ≡ found old (lookup o key (entries t.root))
  unfolding search
  search-lookup key old t h =
      answer (search_node o key t.root) ∙ ap (found old) (search_node-lookup key t.root h)
    where
      answer :
          (n : Tree K V)
          → elim n [ Tree.leaf ↦ (false, old) | Tree.node l k v height r ↦ (true, v) ]
            ≡ found old (value_of n)
      answer Tree.leaf = refl
      answer (Tree.node l k v height r) = refl

  at_least-Below :
      (k : K) (xs ys : List (K × V)) → Below k xs → at_least k (xs ++ ys) ≡ at_least k ys
  at_least-Below k [] ys b = refl
  at_least-Below k ((j, v) ∷ xs) ys (b, bs) = rw b (at_least-Below k xs ys bs)

  at_least-append :
      (target k : K) (v : V) (xs ys : List (K × V))
      → less k target ≡ false
      → at_least target (xs ++ ((k, v) ∷ ys)) ≡ at_least target xs ++ ((k, v) ∷ ys)
  at_least-append target k v [] ys h = rw h refl
  at_least-append target k v ((j, w) ∷ xs) ys h = elim (Bool-cases (less j target)) [
    | inl e ↦ rw e (at_least-append target k v xs ys h)
    | inr e ↦ rw e refl
  ]

  to_visit-seek_path :
      (target : K) (t : Tree K V) (path : List (Tree K V))
      → IsAscending o (entries t)
      → to_visit (seek_path o target t path) ≡ at_least target (entries t) ++ to_visit path
  unfolding seek_path
  to_visit-seek_path target Tree.leaf path h = refl
  to_visit-seek_path target (Tree.node l k v height r) path h =
      let s = split (entries l) k v (entries r) h in
      elim (Bool-cases (less k target)) [
        | inl below ↦
            rw (below, seek_path)
              (to_visit-seek_path target r path s.right
                ∙ ap (λ m. m ++ to_visit path)
                    (sym (
                      at_least-Below target (entries l) ((k, v) ∷ entries r)
                        (Below-trans k target (entries l) below s.below)
                      ∙ rw below refl)))
        | inr not_below ↦
            rw (not_below, seek_path)
              (to_visit-seek_path target l (Tree.node l k v height r ∷ path) s.left
                ∙ sym (
                    append_assoc (at_least target (entries l)) ((k, v) ∷ entries r) (to_visit path))
                ∙ ap (λ m. m ++ to_visit path)
                    (sym (at_least-append target k v (entries l) (entries r) not_below)))
      ]

  seek_path-IsPath :
      (target : K) (t : Tree K V) (path : List (Tree K V))
      → IsPath path
      → IsPath (seek_path o target t path)
  unfolding seek_path
  seek_path-IsPath target Tree.leaf path h = h
  seek_path-IsPath target (Tree.node l k v height r) path p = elim (Bool-cases (less k target)) [
    | inl e ↦ rw (e, seek_path) (seek_path-IsPath target r path p)
    | inr e ↦ rw (e, seek_path) (seek_path-IsPath target l _ (refl, p))
  ]

  length-at_least : (target : K) (m : List (K × V)) → length (at_least target m) ≤ length m
  length-at_least target [] = omega arith
  length-at_least target ((j, v) ∷ m) = ground (arith, length-at_least target m)

  -- On a tree whose keys ascend strictly from left to right, the walk after `Seek` follows no null
  -- pointer, ends within as many turns as the tree has entries and one more, and yields the entries from
  -- the first on whose key is not below the target, in order.
  pub collect-seek :
      (target : K) (t : AvlTree K V)
      → IsAscending o (entries t.root)
      → collect (suc (length (entries t.root))) (seek o target t)
        ≡ some (at_least target (entries t.root))
  unfolding seek
  collect-seek target t h =
      let visits : to_visit (seek_path o target t.root []) ≡ at_least target (entries t.root) =
        to_visit-seek_path target t.root [] h ∙ append-nil (at_least target (entries t.root)) in
      collect-to_visit _ (seek_path o target t.root []) (seek_path-IsPath target t.root [] tt)
        (omega (arith, ap length visits, length-at_least target (entries t.root)))
      ∙ ap some visits
