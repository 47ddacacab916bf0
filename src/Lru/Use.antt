-- ===== src/Lru/Use.antt =====
-- What readers do: `get` and `release`.
use tiny_db.Prelude.{
  ℕ, suc, ◌≡◌, refl, ap, sym, ◌∙◌, subst, Option, none, some, List, ◌∷◌, ◌==◌, ==_iff, arith,
  Bool-cases, Option-cases, inl, inr,
}
use tiny_db.Prelude.Int.{ℤ, pos, ◌+ℤ◌, ◌-ℤ◌, int_laws}
use tiny_db.Order.{KeyOrder}
use tiny_db.Assoc
use tiny_db.Lru.{Node, Lru, with_node, ref, unref, get, release}
use tiny_db.Lru.Cells.{IsCached}
use tiny_db.Lru.Evict.{self}
use tiny_db.Lru.Refine.{
  Represents, value_at, touch, lookup-none, lookup-some, fronted, splice_lem, fronted-Represents,
  recounted-Represents,
}

module _ {ℓ} {K P : Type ℓ} (c : Lru K P) (m : List (K × P)) (r : Represents c m) (a : ℕ) where
  with_field {κ} :
      {X : Type κ} (f : Node K P → X) (node : Node K P)
      → f node ≡ f (c.heap a)
      → (b : ℕ) → f (with_node c.heap a node b) ≡ f (c.heap b)
  with_field f node e b = elim (Bool-cases (b == a)) [
    | inl same ↦ rw same (e ∙ ap (λ x. f (c.heap x)) (sym ((==_iff b a).0 same)))
    | inr other ↦ rw other
  ]

  -- The cache with another count at the node `a`.
  abbrev counted : ℤ → Lru K P
  counted z = record c { heap = with_node c.heap a (record (c.heap a) { ref_cnt = z }) }

  counted-Represents : (n : ℕ) → Represents (counted (pos (suc n))) m
  counted-Represents n =
      recounted-Represents c m r (with_node c.heap a (record (c.heap a) { ref_cnt = pos (suc n) }))
        (with_field (λ x. x.key) _ refl) (with_field (λ x. x.val) _ refl)
        (with_field (λ x. x.in_cache) _ refl) still_held
    where
      still_held :
          (b : ℕ)
          → IsCached c b
          → (k : ℕ) × ((with_node c.heap a (record (c.heap a) { ref_cnt = pos (suc n) }) b).ref_cnt
              ≡ pos (suc k))
      still_held b v = elim (Bool-cases (b == a)) [
        | inl same ↦ (n, rw same)
        | inr other ↦ rw other v.held
      ]

  ref_lem :
      (n : ℕ) → IsCached c a → (c.heap a).ref_cnt ≡ pos n → ref c a ≡ some (counted (pos (suc n)))
  unfolding ref
  ref_lem n v e = let more : pos n +ℤ pos 1 ≡ pos (suc n) = omega int_laws in rw (v.alive, e, more)

  unref_lem_more :
      (o : KeyOrder K) (n : ℕ)
      → IsCached c a
      → (c.heap a).ref_cnt ≡ pos (suc (suc n))
      → unref o c a ≡ some (counted (pos (suc n)))
  unfolding unref
  unref_lem_more o n v e =
      let less : pos (suc (suc n)) -ℤ pos 1 ≡ pos (suc n) = omega int_laws in rw (v.alive, e, less)

module _ {ℓ} {K P : Type ℓ} (o : KeyOrder K) (c : Lru K P) (m : List (K × P)) (r : Represents c m)
    (key : K) where
  touch_absent : Assoc.lookup o key m ≡ none → touch o key m ≡ m
  touch_absent e = rw (e, touch)

  touch_stored :
      (v : P) → Assoc.lookup o key m ≡ some v → touch o key m ≡ (key, v) ∷ Assoc.remove o key m
  touch_stored v e = rw (e, touch)

  -- The cache after `get` of a key that is there.
  got : ℕ → ℕ → Lru K P
  got a n = record (fronted o c m r key a) {
    heap = with_node c.heap a (record (c.heap a) { ref_cnt = pos (suc (suc n)) });
  }

  get_runs :
      (a n : ℕ)
      → c.index key ≡ some a
      → (c.heap a).ref_cnt ≡ pos (suc n)
      → (get o c key ≡ some (got a n, some a)) × Represents (got a n) (touch o key m)
  unfolding get got
  get_runs a n e count =
      let front = fronted-Represents o c m r key a e in
      let v : IsCached (fronted o c m r key a) a = front.linked.cached.0 in
      (
        rw (e, get)
            (rw (splice_lem o c m r key a e)
              (rw (ref_lem (fronted o c m r key a) _ front a (suc n) v count))),
        subst (Represents _) (sym (touch_stored (c.heap a).val (lookup-some o c m r key a e)))
            (counted-Represents (fronted o c m r key a) _ front a (suc n)),
      )

  -- In a cache with these entries `get` ends without a fault. It returns the node with the value of
  -- the key, or `nullptr` if the key is not there, and moves the entry to the front.
  pub get-Represents :
      (c' : Lru K P) × (got : Option ℕ) × (get o c key ≡ some (c', got))
      × (value_at c' got ≡ Assoc.lookup o key m)
      × Represents c' (touch o key m)
  unfolding get got
  get-Represents = elim (Option-cases (c.index key)) [
    | inl e ↦
        let absent = lookup-none o c m r key e in
        (c, none, rw (e, get), sym absent, subst (Represents c) (sym (touch_absent absent)) r)
    | inr (a, e) ↦
        let there = lookup-some o c m r key a e in
        let (n, count) = (self o c a r.linked (r.linked.listed key a e).0).held in
        let (run, r') = get_runs a n e count in
        (got a n, some a, run, ground (arith, sym there), r')
  ]

  -- `release` after `get` of a key that is there: neither faults, the node is not deleted, its count is
  -- what it was, and the entry stays in front.
  pub release-get :
      (a : ℕ)
      → c.index key ≡ some a
      → (c1 c2 : Lru K P) × (get o c key ≡ some (c1, some a))
        × (release o c1 key ≡ some c2)
        × ((c2.heap a).ref_cnt ≡ (c.heap a).ref_cnt)
        × Represents c2 (touch o key m)
  unfolding got release
  release-get a e =
      let (n, count) = (self o c a r.linked (r.linked.listed key a e).0).held in
      let (run, r') = get_runs a n e count in
      let v : IsCached (got a n) a = r'.linked.cached.0 in
      (
        got a n,
        counted (got a n) _ r' a (pos (suc n)),
        run,
        rw (e, release) (unref_lem_more (got a n) _ r' a o n v (ground arith)),
        ground (arith, count),
        counted-Represents (got a n) _ r' a n,
      )
