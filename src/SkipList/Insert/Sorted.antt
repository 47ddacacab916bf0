-- ===== src/SkipList/Insert/Sorted.antt =====
-- An insertion keeps the keys ascending and the levels in range.
use tiny_db.Prelude.{
  ℕ, ◌+◌, ◌≤◌, ◌<◌, ◌≡◌, refl, true, none, List, [], ◌∷◌, All, length, arith, Bool-cases, inl, inr,
}
use tiny_db.Order.{KeyOrder}
use tiny_db.Assoc
use tiny_db.SkipList.{Node}
use tiny_db.SkipList.Linked.{Ordered, entries}
use tiny_db.SkipList.Insert.{place, Inserted}

module _ {ℓ} {K V : Type ℓ} (o : KeyOrder K) (nodes nodes' : ℕ → Node K V) (n lvl : ℕ) (key : K)
    (value : V) (after : ℕ → ℕ) (r : Inserted nodes nodes' n lvl key value after) where
  open o use {same, less}

  pub place-All {κ} : (P : ℕ → Type κ) (s : List ℕ) → P n → All P s → All P (place o nodes key n s)
  place-All P [] p h = (p, tt)
  place-All P (b ∷ s) p h = elim (Bool-cases (less (nodes b).key key)) [
    | inl e ↦ rw e (h.0, place-All P s p h.1)
    | inr e ↦ rw e (p, h)
  ]

  pub length-place : (s : List ℕ) → length (place o nodes key n s) ≡ length s + 1
  length-place [] = refl
  length-place (b ∷ s) = ground (arith, length-place s)

  above-same :
      (k : K) (s : List ℕ)
      → All (λ d. d < n) s
      → All (λ c. less k (nodes c).key ≡ true) s
      → All (λ c. less k (nodes' c).key ≡ true) s
  above-same k [] h p = tt
  above-same k (c ∷ s) h p = (rw (r.old_key c h.0) p.0, above-same k s h.1 p.1)

  above-new :
      (s : List ℕ)
      → All (λ d. d < n) s
      → (k : K) → less key k ≡ true
      → All (λ c. less k (nodes c).key ≡ true) s
      → All (λ c. less (nodes' n).key (nodes' c).key ≡ true) s
  above-new [] h k p q = tt
  above-new (c ∷ s) h k p q =
      (rw (r.new_key, r.old_key c h.0) (o.less_trans key k _ p q.0), above-new s h.1 k p q.1)

  Ordered-same :
      (top top' : ℕ) (s : List ℕ)
      → top ≤ top'
      → All (λ d. d < n) s
      → Ordered o nodes top s
      → Ordered o nodes' top' s
  Ordered-same top top' [] h p q = tt
  Ordered-same top top' (b ∷ s) h p q = (
    (omega (arith, r.old_level b p.0, q.0.0), omega (arith, r.old_level b p.0, q.0.1)),
    rw (r.old_key b p.0) (above-same (nodes b).key s p.1 q.1),
    Ordered-same top top' s h p.1 q.2,
  )

  pub Ordered-place :
      (top top' : ℕ) (s : List ℕ)
      → top ≤ top'
      → 1 ≤ lvl
      → lvl ≤ top'
      → All (λ d. d < n) s
      → Assoc.lookup o key (entries nodes s) ≡ none
      → Ordered o nodes top s
      → Ordered o nodes' top' (place o nodes key n s)
  Ordered-place top top' [] h lo hi p absent q =
      ((omega (arith, r.new_level), omega (arith, r.new_level)), tt, tt)
  Ordered-place top top' (b ∷ s) h lo hi p absent q = elim (Bool-cases (less (nodes b).key key)) [
    | inl e ↦ rw e (
      (omega (arith, r.old_level b p.0, q.0.0), omega (arith, r.old_level b p.0, q.0.1)),
      rw (r.old_key b p.0) (
          place-All (λ c. less (nodes b).key (nodes' c).key ≡ true) s (rw r.new_key e)
            (above-same (nodes b).key s p.1 q.1)),
      Ordered-place top top' s h lo hi p.1 (ground arith) q.2,
    )
    | inr e ↦
        let larger : less key (nodes b).key ≡ true =
          ground (arith, o.less_total (nodes b).key key) in
        rw e (
          (omega (arith, r.new_level), omega (arith, r.new_level)),
          (rw (r.new_key, r.old_key b p.0) larger, above-new s p.1 (nodes b).key larger q.1),
          Ordered-same top top' (b ∷ s) h p q,
        )
  ]
