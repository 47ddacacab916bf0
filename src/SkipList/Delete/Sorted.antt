-- ===== src/SkipList/Delete/Sorted.antt =====
-- A deletion keeps the keys ascending, and takes one entry out.
use tiny_db.Prelude.{
  ℕ, ◌+◌, ◌≡◌, refl, true, some, List, [], ◌∷◌, All, length, arith, Bool-cases, inl, inr,
}
use tiny_db.Order.{KeyOrder}
use tiny_db.Assoc
use tiny_db.SkipList.{Node, Sizes, weight}
use tiny_db.SkipList.Linked.{Ordered, entries, locate}
use tiny_db.SkipList.Link.{SameNodes}
use tiny_db.SkipList.Delete.{omit}

module _ {ℓ} {K V : Type ℓ} (o : KeyOrder K) (nodes nodes' : ℕ → Node K V) (key : K)
    (r : SameNodes nodes nodes') where
  open o use {same, less}

  entries-same : (s : List ℕ) → entries nodes' s ≡ entries nodes s
  entries-same [] = refl
  entries-same (b ∷ s) = rw (r.key b, r.value b, entries-same s)

  pub entries-omit :
      (s : List ℕ) → entries nodes' (omit o nodes key s) ≡ Assoc.remove o key (entries nodes s)
  entries-omit [] = refl
  entries-omit (b ∷ s) = elim (Bool-cases (same (nodes b).key key)) [
    | inl e ↦ rw e (entries-same s)
    | inr e ↦ rw (e, r.key b, r.value b, entries-omit s)
  ]

  pub omit-All {κ} : (P : ℕ → Type κ) (s : List ℕ) → All P s → All P (omit o nodes key s)
  omit-All P [] h = tt
  omit-All P (b ∷ s) h = elim (Bool-cases (same (nodes b).key key)) [
    | inl e ↦ rw e h.1
    | inr e ↦ rw e (h.0, omit-All P s h.1)
  ]

  above-same :
      (b : ℕ) (s : List ℕ)
      → All (λ c. less (nodes b).key (nodes c).key ≡ true) s
      → All (λ c. less (nodes' b).key (nodes' c).key ≡ true) s
  above-same b [] h = tt
  above-same b (c ∷ s) h = (rw (r.key b, r.key c) h.0, above-same b s h.1)

  Ordered-same : (top : ℕ) (s : List ℕ) → Ordered o nodes top s → Ordered o nodes' top s
  Ordered-same top [] d = tt
  Ordered-same top (b ∷ s) d = (
    (omega (arith, r.level b, d.0.0), omega (arith, r.level b, d.0.1)),
    above-same b s d.1,
    Ordered-same top s d.2,
  )

  pub Ordered-omit :
      (top : ℕ) (s : List ℕ) → Ordered o nodes top s → Ordered o nodes' top (omit o nodes key s)
  Ordered-omit top [] d = tt
  Ordered-omit top (b ∷ s) d = elim (Bool-cases (same (nodes b).key key)) [
    | inl e ↦ rw e (Ordered-same top s d.2)
    | inr e ↦ rw e (
      (omega (arith, r.level b, d.0.0), omega (arith, r.level b, d.0.1)),
      above-same b (omit o nodes key s)
          (omit-All (λ c. less (nodes b).key (nodes c).key ≡ true) s d.1),
      Ordered-omit top s d.2,
    )
  ]

module _ {ℓ} {K V : Type ℓ} (o : KeyOrder K) (z : Sizes K V) (nodes : ℕ → Node K V) (key : K)
    (t : ℕ) where
  open o use {same}

  pub length-omit :
      (s : List ℕ) → locate o nodes key s ≡ some t → length (omit o nodes key s) + 1 ≡ length s
  length-omit [] e = absurd (cc)
  length-omit (b ∷ s) e = ground (arith, length-omit s)

  pub weight-remove :
      (s : List ℕ)
      → locate o nodes key s ≡ some t
      → weight z (entries nodes s)
        ≡ weight z (Assoc.remove o key (entries nodes s))
          + z.value_size (nodes t).value
          + z.key_size key
  weight-remove [] e = absurd (cc)
  weight-remove (b ∷ s) e = ground (arith, weight-remove s, o.same_iff (nodes b).key key)

  -- A stored key has a node, and its value is the one looked up.
  pub locate-lookup :
      (s : List ℕ) (v : V)
      → Assoc.lookup o key (entries nodes s) ≡ some v
      → (n : ℕ) × (locate o nodes key s ≡ some n) × ((nodes n).value ≡ v)
  locate-lookup [] v e = absurd (cc)
  locate-lookup (b ∷ s) v e = elim (Bool-cases (same (nodes b).key key)) [
    | inl h ↦ (b, rw h, ground arith)
    | inr h ↦ let (n, p, q) = locate-lookup s v (ground arith) in (n, ground arith, q)
  ]
