-- ===== src/SkipList/Prev.antt =====
-- `FindPrevNode` finds, at each level in use, the last node in front of the key.
use tiny_db.Prelude.{
  ℕ, zero, suc, ◌+◌, ◌≤◌, ◌<◌, ◌≡◌, refl, ap, sym, true, Option, none, some, List, [], ◌∷◌, ◌==◌,
  if◌then◌else◌, length, All, arith, Bool-cases, Option-cases, inl, inr, ◌∙◌,
}
use tiny_db.Order.{KeyOrder}
use tiny_db.SkipList.{Node, find_prev_node, at_end}
use tiny_db.SkipList.Linked.{first, Linked, Ordered, behind, pred}
use tiny_db.SkipList.Search.{read_first}

module _ {ℓ} {K V : Type ℓ} (o : KeyOrder K) (nodes : ℕ → Node K V) (top : ℕ) (key : K) where
  open o use {same, less}

  pub pred_stays :
      (j a : ℕ) (s : List ℕ)
      → at_end o nodes (first nodes j s) key ≡ true
      → pred o nodes key j a s ≡ a
  pred_stays j a [] h = refl
  pred_stays j a (b ∷ s) h = ground (arith, pred_stays j a s)

  pub pred-lt-level :
      (j a : ℕ) (s : List ℕ) → j < (nodes a).level → j < (nodes (pred o nodes key j a s)).level
  pred-lt-level j a [] h = h
  pred-lt-level j a (b ∷ s) h = ground (arith, pred-lt-level j b s, pred-lt-level j a s)

  pub pred-lt : (n j a : ℕ) (s : List ℕ) → a < n → All (λ d. d < n) s → pred o nodes key j a s < n
  pred-lt n j a [] h p = h
  pred-lt n j a (b ∷ s) h p = ground (arith, pred-lt n j b s p.0 p.1, pred-lt n j a s h p.1)

  -- No node has a `next[j]` for `j` from `top` on.
  pub pred_high :
      (j a : ℕ) (s : List ℕ) → Ordered o nodes top s → top ≤ j → pred o nodes key j a s ≡ a
  pred_high j a [] d h = refl
  pred_high j a (b ∷ s) d h = ground (arith, pred_high j a s d.2 h)

  pub first_high : (j : ℕ) (s : List ℕ) → Ordered o nodes top s → top ≤ j → first nodes j s ≡ none
  first_high j [] d h = refl
  first_high j (b ∷ s) d h = ground (arith, first_high j s d.2 h)

  -- `p` is what the loop leaves in `prev`, if it starts at `level` from `cur` with `prev`.
  pub record Found (level cur : ℕ) (s : List ℕ) (prev p : ℕ → Option ℕ) : Type ℓ where
    pub below : (j : ℕ) → j ≤ level → p j ≡ some (pred o nodes key j cur s)
    pub above : (j : ℕ) → level < j → p j ≡ prev j

  pub find_prev_node-Found :
      (f level cur : ℕ) (s : List ℕ) (prev : ℕ → Option ℕ)
      → Linked nodes cur s
      → Ordered o nodes top s
      → level < (nodes cur).level
      → length s + level < f
      → (p : ℕ → Option ℕ) × (find_prev_node o f nodes key level cur prev ≡ some p)
        × Found level cur s prev p
  unfolding find_prev_node
  find_prev_node-Found zero level cur s prev l d h m = absurd (omega arith)
  find_prev_node-Found (suc f) zero cur s prev l d h m =
      elim (Bool-cases (at_end o nodes (first nodes 0 s) key)) [
        | inl e ↦ (
          (λ j. if j == 0 then some cur else prev j),
          ground (arith, read_first o nodes top key cur 0 s l h),
          record {
            below = λ j q. ground (arith, pred_stays 0 cur s e, pred_stays j cur s);
            above = λ j q. ground arith;
          },
        )
        | inr e ↦ elim (Option-cases (first nodes 0 s)) [
          | inl e' ↦ absurd (ground arith)
          | inr (n, e') ↦
              let (t, b) = behind o nodes top key 0 n cur s l d e' in
              let smaller : less (nodes n).key key ≡ true = ground arith in
              let (p, q, r) =
                find_prev_node-Found f 0 n t prev b.linked b.ordered b.high
                  (omega (arith, b.shorter)) in
              (
                p,
                ground (arith, read_first o nodes top key cur 0 s l h),
                record {
                  below = λ j u. r.below j u ∙ ap some (sym (b.before smaller j cur u));
                  above = r.above;
                },
              )
        ]
      ]
  find_prev_node-Found (suc f) (suc level) cur s prev l d h m =
      elim (Bool-cases (at_end o nodes (first nodes (suc level) s) key)) [
        | inl e ↦
            let prev' : ℕ → Option ℕ = λ j. if j == suc level then some cur else prev j in
            let (p, q, r) =
              find_prev_node-Found f level cur s prev' l d (omega arith) (omega arith) in
            (
              p,
              ground (arith, read_first o nodes top key cur (suc level) s l h),
              record {
                below = λ j u. ground (arith, pred_stays (suc level) cur s e, r.below j, r.above j);
                above = λ j u. ground (arith, r.above j);
              },
            )
        | inr e ↦ elim (Option-cases (first nodes (suc level) s)) [
          | inl e' ↦ absurd (ground arith)
          | inr (n, e') ↦
              let (t, b) = behind o nodes top key (suc level) n cur s l d e' in
              let smaller : less (nodes n).key key ≡ true = ground arith in
              let (p, q, r) =
                find_prev_node-Found f (suc level) n t prev b.linked b.ordered b.high
                  (omega (arith, b.shorter)) in
              (
                p,
                ground (arith, read_first o nodes top key cur (suc level) s l h),
                record {
                  below = λ j u. r.below j u ∙ ap some (sym (b.before smaller j cur u));
                  above = r.above;
                },
              )
        ]
      ]
