-- ===== src/SkipList/Target.antt =====
-- The search of `Delete` finds the node of the key, and what points to it at each of its levels.
use tiny_db.Prelude.{
  ℕ, zero, suc, ◌+◌, ◌≤◌, ◌<◌, ◌≡◌, refl, ap, sym, true, false, Option, some, List, [], ◌∷◌, ◌==◌,
  if◌then◌else◌, All, length, arith, Bool-cases, Option-cases, inl, inr, ◌∙◌, subst,
}
use tiny_db.Prelude.Int.{ℤ, pos}
use tiny_db.Order.{KeyOrder, less-ne}
use tiny_db.SkipList.{Node, find_target}
use tiny_db.SkipList.Linked.{
  first, Linked, Linked-head, Ordered, Behind, behind, pred, locate, first-locate, locate_level,
  bottom_larger_node,
}
use tiny_db.SkipList.Prev.{pred_stays}
use tiny_db.SkipList.Search.{read_first}

module _ {ℓ} {K V : Type ℓ} (o : KeyOrder K) (nodes : ℕ → Node K V) (top : ℕ) (key : K) where
  open o use {same, less}

  -- `p` and `found` are what the loop leaves in `prev` and `level_of_target_node`, if it starts at
  -- `level` from `cur` with `prev`.
  pub record Aimed (t level cur : ℕ) (s : List ℕ) (prev p : ℕ → Option ℕ) (found : ℤ) : Type ℓ where
    pub below : (j : ℕ) → j ≤ level → j < (nodes t).level → p j ≡ some (pred o nodes key j cur s)
    pub above : (j : ℕ) → level < j → p j ≡ prev j
    pub hit : found ≡ pos (nodes t).level

  -- The loop ends, with no fault, at such values.
  abbrev pub Aims : ℕ → ℕ → ℕ → ℕ → List ℕ → (ℕ → Option ℕ) → ℤ → Type ℓ
  Aims f t level cur s prev found =
      (p : ℕ → Option ℕ) × (found' : ℤ) × (find_target o f nodes key level cur prev found
        ≡ some (p, found'))
      × Aimed t level cur s prev p found'

  Aims-right :
      (f t level cur n : ℕ) (s u : List ℕ) (prev : ℕ → Option ℕ) (found : ℤ)
      → Linked nodes cur s
      → level < (nodes cur).level
      → first nodes level s ≡ some n
      → Behind o nodes top key level n s u
      → less (nodes n).key key ≡ true
      → Aims f t level n u prev found
      → Aims (suc f) t level cur s prev found
  unfolding find_target
  Aims-right f t level cur n s u prev found l h e b smaller (p, found', q, a) = (
    p,
    found',
    ground (arith, read_first o nodes top key cur level s l h, less-ne o (nodes n).key key smaller),
    record {
      below = λ j v w. a.below j v w ∙ ap some (sym (b.before smaller j cur v));
      above = a.above;
      hit = a.hit;
    },
  )

  Aims-down :
      (f t level cur n : ℕ) (s : List ℕ) (prev : ℕ → Option ℕ) (found found1 : ℤ)
      → Linked nodes cur s
      → suc level < (nodes cur).level
      → first nodes (suc level) s ≡ some n
      → less (nodes n).key key ≡ false
      → found1 ≡ (if same (nodes n).key key then pos (nodes n).level else found)
      → Aims f t level cur s (λ j. if j == suc level then some cur else prev j) found1
      → Aims (suc f) t (suc level) cur s prev found
  unfolding find_target
  Aims-down f t level cur n s prev found found1 l h e ge w (p, found', q, a) =
      let stays : pred o nodes key (suc level) cur s ≡ cur =
        pred_stays o nodes top key (suc level) cur s (rw e (rw ge)) in
      (
        p,
        found',
        ground (
          arith,
          read_first o nodes top key cur (suc level) s l h,
          o.less_total (nodes n).key key,
        ),
        record {
          below = λ j v w. ground (arith, a.below j, a.above j, stays);
          above = λ j v. ground (arith, a.above j);
          hit = a.hit;
        },
      )

  pub find_target-Aimed :
      (f t level cur : ℕ) (s : List ℕ) (prev : ℕ → Option ℕ) (found : ℤ)
      → Linked nodes cur s
      → Ordered o nodes top s
      → locate o nodes key s ≡ some t
      → level < (nodes cur).level
      → length s + level < f
      → Aims f t level cur s prev found
  unfolding find_target
  find_target-Aimed zero t level cur s prev found l d x h m = absurd (omega arith)
  find_target-Aimed (suc f) t zero cur s prev found l d x h m =
      elim (Option-cases (first nodes 0 s)) [
        | inl e ↦ absurd (
            omega
              (arith, first-locate o nodes top key t 0 s x e, locate_level o nodes top key t s d x))
        | inr (n, e) ↦
            let (u, b) = behind o nodes top key 0 n cur s l d e in
            elim (Bool-cases (less (nodes n).key key)) [
              | inl smaller ↦ Aims-right f t 0 cur n s u prev found l h e b smaller (
                  find_target-Aimed f t 0 n u prev found b.linked b.ordered
                    (sym (b.passed_node smaller) ∙ x) b.high (omega (arith, b.shorter)))
              | inr ge ↦
                  let hit : same (nodes n).key key ≡ true = ground (
                    arith,
                    o.less_total (nodes n).key key,
                    bottom_larger_node o nodes top key n s d e,
                  ) in
                  (
                    (λ j. if j == 0 then some cur else prev j),
                    pos (nodes n).level,
                    ground (arith, read_first o nodes top key cur 0 s l h),
                    record {
                      below = λ j v w. ground (
                        arith,
                        pred_stays o nodes top key 0 cur s (ground arith),
                        pred_stays o nodes top key j cur s,
                      );
                      above = λ j v. ground arith;
                      hit = ground (arith, b.hit_node hit);
                    },
                  )
            ]
      ]
  find_target-Aimed (suc f) t (suc level) cur s prev found l d x h m =
      let down = λ (prev1 : ℕ → Option ℕ) (found1 : ℤ).
        find_target-Aimed f t level cur s prev1 found1 l d x (omega arith) (omega arith) in
      elim (Option-cases (first nodes (suc level) s)) [
        | inl e ↦
            let (p, found', q, a) = down prev found in
            (
              p,
              found',
              ground (arith, read_first o nodes top key cur (suc level) s l h),
              record {
                below = λ j v w.
                    ground (arith, a.below j, first-locate o nodes top key t (suc level) s x e);
                above = λ j v. ground (arith, a.above j);
                hit = a.hit;
              },
            )
        | inr (n, e) ↦
            let (u, b) = behind o nodes top key (suc level) n cur s l d e in
            elim (Bool-cases (less (nodes n).key key)) [
              | inl smaller ↦ Aims-right f t (suc level) cur n s u prev found l h e b smaller (
                  find_target-Aimed f t (suc level) n u prev found b.linked b.ordered
                    (sym (b.passed_node smaller) ∙ x) b.high (omega (arith, b.shorter)))
              | inr ge ↦ Aims-down f t level cur n s prev found _ l h e ge refl (down _ _)
            ]
      ]

module _ {ℓ} {K V : Type ℓ} (o : KeyOrder K) (nodes : ℕ → Node K V) (key : K) (t : ℕ) where
  open o use {same, less}

  pub locate-All {κ} : (P : ℕ → Type κ) (s : List ℕ) → All P s → locate o nodes key s ≡ some t → P t
  locate-All P [] h e = absurd (cc)
  locate-All P (b ∷ s) h e = elim (Bool-cases (same (nodes b).key key)) [
    | inl here ↦ let found : b ≡ t = ground arith in subst P found h.0
    | inr later ↦ locate-All P s h.1 (ground arith)
  ]

  pub locate-key : (s : List ℕ) → locate o nodes key s ≡ some t → (nodes t).key ≡ key
  locate-key [] e = absurd (cc)
  locate-key (b ∷ s) e = ground (arith, locate-key s, o.same_iff (nodes b).key key)

  -- The nodes in front of the one of the key have smaller keys.
  pub front_smaller :
      (top b : ℕ) (s : List ℕ)
      → Ordered o nodes top (b ∷ s)
      → same (nodes b).key key ≡ false
      → locate o nodes key (b ∷ s) ≡ some t
      → less (nodes b).key key ≡ true
  front_smaller top b s d h e =
      let e' : locate o nodes key s ≡ some t = ground arith in
      subst (λ k. less (nodes b).key k ≡ true) (locate-key s e')
        (locate-All (λ c. less (nodes b).key (nodes c).key ≡ true) s d.1 e')

  -- The last node in front of the key that has a `next[j]` points to the node of the key, if that
  -- has a `next[j]`.
  pub pred-points :
      (top j x c : ℕ) (s : List ℕ)
      → Linked nodes x s
      → Ordered o nodes top s
      → locate o nodes key s ≡ some t
      → j < (nodes t).level
      → (nodes c).next j ≡ first nodes j s
      → (nodes (pred o nodes key j c s)).next j ≡ some t
  pred-points top j x c [] l d e u h = absurd (cc)
  pred-points top j x c (b ∷ s) l d e u h = elim (Bool-cases (same (nodes b).key key)) [
    | inl here ↦ ground (arith, o.same_iff (nodes b).key key, o.less_irrefl key)
    | inr later ↦
        let e' : locate o nodes key s ≡ some t = ground arith in
        ground (
          arith,
          front_smaller top b s d later e,
          pred-points top j b b s l.1 d.2 e' u,
          Linked-head nodes b s l.1 j,
          pred-points top j b c s l.1 d.2 e' u,
        )
  ]

  pub pred-ne :
      (j c : ℕ) (s : List ℕ)
      → (nodes t).key ≡ key
      → (t == c) ≡ false
      → (t == pred o nodes key j c s) ≡ false
  pred-ne j c [] e h = h
  pred-ne j c (b ∷ s) e h =
      ground (arith, pred-ne j b s e, pred-ne j c s e, o.less_irrefl (nodes b).key)
