-- ===== src/SkipList/Insert.antt =====
-- The list of nodes after an insertion: the new node stands in front of the first larger key.
use tiny_db.Prelude.{
  ℕ, zero, suc, ◌+◌, ◌≤◌, ◌<◌, ◌≡◌, refl, ap, sym, Bool, true, false, ◌&&◌, not, Option, none, some,
  List, [], ◌∷◌, ltb, lt→ltb, ltb→lt, ◌==◌, if◌then◌else◌, All, length, arith, Bool-cases, inl, inr,
  ◌∙◌,
}
pub mod Sorted
use tiny_db.Order.{KeyOrder}
use tiny_db.Assoc
use tiny_db.SkipList.{Node, head}
use tiny_db.SkipList.Linked.{first, Linked, Linked-head, Ordered, entries, pred}

-- The node `n` among the nodes `s`, for the key `key`.
abbrev pub place {ℓ} : {K V : Type ℓ} → KeyOrder K → (ℕ → Node K V) → K → ℕ → List ℕ → List ℕ
place o nodes key n [] = n ∷ []
place o nodes key n (b ∷ s) =
    if o.less (nodes b).key key then b ∷ place o nodes key n s else n ∷ b ∷ s

-- `nodes'` is `nodes` with the node `n` linked in behind the nodes `after j`.
pub record Inserted {ℓ} {K V : Type ℓ} (nodes nodes' : ℕ → Node K V) (n lvl : ℕ) (key : K)
    (value : V) (after : ℕ → ℕ) : Type ℓ where
  pub old_key : (a : ℕ) → a < n → (nodes' a).key ≡ (nodes a).key
  pub old_value : (a : ℕ) → a < n → (nodes' a).value ≡ (nodes a).value
  pub old_level : (a : ℕ) → a < n → (nodes' a).level ≡ (nodes a).level
  pub old_next :
      (a j : ℕ)
      → a < n
      → (nodes' a).next j ≡ (if ltb j lvl && (a == after j) then some n else (nodes a).next j)
  pub new_key : (nodes' n).key ≡ key
  pub new_value : (nodes' n).value ≡ value
  pub new_level : (nodes' n).level ≡ lvl
  pub new_next : (j : ℕ) → j < lvl → (nodes' n).next j ≡ (nodes (after j)).next j

module _ {ℓ} {K V : Type ℓ} (o : KeyOrder K) (nodes nodes' : ℕ → Node K V) (n lvl : ℕ) (key : K)
    (value : V) (after : ℕ → ℕ) (r : Inserted nodes nodes' n lvl key value after) where
  open o use {same, less}

  first-same : (j : ℕ) (s : List ℕ) → All (λ d. d < n) s → first nodes' j s ≡ first nodes j s
  first-same j [] h = refl
  first-same j (b ∷ s) h = rw (r.old_level b h.0, first-same j s h.1)

  pred-apart :
      (j a b : ℕ) (s : List ℕ)
      → (a == b) ≡ false
      → All (λ d. (a == d) ≡ false) s
      → (a == pred o nodes key j b s) ≡ false
  pred-apart j a b [] p q = p
  pred-apart j a b (c ∷ s) p q = ground (arith, pred-apart j a c s, pred-apart j a b s)

  -- Behind `a`, the new node is met first exactly if `a` is the last node in front of it.
  first-place :
      (j a : ℕ) (s : List ℕ)
      → All (λ d. d < n) s
      → All (λ d. (a == d) ≡ false) s
      → first nodes' j (place o nodes key n s)
        ≡ (if ltb j lvl && (a == pred o nodes key j a s) then some n else first nodes j s)
  first-place j a [] h p = ground (arith, r.new_level)
  first-place j a (b ∷ s) h p = ground (
    arith,
    pred-apart j a b s p.0 p.1,
    first-place j a s h.1 p.1,
    first-same j (b ∷ s) h,
    r.new_level,
    r.old_level b,
  )

  -- Where no pointer is redirected, the nodes stay linked.
  unchanged :
      (b : ℕ) (s : List ℕ)
      → b < n
      → All (λ d. d < n) s
      → ((j : ℕ) → (b == after j) ≡ false)
      → ((j : ℕ) → All (λ d. (after j == d) ≡ false) s)
      → Linked nodes b s
      → Linked nodes' b s
  unchanged b [] hb h p q l = λ j u. ground (arith, r.old_next b j, p j, l j, r.old_level b)
  unchanged b (c ∷ s) hb h p q l = (
    (λ j u. ground (arith, r.old_next b j, p j, l.0 j, r.old_level b, first-same j (c ∷ s) h)),
    unchanged c s h.0 h.1 (λ j. ground (arith, (q j).0)) (λ j. (q j).1) l.1,
  )

  apart_of_less :
      (b : ℕ) (s : List ℕ)
      → All (λ c. less (nodes b).key (nodes c).key ≡ true) s
      → All (λ d. (b == d) ≡ false) s
  apart_of_less b [] h = tt
  apart_of_less b (c ∷ s) h = (ground (arith, o.less_irrefl (nodes b).key), apart_of_less b s h.1)

  entries-same : (s : List ℕ) → All (λ d. d < n) s → entries nodes' s ≡ entries nodes s
  entries-same [] h = refl
  entries-same (b ∷ s) h = rw (r.old_key b h.0, r.old_value b h.0, entries-same s h.1)

  pub entries-place :
      (s : List ℕ)
      → All (λ d. d < n) s
      → entries nodes' (place o nodes key n s) ≡ Assoc.insert o key value (entries nodes s)
  entries-place [] h = rw (r.new_key, r.new_value)
  entries-place (b ∷ s) h = elim (Bool-cases (less (nodes b).key key)) [
    | inl e ↦ rw (e, r.old_key b h.0, r.old_value b h.0, entries-place s h.1)
    | inr e ↦ rw (e, r.new_key, r.new_value, r.old_key b h.0, r.old_value b h.0, entries-same s h.1)
  ]

  -- What is known when the walk over the nodes has come to `a`, with `s` ahead: `last j` is the
  -- last node so far that has a `next[j]`.
  pub record Walk (top a : ℕ) (s : List ℕ) (last : ℕ → ℕ) : Type ℓ where
    pub linked : Linked nodes a s
    pub ordered : Ordered o nodes top s
    pub old : a < n
    pub all_old : All (λ d. d < n) s
    pub after_pred : (j : ℕ) → after j ≡ pred o nodes key j (last j) s
    pub at_self : (j : ℕ) → j < (nodes a).level → last j ≡ a
    pub apart : (j : ℕ) → All (λ d. (last j == d) ≡ false) s
    pub self_apart : All (λ d. (a == d) ≡ false) s
    pub reaches : (j : ℕ) → j < lvl → (nodes (last j)).next j ≡ first nodes j s

  Walk-step :
      (top a b : ℕ) (s : List ℕ) (last : ℕ → ℕ)
      → Walk top a (b ∷ s) last
      → less (nodes b).key key ≡ true
      → Walk top b s (λ j. if ltb j (nodes b).level then b else last j)
  Walk-step top a b s last w h = record {
    linked = w.linked.1;
    ordered = w.ordered.2;
    old = w.all_old.0;
    all_old = w.all_old.1;
    after_pred = λ j. ground (arith, w.after_pred j);
    at_self = λ j u. ground arith;
    apart = λ j. elim (Bool-cases (ltb j (nodes b).level)) [
      | inl e ↦ rw e (apart_of_less b s w.ordered.1)
      | inr e ↦ rw e (w.apart j).1
    ];
    self_apart = apart_of_less b s w.ordered.1;
    reaches = λ j u. ground (arith, w.reaches j, Linked-head nodes b s w.linked.1 j);
  }

  -- The pointers of the node `a` that the walk stands at.
  Walk-next :
      (top a : ℕ) (s : List ℕ) (last : ℕ → ℕ)
      → Walk top a s last
      → (j : ℕ) → j < (nodes' a).level
      → (nodes' a).next j ≡ first nodes' j (place o nodes key n s)
  Walk-next top a s last w j u = ground (
    arith,
    r.old_level a w.old,
    r.old_next a j w.old,
    first-place j a s w.all_old w.self_apart,
    w.after_pred j,
    w.at_self j,
    Linked-head nodes a s w.linked j,
  )

  new_next :
      (top a : ℕ) (s : List ℕ) (last : ℕ → ℕ)
      → Walk top a s last
      → ((j : ℕ) → after j ≡ last j)
      → (j : ℕ) → j < (nodes' n).level
      → (nodes' n).next j ≡ first nodes' j s
  new_next top a s last w h j u =
      ground (arith, r.new_level, r.new_next j, w.reaches j, h j, first-same j s w.all_old)

  pub Linked-place :
      (top a : ℕ) (s : List ℕ) (last : ℕ → ℕ)
      → Walk top a s last
      → Linked nodes' a (place o nodes key n s)
  Linked-place top a [] last w = (Walk-next top a [] last w, new_next top a [] last w w.after_pred)
  Linked-place top a (b ∷ s) last w = elim (Bool-cases (less (nodes b).key key)) [
    | inl e ↦
        let front = rw e at (Walk-next top a (b ∷ s) last w) in
        rw e (front, Linked-place top b s _ (Walk-step top a b s last w e))
    | inr e ↦
        let front = rw e at (Walk-next top a (b ∷ s) last w) in
        let stop : (j : ℕ) → after j ≡ last j = λ j. ground (arith, w.after_pred j) in
        rw e (
          front,
          (
            new_next top a (b ∷ s) last w stop,
            unchanged b s w.all_old.0 w.all_old.1 (λ j. ground (arith, stop j, (w.apart j).0))
                (λ j. rw (stop j) (w.apart j).1) w.linked.1,
          ),
        )
  ]
