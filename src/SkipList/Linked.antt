-- ===== src/SkipList/Linked.antt =====
-- The shape of a skip list: each node's `next[j]` is the first later node of a level above `j`.
use tiny_db.Prelude.{
  ℕ, ◌≤◌, ◌<◌, ◌≡◌, refl, Bool, true, Option, none, some, List, [], ◌∷◌, ltb, if◌then◌else◌, All,
  length, arith, lt→ltb, ltb→lt, Bool-cases, inl, inr, subst,
}
use tiny_db.Order.{KeyOrder, less-ne, less-ne_flip}
use tiny_db.Assoc.{lookup}
use tiny_db.SkipList.{Node}

module _ {ℓ} {K V : Type ℓ} where
  -- The first node of the list that has a `next[j]`.
  abbrev pub first : (ℕ → Node K V) → ℕ → List ℕ → Option ℕ
  first nodes j [] = none
  first nodes j (b ∷ s) = if ltb j (nodes b).level then some b else first nodes j s

  -- The nodes `s` follow the node `a`.
  abbrev pub Linked : (ℕ → Node K V) → ℕ → List ℕ → Type 0
  Linked nodes a [] = (j : ℕ) → j < (nodes a).level → (nodes a).next j ≡ none
  Linked nodes a (b ∷ s) =
      ((j : ℕ) → j < (nodes a).level → (nodes a).next j ≡ first nodes j (b ∷ s)) × Linked nodes b s

  abbrev pub entries : (ℕ → Node K V) → List ℕ → List (K × V)
  entries nodes [] = []
  entries nodes (a ∷ s) = ((nodes a).key, (nodes a).value) ∷ entries nodes s

  pub Linked-head :
      (nodes : ℕ → Node K V) (a : ℕ) (s : List ℕ)
      → Linked nodes a s
      → (j : ℕ) → j < (nodes a).level
      → (nodes a).next j ≡ first nodes j s
  Linked-head nodes a [] h = h
  Linked-head nodes a (b ∷ s) h = h.0

  module _ (o : KeyOrder K) where
    open o use {same, less}

    -- Ascending keys, and levels from 1 to `top`.
    abbrev pub Ordered : (ℕ → Node K V) → ℕ → List ℕ → Type ℓ
    Ordered nodes top [] = Unit
    Ordered nodes top (b ∷ s) =
        ((1 ≤ (nodes b).level) × ((nodes b).level ≤ top))
        × All (λ c. less (nodes b).key (nodes c).key ≡ true) s
        × Ordered nodes top s

-- The last of `a` and those of `s` with smaller keys that has a `next[j]`.
abbrev pub pred {ℓ} : {K V : Type ℓ} → KeyOrder K → (ℕ → Node K V) → K → ℕ → ℕ → List ℕ → ℕ
pred o nodes key j a [] = a
pred o nodes key j a (b ∷ s) =
    if o.less (nodes b).key key
    then pred o nodes key j (if ltb j (nodes b).level then b else a) s
    else a

-- The node with the key, among `s`.
abbrev pub locate {ℓ} : {K V : Type ℓ} → KeyOrder K → (ℕ → Node K V) → K → List ℕ → Option ℕ
locate o nodes key [] = none
locate o nodes key (b ∷ s) = if o.same (nodes b).key key then some b else locate o nodes key s

pub first-All {ℓ} :
    {K V : Type ℓ} (f : ℕ → Bool) (nodes : ℕ → Node K V) (j : ℕ) (s : List ℕ) (n : ℕ)
    → All (λ c. f c ≡ true) s
    → first nodes j s ≡ some n
    → f n ≡ true
first-All f nodes j [] n h e = cc
first-All f nodes j (b ∷ s) n h e = ground (arith, first-All f nodes j s n)

module _ {ℓ} {K V : Type ℓ} (o : KeyOrder K) (nodes : ℕ → Node K V) (top : ℕ) (key : K) where
  open o use {same, less}

  -- What lies behind the node `n` that `next[j]` leads to, for a search of `key`.
  pub record Behind (j n : ℕ) (s t : List ℕ) : Type ℓ where
    pub linked : Linked nodes n t
    pub ordered : Ordered o nodes top t
    pub high : j < (nodes n).level
    pub shorter : length t < length s
    pub passed :
        less (nodes n).key key ≡ true
        → lookup o key (entries nodes s) ≡ lookup o key (entries nodes t)
    pub passed_node : less (nodes n).key key ≡ true → locate o nodes key s ≡ locate o nodes key t
    pub hit_node : same (nodes n).key key ≡ true → locate o nodes key s ≡ some n
    pub before :
        less (nodes n).key key ≡ true
        → (i a : ℕ) → i ≤ j
        → pred o nodes key i a s ≡ pred o nodes key i n t
    pub hit : same (nodes n).key key ≡ true → lookup o key (entries nodes s) ≡ some (nodes n).value

  pub behind :
      (j n a : ℕ) (s : List ℕ)
      → Linked nodes a s
      → Ordered o nodes top s
      → first nodes j s ≡ some n
      → (t : List ℕ) × Behind j n s t
  behind j n a [] l d e = absurd (cc)
  behind j n a (b ∷ s) l d e = elim (Bool-cases (ltb j (nodes b).level)) [
    | inl here ↦
        let found : b ≡ n = ground arith in
        let at_b : Behind j b (b ∷ s) s = record {
          linked = l.1;
          ordered = d.2;
          high = ground arith;
          shorter = omega arith;
          passed = λ p. rw (less-ne o (nodes b).key key p);
          passed_node = λ p. rw (less-ne o (nodes b).key key p);
          hit_node = λ p. rw p;
          before = λ p i c q. rw (p, lt→ltb i (nodes b).level (omega (arith, ltb→lt _ _ here)));
          hit = λ p. rw p;
        } in
        (s, subst (λ m. Behind j m (b ∷ s) s) found at_b)
    | inr later ↦
        let (t, r) = behind j n b s l.1 d.2 (ground arith) in
        let below : less (nodes b).key (nodes n).key ≡ true =
          first-All (λ c. less (nodes b).key (nodes c).key) nodes j s n d.1 (ground arith) in
        (
          t,
          record {
            linked = r.linked;
            ordered = r.ordered;
            high = r.high;
            shorter = omega (arith, r.shorter);
            passed = λ p.
                rw (less-ne o (nodes b).key key (o.less_trans _ (nodes n).key _ below p))
                  (r.passed p);
            passed_node = λ p.
                rw (less-ne o (nodes b).key key (o.less_trans _ (nodes n).key _ below p))
                  (r.passed_node p);
            hit_node = λ p.
                let e' : (nodes n).key ≡ key = (o.same_iff (nodes n).key key).0 p in
                rw (less-ne o (nodes b).key key (subst (λ k. less (nodes b).key k ≡ true) e' below))
                  (r.hit_node p);
            before = λ p i c q. rw (o.less_trans _ (nodes n).key _ below p) (r.before p i _ q);
            hit = λ p.
                let e' : (nodes n).key ≡ key = (o.same_iff (nodes n).key key).0 p in
                rw (less-ne o (nodes b).key key (subst (λ k. less (nodes b).key k ≡ true) e' below))
                  (r.hit p);
          },
        )
  ]

  -- A search that ends at the bottom level: nothing follows, or only larger keys.
  pub bottom_none :
      (s : List ℕ)
      → Ordered o nodes top s
      → first nodes 0 s ≡ none
      → lookup o key (entries nodes s) ≡ none
  bottom_none [] d e = refl
  bottom_none (b ∷ s) d e = absurd (ground arith)

  lookup_smaller :
      (s : List ℕ)
      → All (λ c. less key (nodes c).key ≡ true) s
      → lookup o key (entries nodes s) ≡ none
  lookup_smaller [] h = refl
  lookup_smaller (b ∷ s) h = rw (less-ne_flip o key (nodes b).key h.0) (lookup_smaller s h.1)

  All-trans :
      (b : ℕ) (s : List ℕ)
      → less key (nodes b).key ≡ true
      → All (λ c. less (nodes b).key (nodes c).key ≡ true) s
      → All (λ c. less key (nodes c).key ≡ true) s
  All-trans b [] p h = tt
  All-trans b (c ∷ s) p h = (o.less_trans _ (nodes b).key _ p h.0, All-trans b s p h.1)

  pub bottom_larger :
      (n : ℕ) (s : List ℕ)
      → Ordered o nodes top s
      → first nodes 0 s ≡ some n
      → less key (nodes n).key ≡ true
      → lookup o key (entries nodes s) ≡ none
  bottom_larger n [] d e p = refl
  bottom_larger n (b ∷ s) d e p =
      let e' : n ≡ b = ground arith in
      let p' : less key (nodes b).key ≡ true = subst (λ m. less key (nodes m).key ≡ true) e' p in
      lookup_smaller (b ∷ s) (p', All-trans b s p' d.1)

  locate_smaller :
      (s : List ℕ) → All (λ c. less key (nodes c).key ≡ true) s → locate o nodes key s ≡ none
  locate_smaller [] h = refl
  locate_smaller (b ∷ s) h = rw (less-ne_flip o key (nodes b).key h.0) (locate_smaller s h.1)

  pub bottom_larger_node :
      (n : ℕ) (s : List ℕ)
      → Ordered o nodes top s
      → first nodes 0 s ≡ some n
      → less key (nodes n).key ≡ true
      → locate o nodes key s ≡ none
  bottom_larger_node n [] d e p = refl
  bottom_larger_node n (b ∷ s) d e p =
      let e' : n ≡ b = ground arith in
      let p' : less key (nodes b).key ≡ true = subst (λ m. less key (nodes m).key ≡ true) e' p in
      locate_smaller (b ∷ s) (p', All-trans b s p' d.1)

  pub first-locate :
      (t j : ℕ) (s : List ℕ)
      → locate o nodes key s ≡ some t
      → first nodes j s ≡ none
      → (nodes t).level ≤ j
  first-locate t j [] e h = absurd (cc)
  first-locate t j (b ∷ s) e h = ground (arith, first-locate t j s)

  pub locate_level :
      (t : ℕ) (s : List ℕ)
      → Ordered o nodes top s
      → locate o nodes key s ≡ some t
      → (1 ≤ (nodes t).level) × ((nodes t).level ≤ top)
  locate_level t [] d e = absurd (cc)
  locate_level t (b ∷ s) d e = ground (arith, locate_level t s d.2)
