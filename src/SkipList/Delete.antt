-- ===== src/SkipList/Delete.antt =====
-- What `Delete` leaves on the heap, and the list of nodes without the one taken out.
pub mod Sorted
pub mod Refine
use tiny_db.Prelude.{
  ℕ, zero, suc, ◌+◌, ◌≤◌, ◌<◌, ◌≡◌, ◌≢◌, refl, ap, sym, Bool, true, false, ◌&&◌, Option, none, some,
  List, [], ◌∷◌, ltb, lt→ltb, ◌==◌, if◌then◌else◌, All, arith, Bool-cases, inl, inr, ◌>>=◌, ◌∙◌,
  ℕ_discrete, subst,
}
use tiny_db.Order.{KeyOrder, less-ne, less_asym}
use tiny_db.SkipList.{Node, read_next, read_node, write_next, with_next, unlink_level, unlink}
use tiny_db.SkipList.Linked.{first, Linked, Linked-head, Ordered, pred, locate}
use tiny_db.SkipList.Target.{front_smaller}
use tiny_db.SkipList.Link.{SameNodes, SameNodes-trans, write_next_lem}

module _ {ℓ} {K V : Type ℓ} (nodes : ℕ → Node K V) (before : ℕ → ℕ) (t : ℕ) where
  -- The heap after `r` rounds: what pointed to `t` on the levels below `r` points past it.
  pub record Unlinked (r : ℕ) (nodes' : ℕ → Node K V) : Type ℓ where
    pub same : SameNodes nodes nodes'
    pub next :
        (a j : ℕ)
        → (nodes' a).next j
          ≡ (if ltb j r && (a == before j) then (nodes t).next j else (nodes a).next j)

  -- At each of the `r` levels below, `before j` is another node, and points to `t`.
  abbrev pub Points : ℕ → (ℕ → Option ℕ) → Type 0
  Points r prev =
      (j : ℕ)
      → j < r
      → (prev j ≡ some (before j))
        × (j < (nodes (before j)).level)
        × (j < (nodes t).level)
        × ((nodes (before j)).next j ≡ some t)
        × ((t == before j) ≡ false)

  pub unlink-Unlinked :
      (r : ℕ) (prev : ℕ → Option ℕ)
      → Points r prev
      → (nodes' : ℕ → Node K V) × (unlink r nodes prev ≡ some nodes') × Unlinked r nodes'
  unfolding unlink unlink_level read_node read_next
  unlink-Unlinked zero prev w = (
    nodes,
    refl,
    record {
      same = record { key = λ a. refl; value = λ a. refl; level = λ a. refl };
      next = λ a j. ground arith;
    },
  )
  unlink-Unlinked (suc i) prev w =
      let (n1, e1, r1) = unlink-Unlinked i prev (λ j u. w j (omega arith)) in
      let (at_prev, high, high_t, to_t, apart) = w i (omega arith) in
      let (n2, e2, s2, x2) =
        write_next_lem n1 (before i) i ((nodes t).next i)
          (omega (arith, high, r1.same.level (before i))) in
      (
        n2,
        ground (
          arith,
          e1,
          at_prev,
          r1.next (before i) i,
          r1.next t i,
          r1.same.level (before i),
          r1.same.level t,
          high,
          high_t,
          to_t,
          apart,
          e2,
        ),
        record {
          same = SameNodes-trans r1.same s2;
          next = λ a j. elim (ℕ_discrete j i) [
            | yes q ↦ ground (arith, x2 a j, r1.next a j)
            | no q ↦ ground (arith, x2 a j, r1.next a j)
          ];
        },
      )

-- The nodes without the one of the key.
abbrev pub omit {ℓ} : {K V : Type ℓ} → KeyOrder K → (ℕ → Node K V) → K → List ℕ → List ℕ
omit o nodes key [] = []
omit o nodes key (b ∷ s) = if o.same (nodes b).key key then s else b ∷ omit o nodes key s

module _ {ℓ} {K V : Type ℓ} (o : KeyOrder K) (nodes nodes' : ℕ → Node K V) (key : K)
    (before : ℕ → ℕ) (t : ℕ) (r : Unlinked nodes before t (nodes t).level nodes') where
  open o use {same, less}

  first-same : (j : ℕ) (s : List ℕ) → first nodes' j s ≡ first nodes j s
  first-same j [] = refl
  first-same j (b ∷ s) = rw (r.same.level b, first-same j s)

  pred-apart :
      (j a b : ℕ) (s : List ℕ)
      → (a == b) ≡ false
      → All (λ d. (a == d) ≡ false) s
      → (a == pred o nodes key j b s) ≡ false
  pred-apart j a b [] p q = p
  pred-apart j a b (c ∷ s) p q = ground (arith, pred-apart j a c s, pred-apart j a b s)

  -- Behind `a`, the node of the key is skipped exactly if `a` is the last node in front of it.
  first-omit :
      (top j a c : ℕ) (s : List ℕ)
      → Linked nodes c s
      → Ordered o nodes top s
      → locate o nodes key s ≡ some t
      → All (λ d. (a == d) ≡ false) s
      → first nodes j (omit o nodes key s) ≡ (
          if ltb j (nodes t).level && (a == pred o nodes key j a s)
          then (nodes t).next j
          else first nodes j s)
  first-omit top j a c [] l d e p = absurd (cc)
  first-omit top j a c (b ∷ s) l d e p = elim (Bool-cases (same (nodes b).key key)) [
    | inl here ↦
        ground (arith, o.same_iff (nodes b).key key, o.less_irrefl key, Linked-head nodes b s l.1 j)
    | inr later ↦ ground (
      arith,
      front_smaller o nodes key t top b s d later e,
      pred-apart j a b s p.0 p.1,
      first-omit top j a b s l.1 d.2 (ground arith) p.1,
    )
  ]

  apart_of_less :
      (b : ℕ) (s : List ℕ)
      → All (λ c. less (nodes b).key (nodes c).key ≡ true) s
      → All (λ d. (b == d) ≡ false) s
  apart_of_less b [] h = tt
  apart_of_less b (c ∷ s) h = (ground (arith, o.less_irrefl (nodes b).key), apart_of_less b s h.1)

  -- Where no pointer is redirected, the nodes stay linked.
  unchanged :
      (b : ℕ) (s : List ℕ)
      → ((j : ℕ) → (b == before j) ≡ false)
      → ((j : ℕ) → All (λ d. (before j == d) ≡ false) s)
      → Linked nodes b s
      → Linked nodes' b s
  unchanged b [] p q l = λ j u. ground (arith, r.next b j, p j, l j, r.same.level b)
  unchanged b (c ∷ s) p q l = (
    (λ j u. ground (arith, r.next b j, p j, l.0 j, r.same.level b, first-same j (c ∷ s))),
    unchanged c s (λ j. ground (arith, (q j).0)) (λ j. (q j).1) l.1,
  )

  -- What is known when the walk over the nodes has come to `a`, with `s` ahead: `last j` is the
  -- last node so far that has a `next[j]`.
  pub record Stroll (top a : ℕ) (s : List ℕ) (last : ℕ → ℕ) : Type ℓ where
    pub linked : Linked nodes a s
    pub ordered : Ordered o nodes top s
    pub located : locate o nodes key s ≡ some t
    pub before_pred : (j : ℕ) → before j ≡ pred o nodes key j (last j) s
    pub at_self : (j : ℕ) → j < (nodes a).level → last j ≡ a
    pub apart : (j : ℕ) → All (λ d. (last j == d) ≡ false) s
    pub self_apart : All (λ d. (a == d) ≡ false) s

  Stroll-next :
      (top a : ℕ) (s : List ℕ) (last : ℕ → ℕ)
      → Stroll top a s last
      → (j : ℕ) → j < (nodes' a).level
      → (nodes' a).next j ≡ first nodes' j (omit o nodes key s)
  Stroll-next top a s last w j u = ground (
    arith,
    r.same.level a,
    r.next a j,
    first-same j (omit o nodes key s),
    first-omit top j a a s w.linked w.ordered w.located w.self_apart,
    w.before_pred j,
    w.at_self j,
    Linked-head nodes a s w.linked j,
  )

  Stroll-step :
      (top a b : ℕ) (s : List ℕ) (last : ℕ → ℕ)
      → Stroll top a (b ∷ s) last
      → same (nodes b).key key ≡ false
      → Stroll top b s (λ j. if ltb j (nodes b).level then b else last j)
  Stroll-step top a b s last w h = record {
    linked = w.linked.1;
    ordered = w.ordered.2;
    located = ground (arith, w.located);
    before_pred = λ j.
        ground (arith, w.before_pred j, front_smaller o nodes key t top b s w.ordered h w.located);
    at_self = λ j u. ground arith;
    apart = λ j. elim (Bool-cases (ltb j (nodes b).level)) [
      | inl e ↦ rw e (apart_of_less b s w.ordered.1)
      | inr e ↦ rw e (w.apart j).1
    ];
    self_apart = apart_of_less b s w.ordered.1;
  }

  -- The nodes behind the one taken out.
  tail-Linked :
      (a b : ℕ) (s : List ℕ) (last : ℕ → ℕ)
      → ((j : ℕ) → j < (nodes' a).level → (nodes' a).next j ≡ first nodes' j s)
      → ((j : ℕ) → before j ≡ last j)
      → ((j : ℕ) → All (λ d. (last j == d) ≡ false) s)
      → Linked nodes b s
      → Linked nodes' a s
  tail-Linked a b [] last h e p l = h
  tail-Linked a b (c ∷ s) last h e p l =
      (h, unchanged c s (λ j. ground (arith, e j, (p j).0)) (λ j. rw (e j) (p j).1) l.1)

  pub Linked-omit :
      (top a : ℕ) (s : List ℕ) (last : ℕ → ℕ)
      → Stroll top a s last
      → Linked nodes' a (omit o nodes key s)
  Linked-omit top a [] last w = absurd (cc w.located)
  Linked-omit top a (b ∷ s) last w = elim (Bool-cases (same (nodes b).key key)) [
    | inl here ↦
        let front = rw here at (Stroll-next top a (b ∷ s) last w) in
        let stop : (j : ℕ) → before j ≡ last j =
          λ j. ground (arith, w.before_pred j, o.same_iff (nodes b).key key, o.less_irrefl key) in
        rw here (tail-Linked a b s last front stop (λ j. (w.apart j).1) w.linked.1)
    | inr later ↦
        let front = rw later at (Stroll-next top a (b ∷ s) last w) in
        rw later (front, Linked-omit top b s _ (Stroll-step top a b s last w later))
  ]
