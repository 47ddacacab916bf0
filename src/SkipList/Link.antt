-- ===== src/SkipList/Link.antt =====
-- What the loop of `Insert` that links the new node leaves on the heap, field by field.
use tiny_db.Prelude.{
  ℕ, zero, suc, ◌≤◌, ◌<◌, ◌≡◌, ◌≢◌, refl, ap, ◌&&◌, Option, none, some, ltb, lt→ltb, ◌==◌,
  if◌then◌else◌, arith, ◌∙◌, ℕ_discrete,
}
use tiny_db.SkipList.{Node, head, read_next, write_next, with_next, link_level, link}

-- The node whose pointer is redirected: that of `prev[i]`, or the head.
abbrev pub target : Option ℕ → ℕ
target none = head
target (some p) = p

module _ {ℓ} {K V : Type ℓ} where
  -- `nodes'` has the nodes of `nodes`, but for their pointers.
  pub record SameNodes (nodes nodes' : ℕ → Node K V) : Type ℓ where
    pub key : (a : ℕ) → (nodes' a).key ≡ (nodes a).key
    pub value : (a : ℕ) → (nodes' a).value ≡ (nodes a).value
    pub level : (a : ℕ) → (nodes' a).level ≡ (nodes a).level

  pub SameNodes-trans :
      {n1 n2 n3 : ℕ → Node K V} → SameNodes n1 n2 → SameNodes n2 n3 → SameNodes n1 n3
  SameNodes-trans p q = record {
    key = λ a. q.key a ∙ p.key a;
    value = λ a. q.value a ∙ p.value a;
    level = λ a. q.level a ∙ p.level a;
  }

  pub write_next_lem :
      (nodes : ℕ → Node K V) (a i : ℕ) (p : Option ℕ)
      → i < (nodes a).level
      → (nodes' : ℕ → Node K V) × (write_next nodes a i p ≡ some nodes')
        × SameNodes nodes nodes'
        × ((b j : ℕ) → (nodes' b).next j ≡ (if (b == a) && (j == i) then p else (nodes b).next j))
  unfolding write_next
  write_next_lem nodes a i p h = (
    with_next nodes a i p,
    rw (lt→ltb i (nodes a).level h) refl,
    record { key = λ b. ground arith; value = λ b. ground arith; level = λ b. ground arith },
    λ b j. ground arith,
  )

  abbrev pub inherited : (ℕ → Node K V) → Option ℕ → ℕ → Option ℕ
  inherited nodes none j = none
  inherited nodes (some p) j = (nodes p).next j

  -- The pointer `next[j]` of `a` after `r` rounds for the new node `n`.
  abbrev pub relinked : (ℕ → Node K V) → (ℕ → Option ℕ) → ℕ → ℕ → ℕ → ℕ → Option ℕ
  relinked nodes prev n r a j =
      if ltb j r
      then (if a == n
          then inherited nodes (prev j) j
          else if a == target (prev j)
          then some n
          else (nodes a).next j)
      else (nodes a).next j

  pub record Relinked (nodes : ℕ → Node K V) (prev : ℕ → Option ℕ) (n r : ℕ) (nodes' : ℕ → Node K V)
      : Type ℓ where
    pub same : SameNodes nodes nodes'
    pub next : (a j : ℕ) → (nodes' a).next j ≡ relinked nodes prev n r a j

  round_runs :
      (nodes na nb : ℕ → Node K V) (q : Option ℕ) (n i : ℕ)
      → i < (nodes (target q)).level
      → write_next nodes n i (inherited nodes q i) ≡ some na
      → write_next na (target q) i (some n) ≡ some nb
      → link_level nodes q n i ≡ some nb
  unfolding link_level read_next
  round_runs nodes na nb none n i h ea eb = rw (ea, eb)
  round_runs nodes na nb (some p) n i h ea eb = rw (lt→ltb i (nodes p).level h, ea, eb)

  module _ (nodes : ℕ → Node K V) (prev : ℕ → Option ℕ) (n : ℕ) where
    unchanged_yet :
        (i : ℕ) (nodes1 : ℕ → Node K V)
        → Relinked nodes prev n i nodes1
        → (q : Option ℕ) → inherited nodes1 q i ≡ inherited nodes q i
    unchanged_yet i nodes1 r none = refl
    unchanged_yet i nodes1 r (some p) = ground (arith, r.next p i)

    round_next :
        (i a j : ℕ) (before written after : Option ℕ)
        → target (prev i) ≢ n
        → before ≡ relinked nodes prev n i a j
        → written ≡ (if (a == n) && (j == i) then inherited nodes (prev i) i else before)
        → after ≡ (if (a == target (prev i)) && (j == i) then some n else written)
        → after ≡ relinked nodes prev n (suc i) a j
    round_next i a j before written after ne e1 e2 e3 = elim (ℕ_discrete j i) [
      | yes q ↦ ground arith
      | no q ↦ ground arith
    ]

    link_round :
        (i : ℕ) (nodes1 : ℕ → Node K V)
        → Relinked nodes prev n i nodes1
        → i < (nodes n).level
        → i < (nodes (target (prev i))).level
        → target (prev i) ≢ n
        → (nodes2 : ℕ → Node K V) × (link_level nodes1 (prev i) n i ≡ some nodes2)
          × Relinked nodes prev n (suc i) nodes2
    link_round i nodes1 r hn ht ne =
        let (na, ea, sa, xa) =
          write_next_lem nodes1 n i (inherited nodes1 (prev i) i) (omega (arith, r.same.level n)) in
        let (nb, eb, sb, xb) =
          write_next_lem na (target (prev i)) i (some n)
            (omega (arith, sa.level (target (prev i)), r.same.level (target (prev i)))) in
        (
          nb,
          round_runs nodes1 na nb (prev i) n i (omega (arith, r.same.level (target (prev i)))) ea
              eb,
          record {
            same = SameNodes-trans r.same (SameNodes-trans sa sb);
            next = λ a j.
                round_next i a j _ _ _ ne (r.next a j)
                  (xa a j
                    ∙ ap (λ p. if (a == n) && (j == i) then p else (nodes1 a).next j)
                        (unchanged_yet i nodes1 r (prev i)))
                  (xb a j);
          },
        )

    -- After the rounds below `r`, if each of them writes within its vectors.
    pub link-Relinked :
        (r : ℕ)
        → r ≤ (nodes n).level
        → ((j : ℕ) → j < r → (j < (nodes (target (prev j))).level) × (target (prev j) ≢ n))
        → (nodes' : ℕ → Node K V) × (link r nodes prev n ≡ some nodes')
          × Relinked nodes prev n r nodes'
    unfolding link
    link-Relinked zero h w = (
      nodes,
      refl,
      record {
        same = record { key = λ a. refl; value = λ a. refl; level = λ a. refl };
        next = λ a j. ground arith;
      },
    )
    link-Relinked (suc i) h w =
        let (n1, e1, r1) = link-Relinked i (omega arith) (λ j q. w j (omega arith)) in
        let (n2, e2, r2) =
          link_round i n1 r1 (omega arith) (w i (omega arith)).0 (w i (omega arith)).1 in
        (n2, rw (e1, e2), r2)
