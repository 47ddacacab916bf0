-- ===== src/SkipList/Iterate.antt =====
-- `SkipListIterator`: the walk along the lowest level.
use tiny_db.Prelude.{
  ℕ, zero, suc, ◌≤◌, ◌<◌, ◌≡◌, refl, Bool, Option, none, some, is_some, List, [], ◌∷◌, length,
  lt→ltb, arith, ◌>>=◌,
}
use tiny_db.Order.{KeyOrder}
use tiny_db.SkipList.{SkipList, Sizes, head, read_next}
use tiny_db.SkipList.Linked.{first, Linked, Ordered, entries}
use tiny_db.SkipList.Search.{Represents, read_first}

-- The node that the iterator is at; `none` is `nullptr`.
abbrev pub Iterator : Type 0
Iterator = Option ℕ

abbrev pub valid : Iterator → Bool
valid = is_some

module _ {ℓ} {K V : Type ℓ} where
  -- `none` is a fault, here and below.
  unfoldable pub move_to_first : SkipList K V → Option Iterator
  unfolding read_next
  move_to_first s = read_next s.nodes head 0

  -- `none` is also the failed `assert(Valid())`, here and below.
  unfoldable pub next : SkipList K V → Iterator → Option Iterator
  unfolding read_next
  next s none = none
  next s (some a) = read_next s.nodes a 0

  abbrev pub key : SkipList K V → Iterator → Option K
  key s none = none
  key s (some a) = some (s.nodes a).key

  abbrev pub value : SkipList K V → Iterator → Option V
  value s none = none
  value s (some a) = some (s.nodes a).value

  -- `for (it.MoveToFirst(); it.Valid(); it.Next())`, from the test of `Valid` on: the keys and values.
  unfoldable pub collect : ℕ → SkipList K V → Iterator → Option (List (K × V))
  collect zero s it = none
  collect (suc f) s none = some []
  collect (suc f) s (some a) = key s (some a) >>= λ k.
      value s (some a) >>= λ v. next s (some a) >>= λ it. collect f s it >>= λ m. some ((k, v) ∷ m)

  module _ (o : KeyOrder K) (z : Sizes K V) (s : SkipList K V) where
    step_lem :
        (top a : ℕ) (l : List ℕ)
        → Linked s.nodes a l
        → 1 ≤ (s.nodes a).level
        → next s (some a) ≡ some (first s.nodes 0 l)
    unfolding next
    step_lem top a l h tall = read_first o s.nodes top (s.nodes a).key a 0 l h tall

    collect-entries :
        (f top : ℕ) (l : List ℕ) (b : ℕ)
        → Linked s.nodes b l
        → Ordered o s.nodes top l
        → 1 ≤ (s.nodes b).level
        → length l < f
        → collect (suc f) s (some b) ≡ some (entries s.nodes (b ∷ l))
    unfolding collect
    collect-entries zero top l b h d tall u = absurd (omega arith)
    collect-entries (suc f) top [] b h d tall u = rw (step_lem top b [] h tall)
    collect-entries (suc f) top (c ∷ l) b h d tall u =
        rw (step_lem top b (c ∷ l) h tall, lt→ltb 0 (s.nodes c).level d.0.0)
          (rw (collect-entries f top l c h.1 d.2 d.0.0 (omega arith)))

    -- The walk over a well-formed list meets no missing pointer, ends, and yields each stored entry
    -- once, in the order of the keys.
    pub collect-entries_lem :
        (l : List ℕ)
        → Represents o z s l
        → (it : Iterator) × (move_to_first s ≡ some it)
          × (collect (suc s.allocated) s it ≡ some (entries s.nodes l))
    unfolding move_to_first collect
    collect-entries_lem l r = (
      first s.nodes 0 l,
      read_first o s.nodes s.max_level (s.nodes head).key head 0 l r.linked (omega (arith, r.tall)),
      walk l r.linked r.ordered r.room,
    )
      where
        walk :
            (l : List ℕ)
            → Linked s.nodes head l
            → Ordered o s.nodes s.max_level l
            → length l < s.allocated
            → collect (suc s.allocated) s (first s.nodes 0 l) ≡ some (entries s.nodes l)
        walk [] h d u = refl
        walk (b ∷ l) h d u =
            rw (lt→ltb 0 (s.nodes b).level d.0.0)
              (collect-entries s.allocated s.max_level l b h.1 d.2 d.0.0 (omega arith))
