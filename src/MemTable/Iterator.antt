-- ===== src/MemTable/Iterator.antt =====
-- `MemTableIterator` of src/memtable/memtable_iterator.h, which passes its calls on to the iterator of
-- the skip list, and `NewIter` of src/memtable/memtable.cpp.
use tiny_db.Prelude.{
  ℕ, zero, suc, ◌≡◌, refl, Bool, true, false, Option, none, some, List, [], ◌∷◌, Bytes, ◌>>=◌,
  Option-cases, inl, inr,
}
use tiny_db.SkipList.Iterate
use tiny_db.SkipList.{read_next}
use tiny_db.MemTable.{Table}

-- The table, and the node that the iterator is at.
pub record Iter : Type 0 where
  pub list : Table
  pub place : Iterate.Iterator

unfoldable pub new_iter : Table → Iter
new_iter t = record { list = t; place = none }

unfoldable pub move_to_first : Iter → Option Iter
move_to_first it = Iterate.move_to_first it.list >>= λ place. some (record it { place = place })

unfoldable pub next : Iter → Option Iter
next it = Iterate.next it.list it.place >>= λ place. some (record it { place = place })

abbrev pub key : Iter → Option Bytes
key it = Iterate.key it.list it.place

abbrev pub value : Iter → Option Bytes
value it = Iterate.value it.list it.place

abbrev pub valid : Iter → Bool
valid it = Iterate.valid it.place

-- `for (; it.Valid(); it.Next())`: the keys and values.
unfoldable pub collect : ℕ → Iter → Option (List (Bytes × Bytes))
collect zero it = none
collect (suc f) it = elim (valid it) [
  | false ↦ some []
  | true ↦
      key it >>= λ k. value it >>= λ v. next it >>= λ it'. collect f it' >>= λ m. some ((k, v) ∷ m)
]

-- The walk is that of the skip list's iterator.
pub collect-collect :
    (f : ℕ) (t : Table) (place : Iterate.Iterator)
    → collect f (record { list = t; place = place }) ≡ Iterate.collect f t place
unfolding collect next Iterate.collect Iterate.next
collect-collect zero t place = refl
collect-collect (suc f) t none = refl
collect-collect (suc f) t (some a) = elim (Option-cases (read_next t.nodes a 0)) [
  | inl e ↦ rw (next, e) refl
  | inr (p, e) ↦ rw (next, e, collect-collect f t p) refl
]
