-- ===== src/MemTable/Walk.antt =====
-- The memtable of src/memtable/memtable.cpp, written to and then walked, against a list of entries.
use tiny_db.Prelude.{
  suc, ◌≡◌, refl, ap, ◌∙◌, Bool, Option, none, some, List, [], ◌∷◌, Bytes, ◌>>=◌, Option-cases, inl,
  inr, subst,
}
use tiny_db.Order.ByteString.{byte_string}
use tiny_db.Assoc
use tiny_db.Assoc.{IsAscending}
use tiny_db.SkipList.Iterate.{collect-entries_lem}
use tiny_db.MemTable.{Table, OpType, sizes, c_str, new_table, insert, add, update, delete}
use tiny_db.MemTable.Laws.{
  Holds, lookup, ascending, Writes, new_table-Holds, add_new-Writes, add_stored, update-Writes,
  delete-Writes,
}
use tiny_db.MemTable.Iterator.{Iter, new_iter, move_to_first, collect, collect-collect}

-- A call of `Insert`, with what `rand() & 1` returns.
pub record Write : Type 0 where
  pub op : OpType
  pub bits : List Bool
  pub key : Bytes
  pub value : Bytes

unfoldable pub write_all : List Write → Table → Option Table
write_all [] t = some t
write_all (w ∷ writes) t = insert w.op w.bits w.key w.value t >>= λ t'. write_all writes t'

-- The entries after a write: a key that is added keeps its old value, one that is updated takes the
-- new value, and one that is deleted stays with the empty value.
abbrev pub replaced : Bytes → Bytes → List (Bytes × Bytes) → List (Bytes × Bytes)
replaced k v m = Assoc.insert byte_string k v (Assoc.remove byte_string k m)

abbrev pub insert_spec : OpType → Bytes → Bytes → List (Bytes × Bytes) → List (Bytes × Bytes)
insert_spec OpType.k_deletion key value m = replaced (c_str key) [] m
insert_spec OpType.k_update key value m = replaced (c_str key) (c_str value) m
insert_spec OpType.k_add key value m = elim (lookup (c_str key) m) [
  | none ↦ replaced (c_str key) (c_str value) m
  | some v ↦ m
]

unfoldable pub write_all_spec : List Write → List (Bytes × Bytes) → List (Bytes × Bytes)
write_all_spec [] m = m
write_all_spec (w ∷ writes) m = write_all_spec writes (insert_spec w.op w.key w.value m)

Writes-replaced :
    {k v : Bytes} {m : List (Bytes × Bytes)} {t : Table} → Writes k v m t → Holds t (replaced k v m)
Writes-replaced w = subst (Holds _) w.exact w.holds

insert-insert_spec :
    {t : Table} {m : List (Bytes × Bytes)}
    → Holds t m
    → (op : OpType) (bits : List Bool) (key value : Bytes)
    → (t' : Table) × (insert op bits key value t ≡ some t') × Holds t' (insert_spec op key value m)
unfolding add update delete insert
insert-insert_spec h OpType.k_deletion bits key value =
    let (t', run, w) = delete-Writes h bits key in (t', run, Writes-replaced w)
insert-insert_spec h OpType.k_update bits key value =
    let (t', run, w) = update-Writes h bits key value in (t', run, Writes-replaced w)
insert-insert_spec {t} {m} h OpType.k_add bits key value =
    elim (Option-cases (lookup (c_str key) m)) [
      | inl absent ↦
          let (t', run, w) = add_new-Writes h bits key value absent in
          (t', run, rw (insert_spec, absent) (Writes-replaced w))
      | inr (v, there) ↦ (t, add_stored h bits key value v there, rw (insert_spec, there) h)
    ]

write_all-write_all_spec :
    (writes : List Write) {t : Table} {m : List (Bytes × Bytes)}
    → Holds t m
    → (t' : Table) × (write_all writes t ≡ some t') × Holds t' (write_all_spec writes m)
unfolding write_all write_all_spec
write_all-write_all_spec [] {t} h = (t, refl, h)
write_all-write_all_spec (w ∷ writes) h =
    let (t1, run1, h1) = insert-insert_spec h w.op w.bits w.key w.value in
    let (t2, run2, h2) = write_all-write_all_spec writes h1 in (t2, rw run1 run2, h2)

-- Whatever is added, updated and deleted in a new memtable, none of it faults, and the walk of an
-- iterator over the table, MoveToFirst, Valid, Next, ends within as many turns as nodes were made and
-- one more, without a fault. It yields the entries of the same writes to a sorted list, in which an
-- added key keeps the value that it has, an updated one takes the new value, and a deleted one stays
-- with the empty value, all up to the first NUL; and their keys ascend strictly.
pub walk-write_all :
    (writes : List Write)
    → (t : Table) × (it : Iter) × (write_all writes new_table ≡ some t)
      × (move_to_first (new_iter t) ≡ some it)
      × (collect (suc t.allocated) it ≡ some (write_all_spec writes []))
      × IsAscending byte_string (write_all_spec writes [])
unfolding move_to_first new_iter
walk-write_all writes =
    let (t, run, h) = write_all-write_all_spec writes new_table-Holds in
    let (place, first, walk) = collect-entries_lem byte_string sizes t h.list h.represents in
    (
      t,
      record { list = t; place = place },
      run,
      rw first refl,
      collect-collect (suc t.allocated) t place ∙ walk ∙ ap some h.stored,
      ascending h,
    )
