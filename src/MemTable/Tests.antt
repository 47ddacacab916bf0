-- ===== src/MemTable/Tests.antt =====
-- The properties of src/memtable/memtable.cpp at a concrete table.
use tiny_db.Prelude.{suc, ◌≡◌, refl, ap, sym, true, Option, none, some, List, [], ◌∷◌, Bytes, subst}
use tiny_db.Order.ByteString.{byte_string}
use tiny_db.Assoc.{IsAscending}
use tiny_db.MemTable.{Table, OpType, new_table, add, update}
use tiny_db.MemTable.Iterator.{Iter, new_iter, move_to_first, collect}
use tiny_db.MemTable.Walk.{Write, write_all, write_all_spec, walk-write_all}
use tiny_db.MemTable.Laws.{Writes, new_table-Holds, add_new-Writes, update-Writes}

abbrev made : Option Table → Table
made none = new_table
made (some t) = t

-- A table with one entry.
abbrev pub one_entry : Table
one_entry = made (add (true ∷ []) (7 ∷ []) (70 ∷ []) new_table)

first_add :
    (t : Table) × (add (true ∷ []) (7 ∷ []) (70 ∷ []) new_table ≡ some t)
    × Writes (7 ∷ []) (70 ∷ []) [] t
first_add = add_new-Writes new_table-Holds (true ∷ []) (7 ∷ []) (70 ∷ []) refl

pub one_entry-Writes : Writes (7 ∷ []) (70 ∷ []) [] one_entry
one_entry-Writes = subst (Writes (7 ∷ []) (70 ∷ []) []) (ap made (sym first_add.1)) first_add.2

abbrev stored : List (Bytes × Bytes)
stored = one_entry-Writes.entries_after

update-Writes_example :
    (t : Table) × (update [] (7 ∷ []) (80 ∷ []) one_entry ≡ some t)
    × Writes (7 ∷ []) (80 ∷ []) stored t
update-Writes_example = update-Writes one_entry-Writes.holds [] (7 ∷ []) (80 ∷ [])

-- A key is added twice, and another one added and deleted.
abbrev four_writes : List Write
four_writes =
    record { op = OpType.k_add; bits = true ∷ []; key = 7 ∷ []; value = 70 ∷ [] }
    ∷ record { op = OpType.k_add; bits = []; key = 3 ∷ []; value = 30 ∷ [] }
    ∷ record { op = OpType.k_add; bits = []; key = 7 ∷ []; value = 71 ∷ [] }
    ∷ record { op = OpType.k_deletion; bits = []; key = 3 ∷ []; value = [] }
    ∷ []

walk-write_all_example :
    (t : Table) × (it : Iter) × (write_all four_writes new_table ≡ some t)
    × (move_to_first (new_iter t) ≡ some it)
    × (collect (suc t.allocated) it ≡ some ((3 ∷ [], []) ∷ (7 ∷ [], 70 ∷ []) ∷ []))
    × IsAscending {V = Bytes} byte_string ((3 ∷ [], []) ∷ (7 ∷ [], 70 ∷ []) ∷ [])
unfolding write_all_spec
walk-write_all_example = walk-write_all four_writes
