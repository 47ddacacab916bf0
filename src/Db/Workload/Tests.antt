-- ===== src/Db/Workload/Tests.antt =====
-- The calls of src/main.cpp at concrete numbers.
use tiny_db.Prelude.{
  false, true, refl, ◌≡◌, List, [], ◌∷◌, Bytes, arith, map, ℕ, some, Bool, inl, inr, length,
}
use tiny_db.Status.{Status}
use tiny_db.File.Disk.{disk, disk-WritesAll}
use tiny_db.MemTable.{c_str}
use tiny_db.Lru.Tests.{no_node}
use tiny_db.Db.{Db, Options, is_empty, new_db}
use tiny_db.Db.Calls.{answer_all}
use tiny_db.Db.Tests.{counted, counted_spec, checksum}
use tiny_db.Db.Workload.{IsPlain, Put, Get, put_calls, get_calls, IsWorkload}
use tiny_db.Db.Workload.Run.{answer_all-put_calls}
use tiny_db.Db.Workload.Main.{write_item, read_item, value_of, answer_all-read_item}

abbrev small_options : Options
small_options = record { storage_dir = 46 ∷ []; mem_table_max_size = 100 }

-- Three writes to a cache with one entry in each shard, and reads in another order.
abbrev three_puts : List Put
three_puts =
    record { bits = true ∷ []; now = 1; key = 5 ∷ []; value = 50 ∷ [] }
    ∷ record { bits = []; now = 2; key = 3 ∷ []; value = 30 ∷ [] }
    ∷ record { bits = []; now = 3; key = 8 ∷ 9 ∷ []; value = 80 ∷ [] }
    ∷ []

abbrev two_gets : List Get
two_gets =
    record { now = 4; key = 8 ∷ 9 ∷ []; ret = []; value = 80 ∷ [] }
    ∷ record { now = 5; key = 5 ∷ []; ret = 7 ∷ []; value = 50 ∷ [] }
    ∷ []

three_puts-IsWorkload : IsWorkload three_puts
three_puts-IsWorkload = (
  (plain refl refl, plain refl refl, omega arith, omega arith),
  (refl, (refl, tt)),
  (
    (plain refl refl, plain refl refl, omega arith, omega arith),
    (refl, tt),
    ((plain refl refl, plain refl refl, omega arith, omega arith), tt, tt),
  ),
)
  where
    plain : {bytes : Bytes} → is_empty bytes ≡ false → c_str bytes ≡ bytes → IsPlain bytes
    plain f w = record { filled = f; whole = w }

answer_all-put_calls_example :
    (d1 : Db ℕ) × (d2 : Db ℕ) × (answer_all disk checksum length counted small_options
        (put_calls three_puts)
        (new_db 1 0 [] no_node 0)
      ≡ some (d1, (Status.success, []) ∷ (Status.success, []) ∷ (Status.success, []) ∷ []))
    × (answer_all disk checksum length counted small_options (get_calls two_gets) d1
        ≡ some (d2, (Status.success, 80 ∷ []) ∷ (Status.success, 50 ∷ []) ∷ []))
answer_all-put_calls_example =
    answer_all-put_calls checksum length counted_spec small_options 1 disk disk-WritesAll counted
      (record { convert_same = λ h path f. refl; seek_same = λ f path key. refl }) three_puts
      two_gets three_puts-IsWorkload (omega arith) (omega arith)
      (
        (record { filled = refl; whole = refl }, refl),
        ((record { filled = refl; whole = refl }, refl), tt),
      )
      0 [] no_node 0

-- The options of main.
abbrev main_options : Options
main_options = record { storage_dir = 46 ∷ []; mem_table_max_size = 4194304 }

abbrev order : List (List Bool × ℕ × ℕ)
order = (true ∷ [], 1, 0) ∷ ([], 2, 5000) ∷ ([], 3, 1) ∷ []

answer_all-read_item_example :
    (d1 : Db ℕ) × (d2 : Db ℕ) × (answer_all disk checksum length counted main_options
        (put_calls (map write_item order))
        (new_db 4096 0 [] no_node 0)
      ≡ some (d1, (Status.success, []) ∷ (Status.success, []) ∷ (Status.success, []) ∷ []))
    × (answer_all disk checksum length counted main_options
          (get_calls (map read_item ((4, 5000) ∷ (5, 0) ∷ [])))
          d1
        ≡ some (d2, (Status.success, value_of 5000) ∷ (Status.success, value_of 0) ∷ []))
answer_all-read_item_example =
    answer_all-read_item checksum length counted_spec main_options 4096 disk disk-WritesAll counted
      (record { convert_same = λ h path f. refl; seek_same = λ f path key. refl }) (omega arith)
      (omega arith) order
      (
        omega arith,
        (omega arith, (omega arith, tt)),
        (omega arith, (omega arith, tt), (omega arith, tt, tt)),
      )
      (omega arith) ((4, 5000) ∷ (5, 0) ∷ []) (inr (inl refl), (inl refl, tt)) [] no_node 0
