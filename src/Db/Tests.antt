-- ===== src/Db/Tests.antt =====
-- The properties of src/db/db_impl.cpp at a concrete database.
use tiny_db.Prelude.{
  List, All, ℕ, ◌+◌, ◌≡◌, ◌⊎◌, true, refl, none, some, [], ◌∷◌, Bytes, length, arith,
}
use tiny_db.Status.{Status}
use tiny_db.File.Disk.{disk, disk-WritesAll, disk-ReadsAt}
use tiny_db.MemTable.Tests.{one_entry, one_entry-Writes}
use tiny_db.Cache.Tests.{full, full-Holds}
use tiny_db.Lru.Tests.{two_entries}
use tiny_db.Db.{Db, Tables, Options, put, get, log_kv, build_sst_path}
use tiny_db.Db
use tiny_db.Db.Files.{Files}
use tiny_db.Db.Removes.{get-delete}
use tiny_db.MemTable.{new_table}
use tiny_db.Lru.Tests.{no_node}
use tiny_db.Db.{new_db}
use tiny_db.Db.Calls.{DbCall, Reply, answer_all}
use tiny_db.Db.Spec.{TablesSpec, answer_all_spec}
use tiny_db.Db.Refine.{Agrees, Fits}
use tiny_db.Wal.Replay.{replay}
use tiny_db.Db.{is_empty}
use tiny_db.Wal.Tests.{first_byte, first_byte-Is32Bit}
use tiny_db.Db.Recovery.{replay-answer_all}
use tiny_db.Db.Refine.Run.{new_spec, new_db-Refines, answer_all-answer_all_spec}

-- Files of tables, of which no more is kept than their number.
abbrev pub counted : Tables ℕ
counted = record { convert = λ path t n. some (n + 1); seek = λ n path key. some none }

abbrev pub options : Options
options = record { storage_dir = 46 ∷ []; mem_table_max_size = 4 }

abbrev pub started : Db ℕ
started = record {
  mem_table = one_entry;
  wal = record { buffer = []; file = 9 ∷ [] };
  cache = full;
  l1sst_num = 0;
  files = 0;
}

abbrev pub checksum : Bytes → ℕ
checksum bytes = 5

path_runs :
    build_sst_path 0 12
    ≡ 108 ∷ 101 ∷ 118 ∷ 101 ∷ 108 ∷ 95 ∷ 48 ∷ 95 ∷ 115 ∷ 115 ∷ 116 ∷ 95 ∷ 49 ∷ 50 ∷ 46 ∷ 115 ∷ 115
      ∷ 116 ∷ []
unfolding build_sst_path
path_runs = refl

-- The key 1 is in the cache and in the memtable.
get-delete_example :
    (d' : Db ℕ) × (Db.delete disk checksum length counted options [] (1 ∷ []) started
      ≡ some (d', Status.success))
    × ((d'.mem_table ≡ new_table)
        ⊎ (get disk checksum length counted options 4 (1 ∷ []) (5 ∷ []) d'
            ≡ some (d', Status.success, [])))
get-delete_example =
    get-delete disk disk-WritesAll checksum length counted options (λ path t n. (n + 1, refl))
      started (λ i. two_entries) full-Holds one_entry-Writes.holds (record { fits = omega arith })
      (1 ∷ []) refl (omega arith) (omega arith) [] 4 (5 ∷ [])

abbrev no_files : Db Files
no_files = record {
  mem_table = one_entry;
  wal = started.wal;
  cache = full;
  l1sst_num = 0;
  files = [];
}

abbrev pub counted_spec : TablesSpec ℕ
counted_spec = record { convert = λ path m n. some (n + 1); seek = λ n path key. some none }

-- Puts of two keys, one of them twice, a deletion, and a Get of a key that is nowhere.
abbrev five_calls : List DbCall
five_calls =
    DbCall.put_call [] 3 (1 ∷ []) (80 ∷ [])
    ∷ DbCall.put_call (true ∷ []) 4 (2 ∷ []) (81 ∷ [])
    ∷ DbCall.put_call [] 5 (1 ∷ []) (82 ∷ [])
    ∷ DbCall.delete_call [] (2 ∷ [])
    ∷ DbCall.get_call 6 (7 ∷ []) []
    ∷ []

five_calls-Fits : All Fits five_calls
five_calls-Fits = (
  (omega arith, omega arith),
  ((omega arith, omega arith), ((omega arith, omega arith), (omega arith, (tt, tt)))),
)

answer_all-answer_all_spec_example :
    Agrees 2
      (answer_all disk checksum length counted options five_calls (new_db 2 0 [] no_node 0))
      (answer_all_spec checksum length counted_spec options 2 five_calls (new_spec 0 [] 0))
answer_all-answer_all_spec_example =
    answer_all-answer_all_spec disk disk-WritesAll checksum length counted counted_spec
      (record { convert_same = λ h path f. refl; seek_same = λ f path key. refl }) options 2
      five_calls five_calls-Fits (new_db-Refines 2 0 [] no_node 0)

replay-answer_all_example :
    (d : Db ℕ) × (replies : List Reply) × (answer_all disk first_byte length counted options
        five_calls
        (new_db 2 0 [] no_node 0)
      ≡ some (d, replies))
    × (replay 5 disk first_byte (record { readable_file = some d.wal.file; offset = 0 })
        ≡ some ((1 ∷ []) ∷ (1 ∷ []) ∷ (1 ∷ []) ∷ (1 ∷ []) ∷ [], Status.exec_failed))
unfolding tiny_db.Wal.header
replay-answer_all_example =
    replay-answer_all disk disk-WritesAll disk-ReadsAt first_byte first_byte-Is32Bit length counted
      counted_spec (record { convert_same = λ h path f. refl; seek_same = λ f path key. refl })
      (record { converts = λ path m n. (n + 1, refl); seeks = λ f path key. (none, refl) }) options
      2 0 no_node 0 five_calls five_calls-Fits (omega arith)
