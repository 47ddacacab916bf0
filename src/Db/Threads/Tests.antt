-- ===== src/Db/Threads/Tests.antt =====
-- Threads in src/db/db_impl.cpp at concrete databases.
use tiny_db.Prelude.{
  List, All, ℕ, ◌+◌, ◌≡◌, ◌⊎◌, true, refl, none, some, [], ◌∷◌, Bytes, length, arith,
}
use tiny_db.File.Disk.{disk, disk-WritesAll}
use tiny_db.MemTable.Tests.{one_entry-Writes}
use tiny_db.Cache.Tests.{full-Holds}
use tiny_db.Lru.Tests.{two_entries}
use tiny_db.Db.{Db, Tables}
use tiny_db.MemTable.{new_table}
use tiny_db.Db.Spec.{Spec}
use tiny_db.Db.Refine.{Refines}
use tiny_db.Lru
use tiny_db.Cache
use tiny_db.Db.{get_stored}
use tiny_db.Db.Spec.{Spec}
use tiny_db.Db.Refine.{Refines}
use tiny_db.Db.Tests.{counted, counted_spec, options, started, checksum}
use tiny_db.Db.Threads.{Place, Threads, ask, take_hit, read_stored, Step, Reach}
use tiny_db.Db.Threads.Safety.{Step-returns}

abbrev started_view : Spec ℕ
started_view = record {
  log = 9 ∷ [];
  table = one_entry-Writes.entries_after;
  shards = λ i. two_entries;
  l1sst_num = 0;
  files = 0;
}

started-Refines : Refines 2 started started_view
unfolding tiny_db.Lru.insert tiny_db.Lru.push_front
started-Refines = record {
  logs = refl;
  flushed = refl;
  table = one_entry-Writes.holds;
  shards = full-Holds;
  caps = λ i. refl;
  numbered = refl;
  stored = refl;
}

-- Two threads have seen the keys 1 and 2 in the cache, and the second one has taken its value.
abbrev two_readers :
    (s : Threads ℕ) × Reach disk checksum length counted options started s
    × (s.place 0 ≡ Place.hit (1 ∷ []))
unfolding tiny_db.Lru.insert tiny_db.Lru.push_front ask take_hit Cache.get Lru.get Lru.splice
    Lru.ref
two_readers = (
  _,
  Reach.later
      (Reach.later
        (Reach.later
          (Reach.later (Reach.later Reach.start (Step.begin_get 0 1 [] refl))
            (Step.begin_get 1 2 [] refl))
          (Step.ask_cache 0 (1 ∷ []) refl))
        (Step.ask_cache 1 (2 ∷ []) refl))
      (Step.take_cached 1 (2 ∷ []) refl),
  refl,
)

Step-returns_example :
    (t : Threads ℕ) × (take_hit disk checksum length counted options 0 (1 ∷ []) two_readers.0
      ≡ some t)
unfolding tiny_db.Lru.insert tiny_db.Lru.push_front ask take_hit Cache.get Lru.get Lru.splice
    Lru.ref
Step-returns_example =
    Step-returns disk disk-WritesAll checksum length counted counted_spec
      (record { convert_same = λ h path f. refl; seek_same = λ f path key. refl })
      (record { converts = λ path m n. (n + 1, refl); seeks = λ f path key. (none, refl) }) options
      2 (λ f path key. refl) started-Refines two_readers.1
      (Step.take_cached 0 (1 ∷ []) two_readers.2)

-- Files that have a value for every key.
abbrev full_files : Tables ℕ
full_files = record { convert = λ path t n. some n; seek = λ n path key. some (some (5 ∷ [])) }

abbrev racing : Db ℕ
racing = record started { mem_table = new_table }

-- Thread 0 has seen key 1 in the cache, and then thread 1 found key 9 in a file, for which the cache gave
-- key 1 up.
abbrev raced :
    (s : Threads ℕ) × Reach disk checksum length full_files options racing s
    × (s.place 0 ≡ Place.hit (1 ∷ []))
    × (take_hit disk checksum length full_files options 0 (1 ∷ []) s ≡ none)
unfolding tiny_db.Lru.insert tiny_db.Lru.push_front ask take_hit Cache.get Lru.get Lru.splice
    Lru.ref read_stored get_stored tiny_db.MemTable.contains tiny_db.SkipList.contains
    tiny_db.SkipList.contains_loop new_table tiny_db.SkipList.read_next Cache.insert
    Lru.phantom_erase_node Lru.unref tiny_db.Prelude.Int.◌-ℤ◌
raced = (
  _,
  Reach.later
      (Reach.later
        (Reach.later
          (Reach.later (Reach.later Reach.start (Step.begin_get 0 1 [] refl))
            (Step.begin_get 1 9 [] refl))
          (Step.ask_cache 0 (1 ∷ []) refl))
        (Step.ask_cache 1 (9 ∷ []) refl))
      (Step.read_table 1 0 (9 ∷ []) [] refl),
  refl,
  refl,
)
