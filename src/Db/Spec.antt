-- ===== src/Db/Spec.antt =====
-- What a client of src/db/db.h sees: the bytes of the log, a list of entries in the order of their keys,
-- and for each shard of the cache a list in the order of use. No pointers, heights, clocks or counts.
use tiny_db.Prelude.{
  ℕ, ◌+◌, ◌%◌, ◌^◌, Bool, true, false, ◌||◌, Option, none, some, List, [], ◌∷◌, ◌++◌, Bytes, ltb,
  leb, ◌>>=◌, if◌then◌else◌,
}
use tiny_db.Order.ByteString.{byte_string}
use tiny_db.Assoc
use tiny_db.SkipList.{weight}
use tiny_db.Status.{Status}
use tiny_db.MemTable.{sizes, c_str}
use tiny_db.MemTable.Laws.{lookup}
use tiny_db.Lru.Refine.{admit, touch}
use tiny_db.Cache.{sharding_index}
use tiny_db.Cache.Shards.{in_shard}
use tiny_db.Wal.{Checksum}
use tiny_db.Wal.Records.{log_record}
use tiny_db.Db.{Options, is_empty, build_sst_path}
use tiny_db.Db.Logged.{logged}
use tiny_db.Db.Calls.{DbCall, Reply}

abbrev pub Entries : Type 0
Entries = List (Bytes × Bytes)

-- The files of tables, of which one is made from a list of entries.
pub record TablesSpec (F : Type 0) : Type 0 where
  pub convert : Bytes → Entries → F → Option F
  pub seek : F → Bytes → Bytes → Option (Option Bytes)

pub record Spec (F : Type 0) : Type 0 where
  pub log : Bytes
  pub table : Entries
  pub shards : ℕ → Entries
  pub l1sst_num : ℕ
  pub files : F

abbrev pub written : Bytes → Bytes → Entries → Entries
written k v m = Assoc.insert byte_string k v (Assoc.remove byte_string k m)

module _ {F : Type 0} (crc : Checksum) (hash_fn : Bytes → ℕ) (tables : TablesSpec F)
    (options : Options) (capacity : ℕ) where
  -- The log and the table after a write.
  abbrev pub after_write : Bytes → Bytes → Spec F → Spec F
  after_write key value s = record s {
    log = s.log ++ log_record crc (logged key);
    table = written (c_str key) value s.table;
  }

  abbrev pub cached : Bytes → Bytes → Spec F → Spec F
  cached key value s = record s {
    shards = in_shard (sharding_index hash_fn key) (admit byte_string capacity key value) s.shards;
  }

  abbrev pub erased : Bytes → Spec F → Spec F
  erased key s = record s {
    shards =
        in_shard (sharding_index hash_fn (c_str key)) (Assoc.remove byte_string (c_str key))
          s.shards;
  }

  abbrev pub turned : Bool → Spec F → Option (Spec F)
  turned false s = some s
  turned true s =
      tables.convert (options.storage_dir ++ (47 ∷ build_sst_path 0 s.l1sst_num)) s.table s.files
      >>= λ files.
          some (record s { files = files; l1sst_num = (s.l1sst_num + 1) % 2 ^ 32; table = [] })

  abbrev pub usage : Spec F → ℕ
  usage s = weight sizes s.table % 2 ^ 64

  abbrev pub put_spec : Bytes → Bytes → Spec F → Option (Spec F × Reply)
  put_spec key value s =
      let s1 = after_write key (c_str value) s in
      if is_empty key || is_empty value
      then some (s1, (Status.invalid_args, []))
      else (turned (ltb options.mem_table_max_size (usage s1)) (cached key value s1) >>= λ s2.
          some (s2, (Status.success, [])))

  abbrev pub delete_spec : Bytes → Spec F → Option (Spec F × Reply)
  delete_spec [] s = some (s, (Status.invalid_args, []))
  delete_spec (b ∷ rest) s =
      let key : Bytes = b ∷ rest in
      let s1 = after_write key [] s in
      turned (leb options.mem_table_max_size (usage s1)) (erased key s1) >>= λ s2.
      some (s2, (Status.success, []))

  -- `Get` after the files answered, after the table did, and after the cache did.
  abbrev pub get_filed : Bytes → Bytes → Spec F → Option Bytes → Option (Spec F × Reply)
  get_filed key ret s none = some (s, (Status.not_found, ret))
  get_filed key ret s (some v) = some (cached (c_str key) v s, (Status.success, ret ++ v))

  abbrev pub get_tabled : Bytes → Bytes → Spec F → Option Bytes → Option (Spec F × Reply)
  get_tabled key ret s (some v) = some (s, (Status.success, v))
  get_tabled key ret s none =
      tables.seek s.files (options.storage_dir ++ build_sst_path 0 0) key >>= get_filed key ret s

  abbrev pub get_cached : Bytes → Bytes → Spec F → Option Bytes → Option (Spec F × Reply)
  get_cached key ret s (some v) = some (
    record s {
      shards =
          in_shard (sharding_index hash_fn (c_str key)) (touch byte_string (c_str key)) s.shards;
    },
    (Status.success, v),
  )
  get_cached key ret s none = get_tabled key ret s (lookup (c_str key) s.table)

  abbrev pub get_spec : Bytes → Bytes → Spec F → Option (Spec F × Reply)
  get_spec [] ret s = some (s, (Status.invalid_args, ret))
  get_spec (b ∷ rest) ret s =
      get_cached (b ∷ rest) ret s
        (lookup (c_str (b ∷ rest)) (s.shards (sharding_index hash_fn (c_str (b ∷ rest)))))

  abbrev pub answer_spec : DbCall → Spec F → Option (Spec F × Reply)
  answer_spec (DbCall.put_call bits now key value) s = put_spec key value s
  answer_spec (DbCall.delete_call bits key) s = delete_spec key s
  answer_spec (DbCall.get_call now key ret) s = get_spec key ret s
  answer_spec DbCall.batch_put_call s = some (s, (Status.not_impl, []))
  answer_spec DbCall.batch_delete_call s = some (s, (Status.not_impl, []))
  answer_spec DbCall.close_call s = some (s, (Status.success, []))

  abbrev pub answer_all_spec : List DbCall → Spec F → Option (Spec F × List Reply)
  answer_all_spec [] s = some (s, [])
  answer_all_spec (call ∷ calls) s =
      answer_spec call s >>= λ r. answer_all_spec calls r.0 >>= λ rest. some (rest.0, r.1 ∷ rest.1)
