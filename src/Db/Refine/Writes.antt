-- ===== src/Db/Refine/Writes.antt =====
-- `Put` and `Delete` of src/db/db_impl.cpp do what the list-based view says.
use tiny_db.Prelude.{
  ℕ, ◌+◌, ◌-◌, ◌%◌, ◌^◌, ◌<◌, ◌≡◌, refl, ap, ◌∙◌, subst, Bool, true, false, ◌||◌, some, List, [],
  ◌∷◌, ◌++◌, Bytes, length, ltb, leb, ◌>>=◌, arith, Option-cases, Bool-cases, inl, inr, append-nil,
}
use tiny_db.Order.ByteString.{byte_string}
use tiny_db.Status.{Status}
use tiny_db.File.{System, WritesAll, Writer}
use tiny_db.File.Writing.{contents, IsValid}
use tiny_db.Wal.{Checksum}
use tiny_db.Wal.Records.{log_record}
use tiny_db.MemTable
use tiny_db.MemTable.{Table, c_str, new_table, sizes}
use tiny_db.MemTable.Laws
use tiny_db.MemTable.Laws.{
  lookup, Writes, contains-lookup_lem, get-lookup_lem, mem_usage-weight, new_table-Holds,
}
use tiny_db.Cache
use tiny_db.Cache.{Cache, sharding_index}
use tiny_db.Cache.Shards
use tiny_db.Cache.Shards.{in_shard, insert-Holds, erase-Holds, get-Holds, contains-Holds}
use tiny_db.Cache.Capacity.{insert-SameCaps, erase-SameCaps}
use tiny_db.Lru.Refine.{admit}
use tiny_db.Db
use tiny_db.Db.{
  Options, Tables, Db, is_empty, as_size, build_sst_path, new_generation, mem_table_to_sst,
  get_stored,
}
use tiny_db.Db.Logged.{logged, log_kv_runs}
use tiny_db.Db.Reads.{put_table}
use tiny_db.Db.Removes.{delete_table}
use tiny_db.Db.Spec.{
  TablesSpec, Spec, after_write, cached, erased, turned, usage, put_spec, delete_spec,
}
use tiny_db.Db.Refine.{
  IsFaithful, Refines, Agrees, Turns, with_status, no_value, answered, Agrees-along,
  with_cache-Refines,
}

module _ {F : Type 0} (os : System) (all : WritesAll os) (crc : Checksum) (hash_fn : Bytes → ℕ)
    (tables : Tables F) (spec : TablesSpec F) (faithful : IsFaithful tables spec)
    (options : Options) (capacity : ℕ) where
  new_generation-turned :
      (over : Bool) {d : Db F} {s : Spec F}
      → Refines capacity d s
      → Turns capacity
          (new_generation os crc hash_fn tables options over d)
          (turned crc hash_fn spec options capacity over s)
  unfolding new_generation mem_table_to_sst Turns
  new_generation-turned false {d} {s} h = (d, refl, h)
  new_generation-turned true {d} {s} h =
      let path = options.storage_dir ++ (47 ∷ build_sst_path 0 s.l1sst_num) in
      let same : tables.convert (options.storage_dir ++ (47 ∷ build_sst_path 0 d.l1sst_num))
            d.mem_table d.files
          ≡ spec.convert path s.table s.files =
        rw (h.numbered, h.stored) (faithful.convert_same h.table path s.files) in
      elim (Option-cases (spec.convert path s.table s.files)) [
        | inl e ↦ rw (same, e) refl
        | inr (files, e) ↦
            rw (same, e)
              (
                record d {
                  mem_table = new_table;
                  files = files;
                  l1sst_num = (d.l1sst_num + 1) % 2 ^ 32;
                },
                refl,
                record {
                  logs = h.logs;
                  flushed = h.flushed;
                  shards = h.shards;
                  caps = h.caps;
                  table = new_table-Holds;
                  numbered = ap (λ n. (n + 1) % 2 ^ 32) h.numbered;
                  stored = refl;
                },
              )
      ]

  flushed-IsValid : (d : Db F) {s : Spec F} → Refines capacity d s → IsValid d.wal
  flushed-IsValid d h = record { fits = omega (arith, ap length h.flushed) }

  -- The log and the table after a write.
  after_write-Refines :
      (key value : Bytes) {d : Db F} {s : Spec F} (w : Writer) (t : Table)
      → Refines capacity d s
      → w.file ≡ contents d.wal ++ log_record crc (logged key)
      → w.buffer ≡ []
      → Writes (c_str key) value s.table t
      → Refines capacity
          (record d { wal = w; mem_table = t })
          (after_write crc hash_fn spec options capacity key value s)
  after_write-Refines key value {d} {s} w t h holds empty after = record {
    logs =
        holds
        ∙ ap (λ b. (d.wal.file ++ b) ++ log_record crc (logged key)) h.flushed
        ∙ ap (λ b. b ++ log_record crc (logged key)) (append-nil d.wal.file ∙ h.logs);
    flushed = empty;
    table = subst (MemTable.Laws.Holds t) after.exact after.holds;
    shards = h.shards;
    caps = h.caps;
    numbered = h.numbered;
    stored = h.stored;
  }

  usage_same :
      {d : Db F} {s : Spec F}
      → Refines capacity d s
      → as_size (MemTable.get_mem_usage d.mem_table) ≡ usage crc hash_fn spec options capacity s
  usage_same h = ap as_size (mem_usage-weight h.table)

  -- The cache after an insertion.
  pub cached-Refines :
      (now : ℕ) (key value : Bytes) {d : Db F} {s : Spec F}
      → Refines capacity d s
      → (c : Cache Bytes Bytes) × (Cache.insert byte_string hash_fn now key value d.cache ≡ some c)
        × Refines capacity
            (record d { cache = c })
            (cached crc hash_fn spec options capacity key value s)
  cached-Refines now key value {d} {s} h =
      let shard = sharding_index hash_fn key in
      let (c, ran, holds) =
        insert-Holds byte_string hash_fn d.cache s.shards h.shards key now value in
      (
        c,
        ran,
        with_cache-Refines h (insert-SameCaps byte_string hash_fn d.cache c key now value ran) (
            subst
              (λ n. Cache.Shards.Holds c (in_shard shard (admit byte_string n key value) s.shards))
              (h.caps shard) holds),
      )

  -- The cache after an erasure.
  erased-Refines :
      (key : Bytes) {d : Db F} {s : Spec F}
      → Refines capacity d s
      → (c : Cache Bytes Bytes) × (Cache.erase byte_string hash_fn d.cache (c_str key) ≡ some c)
        × Refines capacity (record d { cache = c }) (erased crc hash_fn spec options capacity key s)
  erased-Refines key {d} {s} h =
      let (c, ran, holds) = erase-Holds byte_string hash_fn d.cache s.shards h.shards (c_str key) in
      (
        c,
        ran,
        with_cache-Refines h (erase-SameCaps byte_string hash_fn d.cache c (c_str key) ran) holds,
      )

  pub put-put_spec :
      (bits : List Bool) (now : ℕ) (key value : Bytes)
      → length key < 256
      → length value < 2 ^ 32 - 1
      → {d : Db F} {s : Spec F} → Refines capacity d s
      → Agrees capacity
          (Db.put os crc hash_fn tables options bits now key value d >>= no_value)
          (put_spec crc hash_fn spec options capacity key value s)
  unfolding Db.put
  put-put_spec bits now key value short fits {d} {s} h =
      let (w, ran, holds, valid, empty) =
        log_kv_runs os all crc key value d short fits (flushed-IsValid d h) in
      let (there, t, asked, done, after) = put_table h.table bits key value in
      let h1 = after_write-Refines key (c_str value) w t h holds empty after in
      elim (Bool-cases (is_empty key || is_empty value)) [
        | inl e ↦ rw e (record d { wal = w; mem_table = t }, rw ran (rw asked (rw done refl)), h1)
        | inr e ↦
            let (c, kept, h2) = cached-Refines now key value h1 in
            let over = ltb options.mem_table_max_size (
              usage crc hash_fn spec options capacity
                (after_write crc hash_fn spec options capacity key (c_str value) s)) in
            let run : Db.put os crc hash_fn tables options bits now key value d ≡ (
                new_generation os crc hash_fn tables options over
                  (record d { wal = w; mem_table = t; cache = c })
                >>= with_status Status.success) =
              rw ran (rw asked (rw done (rw e (rw kept (rw (usage_same h1) refl))))) in
            Agrees-along capacity (ap (λ x. x >>= no_value) run) (rw e refl)
              (answered capacity Status.success _ _ (new_generation-turned over h2))
      ]

  pub delete-delete_spec :
      (bits : List Bool) (key : Bytes)
      → length key < 256
      → {d : Db F} {s : Spec F} → Refines capacity d s
      → Agrees capacity
          (Db.delete os crc hash_fn tables options bits key d >>= no_value)
          (delete_spec crc hash_fn spec options capacity key s)
  unfolding Db.delete
  delete-delete_spec bits [] short {d} {s} h = (d, refl, h)
  delete-delete_spec bits (b ∷ rest) short {d} {s} h =
      let key : Bytes = b ∷ rest in
      let (w, ran, holds, valid, empty) =
        log_kv_runs os all crc key [] d short (omega arith) (flushed-IsValid d h) in
      let (there, t, asked, done, after) = delete_table h.table bits key in
      let h1 = after_write-Refines key [] w t h holds empty after in
      let (c, gone, h2) = erased-Refines key h1 in
      let over = leb options.mem_table_max_size (
        usage crc hash_fn spec options capacity
          (after_write crc hash_fn spec options capacity key [] s)) in
      let run : Db.delete os crc hash_fn tables options bits key d ≡ (
          new_generation os crc hash_fn tables options over
            (record d { wal = w; mem_table = t; cache = c })
          >>= with_status Status.success) =
        rw ran (rw asked (rw done (rw gone (rw (usage_same h1) refl)))) in
      Agrees-along capacity (ap (λ x. x >>= no_value) run) refl
        (answered capacity Status.success _ _ (new_generation-turned over h2))
