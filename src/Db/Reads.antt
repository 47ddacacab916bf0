-- ===== src/Db/Reads.antt =====
-- What a read finds after `Put` of src/db/db_impl.cpp.
use tiny_db.Prelude.{
  ℕ, zero, suc, ◌+◌, ◌-◌, ◌%◌, ◌^◌, ◌≤◌, ◌<◌, ◌≡◌, refl, ap, ◌∙◌, Bool, true, false, Option, none,
  some, is_some, List, [], ◌∷◌, ◌++◌, Bytes, length, ltb, ◌==◌, ==_iff, if◌then◌else◌, arith,
  Option-cases, inl, inr,
}
use tiny_db.Order.ByteString.{byte_string}
use tiny_db.Status.{Status}
use tiny_db.File.{System, WritesAll}
use tiny_db.File.Writing.{IsValid}
use tiny_db.Wal.{Checksum}
use tiny_db.MemTable
use tiny_db.MemTable.{Table, c_str, new_table}
use tiny_db.MemTable.Laws
use tiny_db.MemTable.Laws.{lookup, Writes, contains-lookup_lem, update-Writes, add_new-Writes}
use tiny_db.Cache
use tiny_db.Cache.{Cache, sharding_index}
use tiny_db.Cache.Shards
use tiny_db.Cache.Shards.{shard, in_shard, insert-Holds, get-Holds, contains-Holds}
use tiny_db.Lru.Refine.{admit, value_at}
use tiny_db.Db.{
  Options, Tables, Db, is_empty, as_size, build_sst_path, mem_table_to_sst, new_generation, put,
  get,
}
use tiny_db.Db.Logged.{log_kv_lem}

-- The new entry or the new value, whichever is wanted.
pub put_table :
    {t : Table} {m : List (Bytes × Bytes)} (h : MemTable.Laws.Holds t m) (bits : List Bool)
    (key value : Bytes)
    → (there : Bool) × (t' : Table) × (MemTable.contains key t ≡ some there)
      × ((if there then MemTable.update bits key value t else MemTable.add bits key value t)
          ≡ some t')
      × Writes (c_str key) (c_str value) m t'
put_table {t} {m} h bits key value = elim (Option-cases (lookup (c_str key) m)) [
  | inl e ↦
      let (t', run, w) = add_new-Writes h bits key value e in
      (false, t', contains-lookup_lem h key ∙ ap (λ x. some (is_some x)) e, run, w)
  | inr (old, e) ↦
      let (t', run, w) = update-Writes h bits key value in
      (true, t', contains-lookup_lem h key ∙ ap (λ x. some (is_some x)) e, run, w)
]

-- The value that was there, or else the given one.
abbrev pub kept_or : Bytes → Option Bytes → Bytes
kept_or value none = value
kept_or value (some old) = old

-- What the cache answers after an insertion.
lookup-admit :
    (room : ℕ) (key value : Bytes) (m : List (Bytes × Bytes))
    → 1 ≤ room
    → lookup key (admit byte_string room key value m) ≡ some (kept_or value (lookup key m))
lookup-admit zero key value m h = absurd (omega arith)
lookup-admit (suc room) key value m h =
    let same : byte_string.same key key ≡ true = (byte_string.same_iff key key).1 refl in
    elim (Option-cases (lookup key m)) [
      | inl e ↦ rw (e, admit, same)
      | inr (old, e) ↦ rw (e, admit, same)
    ]

pub not_empty : (key : Bytes) → 0 < length key → is_empty key ≡ false
not_empty [] h = absurd (omega arith)
not_empty (b ∷ key) h = refl

module _ {F : Type 0} (os : System) (all : WritesAll os) (crc : Checksum) (hash_fn : Bytes → ℕ)
    (tables : Tables F) (options : Options) where
  pub new_generation_lem :
      (converts : (path : Bytes) (t : Table) (f : F)
        → (f' : F) × (tables.convert path t f ≡ some f'))
      (over : Bool) (d : Db F)
      → (d' : Db F) × (new_generation os crc hash_fn tables options over d ≡ some d')
        × (d'.cache ≡ d.cache)
  unfolding new_generation mem_table_to_sst
  new_generation_lem converts false d = (d, refl, refl)
  new_generation_lem converts true d =
      let (files, run) =
        converts (options.storage_dir ++ (47 ∷ build_sst_path 0 d.l1sst_num)) d.mem_table d.files in
      (
        record d { mem_table = new_table; files = files; l1sst_num = (d.l1sst_num + 1) % 2 ^ 32 },
        rw run,
        refl,
      )

  -- A read that the cache answers.
  get_cached :
      (d : Db F) (now : ℕ) (key ret v : Bytes) (c : Cache Bytes Bytes) (got : Option ℕ)
      → 0 < length key
      → Cache.contains byte_string hash_fn d.cache (c_str key) ≡ true
      → Cache.get byte_string hash_fn d.cache (c_str key) ≡ some (c, got)
      → value_at (c (sharding_index hash_fn (c_str key))) got ≡ some v
      → get os crc hash_fn tables options now key ret d
        ≡ some (record d { cache = c }, Status.success, v)
  unfolding get
  get_cached d now [] ret v c got h there run value = absurd (omega arith)
  get_cached d now (b ∷ rest) ret v c got h there run value = rw there (rw run (rw value))

  module _ (d : Db F) (ms : ℕ → List (Bytes × Bytes)) (hc : Cache.Shards.Holds d.cache ms)
      (key value : Bytes) where
    -- The cache holds the key, with the old value if there was one.
    cached :
        (now : ℕ)
        → 1 ≤ (d.cache (sharding_index hash_fn key)).cap
        → (c c' : Cache Bytes Bytes) × (got : Option ℕ) × (Cache.insert byte_string hash_fn now key
              value d.cache
            ≡ some c)
          × (Cache.contains byte_string hash_fn c key ≡ true)
          × (Cache.get byte_string hash_fn c key ≡ some (c', got))
          × (value_at (c' (sharding_index hash_fn key)) got
              ≡ some (kept_or value (lookup key (ms (sharding_index hash_fn key)))))
    cached now room =
        let s = sharding_index hash_fn key in
        let (c, run, h) = insert-Holds byte_string hash_fn d.cache ms hc key now value in
        let after = in_shard s (admit byte_string (d.cache s).cap key value) ms in
        let self : (s == s) ≡ true = (==_iff s s).1 refl in
        let found : lookup key (after s) ≡ some (kept_or value (lookup key (ms s))) =
          rw self (lookup-admit (d.cache s).cap key value (ms s) room) in
        let (c', got, run', at, h') = get-Holds byte_string hash_fn c after h key in
        (
          c,
          c',
          got,
          run,
          contains-Holds byte_string hash_fn c after h key ∙ ap is_some found,
          run',
          at ∙ found,
        )

    -- On a system whose writes take all bytes, where a table can always be converted, and on a database
    -- whose log buffer is not over-full, whose memtable and cache are well formed, and the shard of the
    -- key has room for an entry: `Put` of a key of 1 to 255 bytes with no NUL, and of a value that is
    -- not empty and has fewer than 2 ^ 32 - 1 bytes, succeeds, and `Get` of the key then returns the
    -- value, unless the cache had one for the key: then it returns that old one.
    pub get-put :
        (converts : (path : Bytes) (t : Table) (f : F)
          → (f' : F) × (tables.convert path t f ≡ some f'))
        {m : List (Bytes × Bytes)}
        → MemTable.Laws.Holds d.mem_table m
        → IsValid d.wal
        → c_str key ≡ key
        → 0 < length key
        → length key < 256
        → 0 < length value
        → length value < 2 ^ 32 - 1
        → 1 ≤ (d.cache (sharding_index hash_fn key)).cap
        → (bits : List Bool) (now now' : ℕ) (ret : Bytes)
        → (d1 d2 : Db F) × (put os crc hash_fn tables options bits now key value d
            ≡ some (d1, Status.success))
          × (get os crc hash_fn tables options now' key ret d1
              ≡ some (
                d2,
                Status.success,
                kept_or value (lookup key (ms (sharding_index hash_fn key))),
              ))
    unfolding put
    get-put converts ht v plain some_key short some_value fits room bits now now' ret =
        let (w, logged, holds) = log_kv_lem os all crc key value d some_key short fits v in
        let (there_before, t, asked, written, after) = put_table ht bits key value in
        let (c, c', got, stored, there, read_back, value_back) = cached now room in
        let over = ltb options.mem_table_max_size (as_size (MemTable.get_mem_usage t)) in
        let (d1, turned, same) =
          new_generation_lem converts over (record d { wal = w; mem_table = t; cache = c }) in
        (
          d1,
          record d1 { cache = c' },
          rw logged (
              rw asked (
                rw written (
                  rw (not_empty key some_key, not_empty value some_value)
                    (rw stored (rw turned))))),
          get_cached d1 now' key ret _ c' got some_key (rw (plain, same) there)
              (rw (plain, same) read_back) (rw plain value_back),
        )
