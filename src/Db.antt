-- ===== src/Db.antt =====
-- The database of src/db/db_impl.{h,cpp}, to which src/db/db.cpp passes every call on, with the paths
-- of src/utils/codec.h and the options of src/db/options.h.
pub mod Logged
pub mod Reads
pub mod Removes
pub mod Files
pub mod Calls
pub mod Spec
pub mod Refine
pub mod Recovery
pub mod Workload
pub mod Threads
pub mod Tests
use tiny_db.Prelude.{
  ℕ, zero, suc, ◌-◌, ◌/◌, ◌%◌, ◌+◌, ◌*◌, ◌^◌, ◌≡◌, Bool, true, false, ◌||◌, Option, none, some,
  List, [], ◌∷◌, ◌++◌, Bytes, length, ltb, leb, ◌==◌, ◌>>=◌, if◌then◌else◌,
}
use tiny_db.Prelude.Int.{ℤ, pos, negsuc}
use tiny_db.Codec.{encode_fixed32}
use tiny_db.Order.ByteString.{byte_string}
use tiny_db.Status.{Status}
use tiny_db.File.{System, Writer, open_writer}
use tiny_db.Wal.{Checksum, add_log}
use tiny_db.MemTable
use tiny_db.MemTable.{Table, new_table, c_str}
use tiny_db.Lru
use tiny_db.Cache
use tiny_db.Cache.{Cache, new_cache, register_clean_handle, sharding_index}
use tiny_db.Lru.Refine.{value_at}

-- `std::to_string` of a `uint32_t`, which has at most 10 digits.
unfoldable pub decimal : ℕ → ℕ → Bytes
decimal zero n = []
decimal (suc f) n =
    let front = decimal f (n / 10) in
    if ltb n 10 then (48 + n) ∷ [] else front ++ ((48 + n % 10) ∷ [])

-- "level_n_sst_i.sst"
unfoldable pub build_sst_path : ℕ → ℕ → Bytes
unfolding decimal
build_sst_path n i =
    (108 ∷ 101 ∷ 118 ∷ 101 ∷ 108 ∷ 95 ∷ [])
    ++ decimal 10 n
    ++ (95 ∷ 115 ∷ 115 ∷ 116 ∷ 95 ∷ [])
    ++ decimal 10 i
    ++ (46 ∷ 115 ∷ 115 ∷ 116 ∷ [])

-- The options that the code reads.
pub record Options : Type 0 where
  pub storage_dir : Bytes
  pub mem_table_max_size : ℕ

-- The files of tables. `convert path table files` writes the table to a file, by `ConvertToL1SST`,
-- which the repository declares and does not define; `seek files path key` parses the file and looks
-- the key up, as `SSTParser` does. `none` is a fault.
pub record Tables (F : Type 0) : Type 0 where
  pub convert : Bytes → Table → F → Option F
  pub seek : F → Bytes → Bytes → Option (Option Bytes)

-- `DBImpl`.
pub record Db (F : Type 0) : Type 0 where
  pub mem_table : Table
  pub wal : Writer
  pub cache : Cache Bytes Bytes
  pub l1sst_num : ℕ
  pub files : F

-- The constructor: the log is appended to, `node` fills the heap of the cache and is never read.
abbrev pub new_db : {F : Type 0} → ℕ → ℕ → Bytes → Lru.Node Bytes Bytes → F → Db F
new_db cache_size lisst_num wal_file node files = record {
  mem_table = new_table;
  wal = open_writer wal_file true;
  cache = register_clean_handle (new_cache cache_size node);
  l1sst_num = lisst_num;
  files = files;
}

-- `| key_len | key | val_len | val |`; `none` is the failed assertion.
unfoldable pub encode_kv : Bytes → Bytes → Option Bytes
encode_kv key value =
    if ltb (length value) (2 ^ 32 - 1)
    then some (encode_fixed32 (length key) ++ (key ++ (encode_fixed32 (length value) ++ value)))
    else none

-- The string view made from a `char` array: the bytes in front of the first NUL. `none` is a read
-- past the end of the array.
unfoldable pub string_in : Bytes → Option Bytes
string_in [] = none
string_in (zero ∷ bytes) = some []
string_in (suc b ∷ bytes) = string_in bytes >>= λ s. some (suc b ∷ s)

abbrev pub is_empty : Bytes → Bool
is_empty [] = true
is_empty (b ∷ bytes) = false

-- The `int64_t` of `GetMemUsage`, compared as a `size_t`.
abbrev pub as_size : ℤ → ℕ
as_size (pos n) = n % 2 ^ 64
as_size (negsuc n) = 2 ^ 64 - 1 - n % 2 ^ 64

module _ {F : Type 0} (os : System) (crc : Checksum) where
  -- The record of the log, as `AddLog` gets it.
  unfoldable pub log_kv : Bytes → Bytes → Db F → Option (Db F)
  log_kv key value d = encode_kv key value >>= λ buf.
      string_in buf >>= λ log. add_log os crc d.wal log >>= λ w. some (record d { wal = w.0 })

module _ {F : Type 0} (os : System) (crc : Checksum) (hash_fn : Bytes → ℕ) (tables : Tables F)
    (options : Options) where
  unfoldable pub mem_table_to_sst : Db F → Option (Db F)
  mem_table_to_sst d =
      let path = options.storage_dir ++ (47 ∷ build_sst_path 0 d.l1sst_num) in
      tables.convert path d.mem_table d.files >>= λ files.
      some (record d { files = files; l1sst_num = (d.l1sst_num + 1) % 2 ^ 32 })

  -- The table goes to disk, and a new one is begun.
  unfoldable pub new_generation : Bool → Db F → Option (Db F)
  new_generation over d =
      if over
      then (mem_table_to_sst d >>= λ d'. some (record d' { mem_table = new_table }))
      else some d

  -- `bits` are the draws of `rand()`, `now` is the clock.
  unfoldable pub put : List Bool → ℕ → Bytes → Bytes → Db F → Option (Db F × Status)
  put bits now key value d = log_kv os crc key value d >>= λ d1.
      MemTable.contains key d1.mem_table >>= λ there.
      (if there
        then MemTable.update bits key value d1.mem_table
        else MemTable.add bits key value d1.mem_table)
      >>= λ table.
          let d2 = record d1 { mem_table = table } in
          if is_empty key || is_empty value
          then some (d2, Status.invalid_args)
          else (Cache.insert byte_string hash_fn now key value d2.cache >>= λ cache.
              new_generation
                (ltb options.mem_table_max_size (as_size (MemTable.get_mem_usage table)))
                (record d2 { cache = cache })
              >>= λ d3. some (d3, Status.success))

  unfoldable pub delete : List Bool → Bytes → Db F → Option (Db F × Status)
  delete bits [] d = some (d, Status.invalid_args)
  delete bits (b ∷ rest) d =
      let key : Bytes = b ∷ rest in
      log_kv os crc key [] d >>= λ d1. MemTable.contains key d1.mem_table >>= λ there.
      (if there
        then MemTable.delete bits key d1.mem_table
        else MemTable.add bits key [] d1.mem_table)
      >>= λ table. Cache.erase byte_string hash_fn d1.cache (c_str key) >>= λ cache.
          new_generation (leb options.mem_table_max_size (as_size (MemTable.get_mem_usage table)))
            (record d1 { mem_table = table; cache = cache })
          >>= λ d2. some (d2, Status.success)

  -- "level_0_sst_0.sst" directly behind the directory's name.
  abbrev pub sst_path : Bytes
  sst_path = options.storage_dir ++ build_sst_path 0 0

  -- What is not in the cache.
  unfoldable pub get_stored : ℕ → Bytes → Bytes → Db F → Option (Db F × Status × Bytes)
  get_stored now key ret d = MemTable.contains key d.mem_table >>= λ there.
      if there
      then (MemTable.get (c_str key) d.mem_table >>= λ found.
          found >>= λ v. some (d, Status.success, v))
      else (tables.seek d.files sst_path key >>= λ found. elim found [
        | none ↦ some (d, Status.not_found, ret)
        | some v ↦ Cache.insert byte_string hash_fn now (c_str key) v d.cache >>= λ cache.
            some (record d { cache = cache }, Status.success, ret ++ v)
      ])

  -- `Get`: the database, the status, and `*ret_value_ptr`, which was `ret`.
  unfoldable pub get : ℕ → Bytes → Bytes → Db F → Option (Db F × Status × Bytes)
  get now [] ret d = some (d, Status.invalid_args, ret)
  get now (b ∷ rest) ret d =
      let key : Bytes = b ∷ rest in
      let other = get_stored now key ret d in
      if Cache.contains byte_string hash_fn d.cache (c_str key)
      then (Cache.get byte_string hash_fn d.cache (c_str key) >>= λ got.
          value_at (got.0 (sharding_index hash_fn (c_str key))) got.1 >>= λ v.
          some (record d { cache = got.0 }, Status.success, v))
      else other

  abbrev pub batch_put : Status
  batch_put = Status.not_impl

  abbrev pub batch_delete : Status
  batch_delete = Status.not_impl

  abbrev pub close : Db F → Db F × Status
  close d = (d, Status.success)
