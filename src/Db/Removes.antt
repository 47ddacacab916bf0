-- ===== src/Db/Removes.antt =====
-- What a read finds after `Delete`, and for a key that is nowhere: src/db/db_impl.cpp.
use tiny_db.Prelude.{
  ℕ, ◌+◌, ◌%◌, ◌^◌, ◌<◌, ◌≡◌, refl, ap, ◌∙◌, Bool, true, false, ◌⊎◌, some, is_some, List, [], ◌∷◌,
  ◌++◌, Bytes, length, leb, if◌then◌else◌, arith, Option-cases, inl, inr,
}
use tiny_db.Order.ByteString.{bytes_same, eq→same}
use tiny_db.Order.ByteString.{byte_string}
use tiny_db.Status.{Status}
use tiny_db.File.{System, WritesAll}
use tiny_db.File.Writing.{IsValid}
use tiny_db.Wal.{Checksum}
use tiny_db.MemTable
use tiny_db.MemTable.{Table, c_str, new_table}
use tiny_db.MemTable.Laws
use tiny_db.MemTable.Laws.{
  lookup, Writes, contains-lookup_lem, get-lookup_lem, delete-Writes, add_new-Writes,
}
use tiny_db.Cache
use tiny_db.Cache.Shards
use tiny_db.Cache.Shards.{erase_gone}
use tiny_db.Db
use tiny_db.Db.{
  Options, Tables, Db, as_size, new_generation, mem_table_to_sst, build_sst_path, get, get_stored,
}
use tiny_db.Db.Logged.{log_kv_runs}

if_true {ℓ} : {A : Type ℓ} (b : Bool) (x y : A) → b ≡ true → (if b then x else y) ≡ x
if_true true x y e = refl
if_true false x y e = absurd (cc e)

-- The mark of a deleted key, whether there was an entry or not.
pub delete_table :
    {t : Table} {m : List (Bytes × Bytes)} (h : MemTable.Laws.Holds t m) (bits : List Bool)
    (key : Bytes)
    → (there : Bool) × (t' : Table) × (MemTable.contains key t ≡ some there)
      × ((if there then MemTable.delete bits key t else MemTable.add bits key [] t) ≡ some t')
      × Writes (c_str key) [] m t'
delete_table {t} {m} h bits key = elim (Option-cases (lookup (c_str key) m)) [
  | inl e ↦
      let (t', run, w) = add_new-Writes h bits key [] e in
      (false, t', contains-lookup_lem h key ∙ ap (λ x. some (is_some x)) e, run, w)
  | inr (old, e) ↦
      let (t', run, w) = delete-Writes h bits key in
      (true, t', contains-lookup_lem h key ∙ ap (λ x. some (is_some x)) e, run, w)
]

module _ {F : Type 0} (os : System) (crc : Checksum) (hash_fn : Bytes → ℕ) (tables : Tables F)
    (options : Options) where
  -- A read that the memtable answers.
  stored_lem :
      {d : Db F} {m : List (Bytes × Bytes)} (now : ℕ) (key ret v : Bytes)
      → MemTable.Laws.Holds d.mem_table m
      → c_str key ≡ key
      → lookup key m ≡ some v
      → get_stored os crc hash_fn tables options now key ret d ≡ some (d, Status.success, v)
  unfolding get_stored
  stored_lem {d} {m} now key ret v ht plain there =
      let asked : MemTable.contains key d.mem_table ≡ some true =
        contains-lookup_lem ht key
        ∙ ap (λ k. some (is_some (lookup k m))) plain
        ∙ ap (λ x. some (is_some x)) there in
      let read : MemTable.get (c_str key) d.mem_table ≡ some (some v) =
        get-lookup_lem ht (c_str key)
        ∙ ap (λ k. some (lookup (c_str k) m)) plain
        ∙ ap (λ k. some (lookup k m)) plain
        ∙ ap some there in
      rw asked (rw read refl)

  pub uncached_lem :
      (d : Db F) (now : ℕ) (key ret : Bytes)
      → 0 < length key
      → Cache.contains byte_string hash_fn d.cache (c_str key) ≡ false
      → get os crc hash_fn tables options now key ret d
        ≡ get_stored os crc hash_fn tables options now key ret d
  unfolding get
  uncached_lem d now [] ret some_key gone = absurd (omega arith)
  uncached_lem d now (b ∷ rest) ret some_key gone = rw gone refl

  turned_lem :
      (converts : (path : Bytes) (t : Table) (f : F)
        → (f' : F) × (tables.convert path t f ≡ some f'))
      (over : Bool) (d : Db F)
      → (d' : Db F) × (new_generation os crc hash_fn tables options over d ≡ some d')
        × ((d'.mem_table ≡ new_table) ⊎ (d' ≡ d))
  unfolding new_generation mem_table_to_sst
  turned_lem converts false d = (d, refl, inr refl)
  turned_lem converts true d =
      let (files, run) =
        converts (options.storage_dir ++ (47 ∷ build_sst_path 0 d.l1sst_num)) d.mem_table d.files in
      (
        record d { mem_table = new_table; files = files; l1sst_num = (d.l1sst_num + 1) % 2 ^ 32 },
        rw run,
        inl refl,
      )

module _ {F : Type 0} (os : System) (all : WritesAll os) (crc : Checksum) (hash_fn : Bytes → ℕ)
    (tables : Tables F) (options : Options) where
  -- On a system whose writes take all bytes, where a table can always be converted, and on a database
  -- whose log buffer is not over-full, and whose memtable and cache are well formed: `Delete` of a key of
  -- 1 to 255 bytes with no NUL succeeds, whether the key was stored or not. Afterwards the memtable was
  -- turned over and is new, or `Get` of the key does not answer that it is not found: it succeeds, with
  -- the empty value.
  pub get-delete :
      (converts : (path : Bytes) (t : Table) (f : F)
        → (f' : F) × (tables.convert path t f ≡ some f'))
      (d : Db F) (ms : ℕ → List (Bytes × Bytes))
      → Cache.Shards.Holds d.cache ms
      → {m : List (Bytes × Bytes)} → MemTable.Laws.Holds d.mem_table m
      → IsValid d.wal
      → (key : Bytes) → c_str key ≡ key
      → 0 < length key
      → length key < 256
      → (bits : List Bool) (now : ℕ) (ret : Bytes)
      → (d' : Db F) × (Db.delete os crc hash_fn tables options bits key d
          ≡ some (d', Status.success))
        × ((d'.mem_table ≡ new_table)
            ⊎ (get os crc hash_fn tables options now key ret d' ≡ some (d', Status.success, [])))
  unfolding Db.delete
  get-delete converts d ms hc {m} ht v [] plain some_key short bits now ret = absurd (omega arith)
  get-delete converts d ms hc {m} ht v (b ∷ rest) plain some_key short bits now ret =
      let key : Bytes = b ∷ rest in
      let (w, logged, holds, valid, empty) =
        log_kv_runs os all crc key [] d short (omega arith) v in
      let (there, t, asked, written, after) = delete_table ht bits key in
      let (c, erased, gone) = erase_gone byte_string hash_fn d.cache ms hc (c_str key) in
      let over = leb options.mem_table_max_size (as_size (MemTable.get_mem_usage t)) in
      let (d', turned, outcome) =
        turned_lem os crc hash_fn tables options converts over
          (record d { wal = w; mem_table = t; cache = c }) in
      let marked : lookup key after.entries_after ≡ some [] =
        after.reads key
        ∙ if_true (bytes_same (c_str key) key) (some []) (lookup key m)
            (eq→same (c_str key) key plain) in
      (
        d',
        rw logged (rw asked (rw written (rw erased (rw turned refl)))),
        elim outcome [
          | inl new ↦ inl new
          | inr same ↦ inr (
              rw same (
                uncached_lem os crc hash_fn tables options
                  (record d { wal = w; mem_table = t; cache = c }) now key ret some_key gone
                ∙ stored_lem os crc hash_fn tables options now key ret [] after.holds plain marked))
        ],
      )
