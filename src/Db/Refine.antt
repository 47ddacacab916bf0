-- ===== src/Db/Refine.antt =====
-- The database of src/db/db_impl.cpp and its list-based view: when they match.
pub mod Writes
pub mod Reads
pub mod Run
use tiny_db.Prelude.{
  ℕ, zero, suc, ◌+◌, ◌-◌, ◌%◌, ◌^◌, ◌<◌, ◌≤◌, ◌≡◌, refl, sym, ap, ◌∙◌, subst, Bool, true, false,
  ◌||◌, Option, none, some, is_some, List, [], ◌∷◌, ◌++◌, Bytes, length, All, ltb, leb, ◌>>=◌,
  if◌then◌else◌, arith, Option-cases, Bool-cases, inl, inr, ◌==◌, length-append, append-nil,
}
use tiny_db.Order.ByteString.{byte_string}
use tiny_db.Assoc
use tiny_db.SkipList.{weight}
use tiny_db.Status.{Status}
use tiny_db.File.{System, WritesAll, Writer}
use tiny_db.File.Writing.{contents, IsValid}
use tiny_db.Wal.{Checksum}
use tiny_db.Wal.Records.{log_record}
use tiny_db.MemTable
use tiny_db.MemTable.{Table, c_str, new_table, sizes}
use tiny_db.MemTable.Laws
use tiny_db.MemTable.Laws.{
  lookup, contains-lookup_lem, get-lookup_lem, mem_usage-weight, new_table-Holds,
}
use tiny_db.Cache
use tiny_db.Cache.{Cache, sharding_index}
use tiny_db.Cache.Shards
use tiny_db.Cache.Shards.{in_shard, insert-Holds, erase-Holds, get-Holds, contains-Holds}
use tiny_db.Cache.Capacity.{SameCaps, insert-SameCaps, erase-SameCaps, get-SameCaps}
use tiny_db.Lru.Refine.{admit, value_at}
use tiny_db.Db
use tiny_db.Db.{
  Options, Tables, Db, is_empty, as_size, build_sst_path, new_generation, mem_table_to_sst,
  get_stored,
}
use tiny_db.Db.Logged.{logged, log_kv_runs}
use tiny_db.Db.Reads.{put_table}
use tiny_db.Db.Removes.{delete_table}
use tiny_db.Db.Calls.{regroup, DbCall, Reply, answer, answer_all}
use tiny_db.Db.Spec.{
  Entries, TablesSpec, Spec, written, after_write, cached, erased, turned, usage, put_spec,
  delete_spec, get_spec, get_cached, get_tabled, get_filed, answer_spec, answer_all_spec,
}

-- What a table is converted to depends on its entries alone.
pub record IsFaithful {F : Type 0} (tables : Tables F) (spec : TablesSpec F) : Type 0 where
  pub convert_same :
      {t : Table} {m : Entries}
      → MemTable.Laws.Holds t m
      → (path : Bytes) (f : F) → tables.convert path t f ≡ spec.convert path m f
  pub seek_same : (f : F) (path key : Bytes) → tables.seek f path key ≡ spec.seek f path key

-- The database `d` as a client sees it. All that was logged is in the file.
pub record Refines {F : Type 0} (capacity : ℕ) (d : Db F) (s : Spec F) : Type 0 where
  pub logs : d.wal.file ≡ s.log
  pub flushed : d.wal.buffer ≡ []
  pub table : MemTable.Laws.Holds d.mem_table s.table
  pub shards : Cache.Shards.Holds d.cache s.shards
  pub caps : (i : ℕ) → (d.cache i).cap ≡ capacity
  pub numbered : d.l1sst_num ≡ s.l1sst_num
  pub stored : d.files ≡ s.files

-- The two fault alike, and else they answer alike and match again.
abbrev pub Agrees : {F A : Type 0} → ℕ → Option (Db F × A) → Option (Spec F × A) → Type 0
Agrees capacity x none = x ≡ none
Agrees {F} capacity x (some (s, r)) = (d : Db F) × (x ≡ some (d, r)) × Refines capacity d s

-- A string of the right length that the log and the record of a call can hold.
abbrev pub Fits : DbCall → Type 0
Fits (DbCall.put_call bits now key value) = (length key < 256) × (length value < 2 ^ 32 - 1)
Fits (DbCall.delete_call bits key) = length key < 256
Fits (DbCall.get_call now key ret) = Unit
Fits DbCall.batch_put_call = Unit
Fits DbCall.batch_delete_call = Unit
Fits DbCall.close_call = Unit

unfoldable pub Turns : {F : Type 0} → ℕ → Option (Db F) → Option (Spec F) → Type 0
Turns capacity x none = x ≡ none
Turns {F} capacity x (some s) = (d : Db F) × (x ≡ some d) × Refines capacity d s

pub c_str_again : (key : Bytes) → c_str (c_str key) ≡ c_str key
c_str_again [] = refl
c_str_again (b ∷ key) = ground (arith, c_str_again key)

abbrev pub with_status : {F : Type 0} → Status → Db F → Option (Db F × Status)
with_status st d = some (d, st)

abbrev pub no_value : {F : Type 0} → Db F × Status → Option (Db F × Reply)
no_value r = some (r.0, (r.1, []))

abbrev pub stated : {F : Type 0} → Status → Spec F → Option (Spec F × Reply)
stated st s = some (s, (st, []))

pub answered :
    {F : Type 0} (capacity : ℕ) (st : Status) (x : Option (Db F)) (y : Option (Spec F))
    → Turns capacity x y
    → Agrees capacity ((x >>= with_status st) >>= no_value) (y >>= stated st)
unfolding Turns
answered capacity st x none e = rw e refl
answered capacity st x (some s) (d, e, h) = (d, rw e refl, h)

pub Agrees-along :
    {F A : Type 0} (capacity : ℕ) {x x' : Option (Db F × A)} {y y' : Option (Spec F × A)}
    → x ≡ x'
    → y ≡ y'
    → Agrees capacity x' y'
    → Agrees capacity x y
Agrees-along capacity {x} {x'} {y} {y'} p q a =
    subst (λ z. Agrees capacity z y) (sym p) (subst (Agrees capacity x') (sym q) a)

-- What follows a reply, on the two sides.
pub Agrees-bind :
    {F A B : Type 0} (capacity : ℕ) (x : Option (Db F × A)) (y : Option (Spec F × A))
    (f : Db F × A → Option (Db F × B)) (g : Spec F × A → Option (Spec F × B))
    → Agrees capacity x y
    → ((d : Db F) (s : Spec F) (a : A)
        → Refines capacity d s
        → Agrees capacity (f (d, a)) (g (s, a)))
    → Agrees capacity (x >>= f) (y >>= g)
Agrees-bind capacity x none f g e next = rw e refl
Agrees-bind capacity x (some (s, a)) f g (d, e, h) next =
    Agrees-along capacity (ap (λ z. z >>= f) e) refl (next d s a h)

-- Another cache.
pub with_cache-Refines :
    {F : Type 0} {capacity : ℕ} {d : Db F} {s : Spec F} {c : Cache Bytes Bytes} {ms : ℕ → Entries}
    → Refines capacity d s
    → SameCaps d.cache c
    → Cache.Shards.Holds c ms
    → Refines capacity (record d { cache = c }) (record s { shards = ms })
with_cache-Refines h same holds = record {
  logs = h.logs;
  flushed = h.flushed;
  table = h.table;
  shards = holds;
  caps = λ i. same i ∙ h.caps i;
  numbered = h.numbered;
  stored = h.stored;
}
