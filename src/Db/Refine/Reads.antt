-- ===== src/Db/Refine/Reads.antt =====
-- `Get` of src/db/db_impl.cpp does what the list-based view says.
use tiny_db.Prelude.{
  ℕ, ◌≡◌, refl, ap, ◌∙◌, Option, none, some, is_some, [], ◌∷◌, ◌++◌, Bytes, ◌>>=◌, Option-cases,
  inl, inr,
}
use tiny_db.Order.ByteString.{byte_string}
use tiny_db.Status.{Status}
use tiny_db.File.{System, WritesAll}
use tiny_db.Wal.{Checksum}
use tiny_db.MemTable.{c_str}
use tiny_db.MemTable.Laws.{lookup, contains-lookup_lem, get-lookup_lem}
use tiny_db.Cache
use tiny_db.Cache.{Cache, sharding_index}
use tiny_db.Cache.Shards.{get-Holds, contains-Holds}
use tiny_db.Cache.Capacity.{get-SameCaps}
use tiny_db.Db
use tiny_db.Db.{
  Options, Tables, Db, is_empty, as_size, build_sst_path, new_generation, mem_table_to_sst,
  get_stored,
}
use tiny_db.Db.Calls.{regroup}
use tiny_db.Db.Spec.{TablesSpec, Spec, get_spec, get_cached, get_tabled, get_filed}
use tiny_db.Db.Refine.{IsFaithful, Refines, Agrees, c_str_again, Agrees-along, with_cache-Refines}
use tiny_db.Db.Refine.Writes.{cached-Refines}

module _ {F : Type 0} (os : System) (all : WritesAll os) (crc : Checksum) (hash_fn : Bytes → ℕ)
    (tables : Tables F) (spec : TablesSpec F) (faithful : IsFaithful tables spec)
    (options : Options) (capacity : ℕ) where
  abbrev from_files : ℕ → Bytes → Bytes → Db F → Option Bytes → Option (Db F × Status × Bytes)
  from_files now key ret d none = some (d, Status.not_found, ret)
  from_files now key ret d (some v) =
      Cache.insert byte_string hash_fn now (c_str key) v d.cache >>= λ c.
      some (record d { cache = c }, Status.success, ret ++ v)

  as_written :
      (now : ℕ) (key ret : Bytes) (d : Db F) (x : Option (Option Bytes))
      → (x >>= λ found. elim found [
        | none ↦ some (d, Status.not_found, ret)
        | some v ↦ Cache.insert byte_string hash_fn now (c_str key) v d.cache >>= λ c.
            some (record d { cache = c }, Status.success, ret ++ v)
      ])
        ≡ (x >>= from_files now key ret d)
  as_written now key ret d none = refl
  as_written now key ret d (some none) = refl
  as_written now key ret d (some (some v)) = refl

  -- `Get` of a key that only the files may have.
  filed :
      (now : ℕ) (key ret : Bytes) {d : Db F} {s : Spec F}
      → Refines capacity d s
      → (x y : Option (Option Bytes)) → x ≡ y
      → Agrees capacity
          ((x >>= from_files now key ret d) >>= regroup)
          (y >>= get_filed crc hash_fn spec options capacity key ret s)
  filed now key ret {d} {s} h x none e = rw e refl
  filed now key ret {d} {s} h x (some none) e = (d, rw e refl, h)
  filed now key ret {d} {s} h x (some (some v)) e =
      let (c, kept, h') =
        cached-Refines os all crc hash_fn tables spec faithful options capacity now (c_str key) v
          h in
      (record d { cache = c }, rw e (rw kept refl), h')

  pub get_stored-get_tabled :
      (now : ℕ) (key ret : Bytes)
      → {d : Db F} {s : Spec F} → Refines capacity d s
      → Agrees capacity
          (get_stored os crc hash_fn tables options now key ret d >>= regroup)
          (get_tabled crc hash_fn spec options capacity key ret s (lookup (c_str key) s.table))
  unfolding get_stored
  get_stored-get_tabled now key ret {d} {s} h =
      let there = contains-lookup_lem h.table key in
      elim (Option-cases (lookup (c_str key) s.table)) [
        | inr (v, e) ↦
            let read =
              get-lookup_lem h.table (c_str key)
              ∙ ap (λ k. some (lookup k s.table)) (c_str_again key) in
            let run : get_stored os crc hash_fn tables options now key ret d
                ≡ some (d, Status.success, v) =
              rw (there ∙ ap (λ x. some (is_some x)) e) (rw (read ∙ ap some e) refl) in
            Agrees-along capacity (ap (λ x. x >>= regroup) run)
              (ap (get_tabled crc hash_fn spec options capacity key ret s) e) (d, refl, h)
        | inl e ↦
            let path = options.storage_dir ++ build_sst_path 0 0 in
            let run : get_stored os crc hash_fn tables options now key ret d
                ≡ (tables.seek d.files path key >>= from_files now key ret d) =
              rw (there ∙ ap (λ x. some (is_some x)) e)
                (as_written now key ret d (tables.seek d.files path key)) in
            Agrees-along capacity (ap (λ x. x >>= regroup) run)
              (ap (get_tabled crc hash_fn spec options capacity key ret s) e)
              (filed now key ret h (tables.seek d.files path key) (spec.seek s.files path key)
                (faithful.seek_same d.files path key ∙ ap (λ f. spec.seek f path key) h.stored))
      ]

  pub get-get_spec :
      (now : ℕ) (key ret : Bytes)
      → {d : Db F} {s : Spec F} → Refines capacity d s
      → Agrees capacity
          (Db.get os crc hash_fn tables options now key ret d >>= regroup)
          (get_spec crc hash_fn spec options capacity key ret s)
  unfolding Db.get get_stored
  get-get_spec now [] ret {d} {s} h = (d, refl, h)
  get-get_spec now (b ∷ rest) ret {d} {s} h =
      let full : Bytes = b ∷ rest in
      let key = c_str full in
      let shard = sharding_index hash_fn key in
      let in_cache = contains-Holds byte_string hash_fn d.cache s.shards h.shards key in
      elim (Option-cases (lookup key (s.shards shard))) [
        | inr (v, e) ↦
            let (c, got, ran, at, holds) =
              get-Holds byte_string hash_fn d.cache s.shards h.shards key in
            Agrees-along capacity (rw (in_cache ∙ ap is_some e) (rw ran (rw (at ∙ e) refl)))
              (ap (get_cached crc hash_fn spec options capacity full ret s) e)
              (
                record d { cache = c },
                refl,
                with_cache-Refines h (get-SameCaps byte_string hash_fn d.cache c key got ran) holds,
              )
        | inl e ↦
            Agrees-along capacity (rw (in_cache ∙ ap is_some e) refl)
              (ap (get_cached crc hash_fn spec options capacity full ret s) e)
              (get_stored-get_tabled now full ret h)
      ]
