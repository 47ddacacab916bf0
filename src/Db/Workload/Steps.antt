-- ===== src/Db/Workload/Steps.antt =====
-- One write of a new key, and one read of a stored one, in the view of a client of src/db/db.h.
use tiny_db.Prelude.{
  ℕ, zero, suc, ◌+◌, ◌%◌, ◌^◌, ◌<◌, ◌≤◌, ◌≡◌, ◌≢◌, refl, sym, ap, ◌∙◌, false, none, some, List, [],
  ◌∷◌, ◌++◌, Bytes, length, take, ltb, if◌then◌else◌, arith, Option-cases, Bool-cases, inl, inr,
  ◌==◌, ==_iff,
}
use tiny_db.Order.ByteString.{byte_string, bytes_same}
use tiny_db.Assoc.{lookup-insert, remove-absent, lookup-remove_other}
use tiny_db.SkipList.{weight}
use tiny_db.SkipList.Refine.{weight-insert}
use tiny_db.Status.{Status}
use tiny_db.Wal.{Checksum}
use tiny_db.Wal.Records.{log_record}
use tiny_db.Db.Logged.{logged}
use tiny_db.MemTable.{c_str, sizes}
use tiny_db.MemTable.Laws.{lookup}
use tiny_db.Cache.{sharding_index}
use tiny_db.Cache.Shards.{in_shard}
use tiny_db.Lru.Refine.{admit, touch}
use tiny_db.Db.{Options}
use tiny_db.Db.Spec.{TablesSpec, Spec, put_spec, get_spec, get_cached, get_tabled, cached, written}
use tiny_db.Db.Workload.{IsPlain}

some-ne-none : {v : Bytes} → some v ≢ none
some-ne-none e = ground (arith, e)

-- What is read from the front of a list is read from the list.
lookup-take :
    (cap : ℕ) (k v : Bytes) (m : List (Bytes × Bytes))
    → lookup k (take cap m) ≡ some v
    → lookup k m ≡ some v
lookup-take zero k v m h = absurd (ground arith)
lookup-take (suc cap) k v [] h = h
lookup-take (suc cap) k v ((j, w) ∷ m) h = ground (arith, lookup-take cap k v m)

lookup-touch :
    (k q : Bytes) (m : List (Bytes × Bytes)) → lookup q (touch byte_string k m) ≡ lookup q m
lookup-touch k q m = elim (Option-cases (lookup k m)) [
  | inl absent ↦ rw (touch, absent) refl
  | inr (w, there) ↦ elim (Bool-cases (bytes_same k q)) [
    | inl same ↦ rw (touch, there, same) (rw (sym ((byte_string.same_iff k q).0 same)) (sym there))
    | inr other ↦ rw (touch, there, other) (lookup-remove_other byte_string k q m other)
  ]
]

lookup-written :
    (k v q : Bytes) (m : List (Bytes × Bytes))
    → lookup k m ≡ none
    → lookup q (written k v m) ≡ (if bytes_same k q then some v else lookup q m)
lookup-written k v q m absent =
    rw (written, remove-absent byte_string k m absent) (lookup-insert byte_string k q v m absent)

weight-written :
    (k v : Bytes) (m : List (Bytes × Bytes))
    → lookup k m ≡ none
    → weight sizes (written k v m) ≡ weight sizes m + length k + length v
weight-written k v m absent =
    rw (written, remove-absent byte_string k m absent) (weight-insert byte_string sizes k v m)

lookup-admit :
    (cap : ℕ) (k v q w : Bytes) (m : List (Bytes × Bytes))
    → lookup k m ≡ none
    → lookup q (admit byte_string cap k v m) ≡ some w
    → (if bytes_same k q then some v else lookup q m) ≡ some w
lookup-admit cap k v q w m absent h = lookup-take cap q w ((k, v) ∷ m) (rw (admit, absent) at h)

module _ {F : Type 0} (crc : Checksum) (hash_fn : Bytes → ℕ) (tables : TablesSpec F)
    (options : Options) (capacity : ℕ) where
  abbrev pub shard_of : Spec F → Bytes → List (Bytes × Bytes)
  shard_of s k = s.shards (sharding_index hash_fn k)

  -- What the cache has for a key is what the table has.
  abbrev pub IsCoherent : Spec F → Type 0
  IsCoherent s = (k v : Bytes) → lookup k (shard_of s k) ≡ some v → lookup k s.table ≡ some v

  touched : (s : Spec F) (i : ℕ) (k : Bytes) → Spec F
  touched s i k = record s { shards = in_shard i (touch byte_string k) s.shards }

  touched-IsCoherent : (s : Spec F) (i : ℕ) (k : Bytes) → IsCoherent s → IsCoherent (touched s i k)
  unfolding touched
  touched-IsCoherent s i k coherent q w h = elim (Bool-cases (sharding_index hash_fn q == i)) [
    | inl same ↦ coherent q w (sym (lookup-touch k q (shard_of s q)) ∙ (rw (in_shard, same) at h))
    | inr other ↦ coherent q w (rw (in_shard, other) at h)
  ]

  -- A key of the table is read, from the cache or not.
  pub get_stored :
      (s : Spec F) (key v ret : Bytes)
      → IsCoherent s
      → IsPlain key
      → lookup key s.table ≡ some v
      → (s' : Spec F) × (get_spec crc hash_fn tables options capacity key ret s
          ≡ some (s', (Status.success, v)))
        × IsCoherent s'
        × (s'.table ≡ s.table)
  unfolding touched
  get_stored s [] v ret coherent plain there = absurd (ground (arith, plain.filled))
  get_stored s (b ∷ rest) v ret coherent plain there =
      let key : Bytes = b ∷ rest in
      let found = ap (λ k. lookup k (shard_of s k)) plain.whole in
      elim (Option-cases (lookup key (shard_of s key))) [
        | inl absent ↦ (
          s,
          ap (get_cached crc hash_fn tables options capacity key ret s) (found ∙ absent)
              ∙ ap (get_tabled crc hash_fn tables options capacity key ret s)
                  (ap (λ k. lookup k s.table) plain.whole ∙ there),
          coherent,
          refl,
        )
        | inr (w, cached) ↦ (
          touched s (sharding_index hash_fn (c_str key)) (c_str key),
          ap (get_cached crc hash_fn tables options capacity key ret s)
              (found ∙ (cached ∙ (sym (coherent key w cached) ∙ there))),
          touched-IsCoherent s _ _ coherent,
          refl,
        )
      ]

  -- What a write of a new key leaves.
  stored : Spec F → Bytes → Bytes → Spec F
  stored s key value = record s {
    log = s.log ++ log_record crc (logged key);
    table = written key value s.table;
    shards = in_shard (sharding_index hash_fn key) (admit byte_string capacity key value) s.shards;
  }

  fresh_uncached :
      (s : Spec F) (key : Bytes)
      → IsCoherent s
      → lookup key s.table ≡ none
      → lookup key (shard_of s key) ≡ none
  fresh_uncached s key coherent absent = elim (Option-cases (lookup key (shard_of s key))) [
    | inl uncached ↦ uncached
    | inr (v, there) ↦ absurd (some-ne-none (sym (coherent key v there) ∙ absent))
  ]

  stored-IsCoherent :
      (s : Spec F) (key value : Bytes)
      → IsCoherent s
      → lookup key s.table ≡ none
      → IsCoherent (stored s key value)
  unfolding stored
  stored-IsCoherent s key value coherent absent q w h =
      lookup-written key value q s.table absent
      ∙ (elim (Bool-cases (sharding_index hash_fn q == sharding_index hash_fn key)) [
        | inl same ↦
            let nowhere =
              ap (λ i. lookup key (s.shards i)) ((==_iff _ _).0 same)
              ∙ fresh_uncached s key coherent absent in
            let read =
              lookup-admit capacity key value q w (shard_of s q) nowhere
                (rw (in_shard, same) at h) in
            elim (Bool-cases (bytes_same key q)) [
              | inl e ↦ rw e (rw e at read)
              | inr e ↦ rw e (coherent q w (rw e at read))
            ]
        | inr other ↦
            let there = coherent q w (rw (in_shard, other) at h) in
            elim (Bool-cases (bytes_same key q)) [
              | inl e ↦ absurd (
                  some-ne-none (
                    sym (ap (λ k. lookup k s.table) ((byte_string.same_iff key q).0 e) ∙ there)
                    ∙ absent))
              | inr e ↦ rw e there
            ]
      ])

  pub put_fresh :
      (s : Spec F) (key value : Bytes)
      → IsCoherent s
      → IsPlain key
      → IsPlain value
      → lookup key s.table ≡ none
      → weight sizes s.table + length key + length value ≤ options.mem_table_max_size
      → options.mem_table_max_size < 2 ^ 64
      → (s' : Spec F) × (put_spec crc hash_fn tables options capacity key value s
          ≡ some (s', (Status.success, [])))
        × IsCoherent s'
        × ((q : Bytes)
            → lookup q s'.table ≡ (if bytes_same key q then some value else lookup q s.table))
        × (weight sizes s'.table ≡ weight sizes s.table + length key + length value)
  unfolding stored
  put_fresh s key value coherent plain_key plain_value absent small bound =
      let heavy = weight-written key value s.table absent in
      let stays : ltb options.mem_table_max_size (weight sizes (written key value s.table) % 2 ^ 64)
          ≡ false =
        ground (arith, heavy) in
      (
        stored s key value,
        rw
            (
              put_spec, plain_key.whole, plain_value.whole, plain_key.filled, plain_value.filled,
              stays,
            )
            refl,
        stored-IsCoherent s key value coherent absent,
        λ q. lookup-written key value q s.table absent,
        heavy,
      )
