-- ===== src/Db/Threads/Safety.antt =====
-- Threads that call src/db/db_impl.cpp at once do not fault while no file has a value.
use tiny_db.Prelude.{
  ℕ, ◌≡◌, refl, sym, ap, ◌∙◌, subst, true, false, Option, none, some, is_some, [], ◌∷◌, ◌++◌, Bytes,
  ◌==◌, ◌>>=◌, if◌then◌else◌, Bool-cases, Option-cases, inl, inr,
}
use tiny_db.Order.ByteString.{byte_string, bytes_same}
use tiny_db.Assoc.{lookup-remove_other}
use tiny_db.Status.{Status}
use tiny_db.File.{System, WritesAll}
use tiny_db.Wal.{Checksum}
use tiny_db.MemTable.{c_str}
use tiny_db.MemTable.Laws.{lookup}
use tiny_db.Cache
use tiny_db.Cache.{sharding_index}
use tiny_db.Cache.Capacity.{get-SameCaps}
use tiny_db.Cache.Shards.{in_shard, get-Holds, contains-Holds}
use tiny_db.Lru.Refine.{touch}
use tiny_db.Locks.{update}
use tiny_db.Db.{Db, Tables, Options, build_sst_path, get_stored}
use tiny_db.Db.Calls.{DbCall, Reply, regroup, answer}
use tiny_db.Db.Spec.{Entries, TablesSpec, Spec, get_tabled}
use tiny_db.Db.Refine.{IsFaithful, Refines, Agrees, Fits, with_cache-Refines}
use tiny_db.Db.Refine.Reads.{get_stored-get_tabled}
use tiny_db.Db.Refine.Run.{answer-answer_spec}
use tiny_db.Db.Recovery.{IsTotal, answer_spec-Logs}
use tiny_db.Db.Threads.{
  Place, Threads, is_reading, at, ask, take_hit, read_stored, write, Step, Reach,
}

-- Every key keeps its value when one is used.
lookup-touch : (k q : Bytes) (m : Entries) → lookup q (touch byte_string k m) ≡ lookup q m
lookup-touch k q m = elim (Option-cases (lookup k m)) [
  | inl e ↦ rw (e, touch) refl
  | inr (v, e) ↦ elim (Bool-cases (bytes_same k q)) [
    | inl same ↦
        rw (e, touch, same) (sym e ∙ ap (λ x. lookup x m) ((byte_string.same_iff k q).0 same))
    | inr other ↦ rw (e, touch, other) (lookup-remove_other byte_string k q m other)
  ]
]

-- The shards of the view have the key.
abbrev Has : (Bytes → ℕ) → (ℕ → Entries) → Bytes → Type 0
Has hash_fn shards key = is_some (lookup key (shards (sharding_index hash_fn key))) ≡ true

Has-touch :
    (hash_fn : Bytes → ℕ) (shards : ℕ → Entries) (k q : Bytes)
    → Has hash_fn shards q
    → Has hash_fn (in_shard (sharding_index hash_fn k) (touch byte_string k) shards) q
Has-touch hash_fn shards k q h =
    let s = sharding_index hash_fn k in
    elim (Bool-cases (sharding_index hash_fn q == s)) [
      | inl same ↦ rw same (ap is_some (lookup-touch k q (shards (sharding_index hash_fn q))) ∙ h)
      | inr other ↦ rw other h
    ]

abbrev get_or : {A : Type 0} → Option A → A → A
get_or none a = a
get_or (some b) a = b

-- What holds for the keys of the hits holds after one thread has moved.
hits_moved :
    (P : Bytes → Type 0) (place : ℕ → Place) (i : ℕ) (p : Place)
    → ((j : ℕ) (key : Bytes) → place j ≡ Place.hit key → P key)
    → ((key : Bytes) → p ≡ Place.hit key → P key)
    → (j : ℕ) (key : Bytes) → update place i p j ≡ Place.hit key
    → P key
hits_moved P place i p old new j key e = elim (Bool-cases (i == j)) [
  | inl same ↦ new key (sym (ap (λ b. if b then p else place j) same) ∙ e)
  | inr other ↦ old j key (sym (ap (λ b. if b then p else place j) other) ∙ e)
]

abbrev key_of : Place → Bytes
key_of (Place.hit key) = key
key_of other = []

module _ {F : Type 0} (os : System) (all : WritesAll os) (crc : Checksum) (hash_fn : Bytes → ℕ)
    (tables : Tables F) (spec : TablesSpec F) (faithful : IsFaithful tables spec)
    (total : IsTotal spec) (options : Options) (capacity : ℕ) where
  -- The database matches a view, and every key that a thread saw in the cache is still there.
  record IsSteady (s : Threads F) : Type 0 where
    pub view : Spec F
    pub matches : Refines capacity s.db view
    pub hits :
        (i : ℕ) (key : Bytes) → s.place i ≡ Place.hit key → Has hash_fn view.shards (c_str key)

  at-IsSteady :
      {s : Threads F} (i : ℕ) (p : Place)
      → (h : IsSteady s)
      → ((key : Bytes) → p ≡ Place.hit key → Has hash_fn h.view.shards (c_str key))
      → IsSteady (at os crc hash_fn tables options s i p)
  at-IsSteady {s} i p h new = record {
    view = h.view;
    matches = h.matches;
    hits = hits_moved (λ key. Has hash_fn h.view.shards (c_str key)) s.place i p h.hits new;
  }

  ask-IsSteady :
      {s : Threads F} (i : ℕ) (key : Bytes)
      → IsSteady s
      → IsSteady (ask os crc hash_fn tables options i key s)
  unfolding ask
  ask-IsSteady {s} i key h =
      let answered =
        contains-Holds byte_string hash_fn s.db.cache h.view.shards h.matches.shards (c_str key) in
      elim (Bool-cases (Cache.contains byte_string hash_fn s.db.cache (c_str key))) [
        | inl stored ↦ rw stored (
            at-IsSteady i (Place.hit key) h (λ q e.
              subst (λ k. Has hash_fn h.view.shards (c_str k)) (ap key_of e)
                (sym answered ∙ stored)))
        | inr absent ↦ rw absent (at-IsSteady i (Place.missed key) h (λ q e. absurd (cc e)))
      ]

  take_hit-IsSteady :
      {s : Threads F} (i : ℕ) (key : Bytes)
      → IsSteady s
      → s.place i ≡ Place.hit key
      → (t : Threads F) × (take_hit os crc hash_fn tables options i key s ≡ some t) × IsSteady t
  unfolding take_hit
  take_hit-IsSteady {s} i key h e =
      let k = c_str key in
      let (c, got, ran, found, holds) =
        get-Holds byte_string hash_fn s.db.cache h.view.shards h.matches.shards k in
      let there = h.hits i key e in
      elim (Option-cases (lookup k (h.view.shards (sharding_index hash_fn k)))) [
        | inl gone ↦ absurd (cc (there, ap is_some gone))
        | inr (v, in_cache) ↦ (
          record {
            db = record s.db { cache = c };
            place = update s.place i (Place.replied Status.success v);
          },
          rw ran (rw (found ∙ in_cache) refl),
          record {
            view = record h.view {
              shards = in_shard (sharding_index hash_fn k) (touch byte_string k) h.view.shards;
            };
            matches =
                with_cache-Refines h.matches
                  (get-SameCaps byte_string hash_fn s.db.cache c k got ran) holds;
            hits =
                hits_moved _ s.place i (Place.replied Status.success v)
                  (λ j q hit. Has-touch hash_fn h.view.shards k (c_str q) (h.hits j q hit))
                  (λ q eq. absurd (cc eq));
          },
        )
      ]

  write-IsSteady :
      {s : Threads F} (i : ℕ) (call : DbCall)
      → IsSteady s
      → Fits call
      → ((j : ℕ) → is_reading (s.place j) ≡ false)
      → (t : Threads F) × (write os crc hash_fn tables options i call s ≡ some t) × IsSteady t
  unfolding write
  write-IsSteady {s} i call h fits alone =
      let (view', reply, answered, logs) =
        answer_spec-Logs crc hash_fn spec total options capacity call h.view in
      let (d, ran, matches) =
        subst (Agrees capacity (answer os crc hash_fn tables options call s.db)) answered (
          answer-answer_spec os all crc hash_fn tables spec faithful options capacity call fits
            h.matches) in
      (
        record { db = d; place = update s.place i (Place.replied reply.0 reply.1) },
        rw ran refl,
        record {
          view = view';
          matches = matches;
          hits =
              hits_moved _ s.place i (Place.replied reply.0 reply.1)
                (λ j q hit. absurd (cc (alone j, ap is_reading hit))) (λ q eq. absurd (cc eq));
        },
      )

  module _ (empty_files : (f : F) (path key : Bytes) → spec.seek f path key ≡ some none) where
    -- What the table or the files answer leaves the view as it was.
    tabled_same :
        (key ret : Bytes) (view : Spec F) (found : Option Bytes)
        → (r : Reply) × (get_tabled crc hash_fn spec options capacity key ret view found
            ≡ some (view, r))
    tabled_same key ret view none = (
      (Status.not_found, ret),
      rw (empty_files view.files (options.storage_dir ++ build_sst_path 0 0) key) refl,
    )
    tabled_same key ret view (some v) = ((Status.success, v), refl)

    read_stored-IsSteady :
        {s : Threads F} (i now : ℕ) (key ret : Bytes)
        → IsSteady s
        → (t : Threads F) × (read_stored os crc hash_fn tables options i now key ret s ≡ some t)
          × IsSteady t
    unfolding read_stored
    read_stored-IsSteady {s} i now key ret h =
        let agrees =
          get_stored-get_tabled os all crc hash_fn tables spec faithful options capacity now key ret
            h.matches in
        let (r, same) = tabled_same key ret h.view (lookup (c_str key) h.view.table) in
        let (d, ran, matches) =
          subst
            (Agrees capacity
              (get_stored os crc hash_fn tables options now key ret s.db >>= regroup))
            same agrees in
        (
          record { db = d; place = update s.place i (Place.replied r.0 r.1) },
          rw ran refl,
          record {
            view = h.view;
            matches = matches;
            hits = hits_moved _ s.place i (Place.replied r.0 r.1) h.hits (λ q eq. absurd (cc eq));
          },
        )

    Step-IsSteady :
        {s : Threads F} {x : Option (Threads F)}
        → IsSteady s
        → Step os crc hash_fn tables options s x
        → (t : Threads F) × (x ≡ some t) × IsSteady t
    Step-IsSteady {s} h (Step.begin_get i b rest e) =
        (_, refl, at-IsSteady i (Place.asking (b ∷ rest)) h (λ q eq. absurd (cc eq)))
    Step-IsSteady {s} h (Step.ask_cache i key e) = (_, refl, ask-IsSteady i key h)
    Step-IsSteady {s} h (Step.take_cached i key e) = take_hit-IsSteady i key h e
    Step-IsSteady {s} h (Step.read_table i now key ret e) = read_stored-IsSteady i now key ret h
    Step-IsSteady {s} h (Step.write_alone i call w e fits alone) =
        write-IsSteady i call h fits alone
    Step-IsSteady {s} h (Step.return i status value e) =
        (_, refl, at-IsSteady i Place.idle h (λ q eq. absurd (cc eq)))

    Reach-IsSteady :
        {d : Db F} {v : Spec F}
        → Refines capacity d v
        → {s : Threads F} → Reach os crc hash_fn tables options d s
        → IsSteady s
    Reach-IsSteady {d} {v} h Reach.start = record {
      view = v;
      matches = h;
      hits = λ i key e. absurd (cc e);
    }
    Reach-IsSteady {d} {v} h {s} (Reach.later r step) =
        let (t', e, steady) = Step-IsSteady (Reach-IsSteady h r) step in
        subst IsSteady (ap (λ x. get_or x t') (sym e)) steady

    -- On a system whose writes take all bytes, where the files of tables never fault, depend on the
    -- entries of a table alone and have a value for no key, and from a database that matches a list-
    -- based view: whatever steps threads have taken, inside of Get side by side and in Put and
    -- Delete alone, with keys of at most 255 bytes and values of fewer than 2 ^ 32 - 1 bytes for
    -- these two, no step faults. In particular a key that Get saw in the cache is still there when
    -- Get takes its value.
    pub Step-returns :
        {d : Db F} {v : Spec F}
        → Refines capacity d v
        → {s : Threads F} → Reach os crc hash_fn tables options d s
        → {x : Option (Threads F)} → Step os crc hash_fn tables options s x
        → (t : Threads F) × (x ≡ some t)
    Step-returns h r step = let (t, e, steady) = Step-IsSteady (Reach-IsSteady h r) step in (t, e)
