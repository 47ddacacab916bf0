-- ===== src/Db/Threads.antt =====
-- Calls of src/db/db_impl.cpp from several threads. `rwlock_` is a `std::shared_mutex`: any number of
-- threads are inside of `Get` at once, and one is inside of `Put` or `Delete` only when no other is inside
-- of a call. A shard of the cache has a lock of its own, so that its methods are single steps.
pub mod Safety
mod Tests
use tiny_db.Prelude.{
  ℕ, ◌≡◌, Bool, true, false, Option, none, some, List, [], ◌∷◌, Bytes, ◌==◌, ◌>>=◌, if◌then◌else◌,
}
use tiny_db.Order.ByteString.{byte_string}
use tiny_db.Status.{Status}
use tiny_db.File.{System}
use tiny_db.Wal.{Checksum}
use tiny_db.MemTable.{c_str}
use tiny_db.Cache
use tiny_db.Cache.{sharding_index}
use tiny_db.Lru.Refine.{value_at}
use tiny_db.Locks.{update}
use tiny_db.Db.{Db, Tables, Options, get_stored}
use tiny_db.Db.Refine.{Fits}
use tiny_db.Db.Calls.{DbCall, Reply, regroup, answer}

-- Where a thread is: in no call; in `Get` of a key, before it asks the cache, after `contains` was true,
-- and after it was false; and behind it with a reply.
pub data Place : Type 0 where
  idle : Place
  asking hit missed : Bytes → Place
  replied : Status → Bytes → Place

pub record Threads (F : Type 0) : Type 0 where
  pub db : Db F
  pub place : ℕ → Place

-- The thread holds the read lock.
abbrev pub is_reading : Place → Bool
is_reading Place.idle = false
is_reading (Place.asking key) = true
is_reading (Place.hit key) = true
is_reading (Place.missed key) = true
is_reading (Place.replied status value) = false

-- The calls that take the write lock.
abbrev pub is_write : DbCall → Bool
is_write (DbCall.put_call bits now key value) = true
is_write (DbCall.delete_call bits key) = true
is_write (DbCall.get_call now key ret) = false
is_write DbCall.batch_put_call = false
is_write DbCall.batch_delete_call = false
is_write DbCall.close_call = false

module _ {F : Type 0} (os : System) (crc : Checksum) (hash_fn : Bytes → ℕ) (tables : Tables F)
    (options : Options) where
  abbrev pub at : Threads F → ℕ → Place → Threads F
  at s i p = record s { place = update s.place i p }

  -- `cache->contains(key.data())`
  unfoldable pub ask : ℕ → Bytes → Threads F → Threads F
  ask i key s =
      if Cache.contains byte_string hash_fn s.db.cache (c_str key)
      then at s i (Place.hit key)
      else at s i (Place.missed key)

  -- `*(cache->get(key.data())->val)`; `none` is a null pointer that is followed.
  unfoldable pub take_hit : ℕ → Bytes → Threads F → Option (Threads F)
  take_hit i key s = Cache.get byte_string hash_fn s.db.cache (c_str key) >>= λ got.
      value_at (got.0 (sharding_index hash_fn (c_str key))) got.1 >>= λ v. some (record {
        db = record s.db { cache = got.0 };
        place = update s.place i (Place.replied Status.success v);
      })

  -- The rest of `Get`.
  unfoldable pub read_stored : ℕ → ℕ → Bytes → Bytes → Threads F → Option (Threads F)
  read_stored i now key ret s =
      (get_stored os crc hash_fn tables options now key ret s.db >>= regroup) >>= λ r.
      some (record { db = r.0; place = update s.place i (Place.replied r.1.0 r.1.1) })

  -- A whole call under the write lock.
  unfoldable pub write : ℕ → DbCall → Threads F → Option (Threads F)
  write i call s = answer os crc hash_fn tables options call s.db >>= λ r.
      some (record { db = r.0; place = update s.place i (Place.replied r.1.0 r.1.1) })

  -- A step and what it leads to, or `none` for a fault.
  pub data Step (s : Threads F) : Option (Threads F) → Type 0 where
    begin_get :
        (i : ℕ) (b : ℕ) (rest : Bytes)
        → s.place i ≡ Place.idle
        → Step s (some (at s i (Place.asking (b ∷ rest))))
    ask_cache : (i : ℕ) (key : Bytes) → s.place i ≡ Place.asking key → Step s (some (ask i key s))
    take_cached : (i : ℕ) (key : Bytes) → s.place i ≡ Place.hit key → Step s (take_hit i key s)
    read_table :
        (i now : ℕ) (key ret : Bytes)
        → s.place i ≡ Place.missed key
        → Step s (read_stored i now key ret s)
    write_alone :
        (i : ℕ) (call : DbCall)
        → is_write call ≡ true
        → s.place i ≡ Place.idle
        → Fits call
        → ((j : ℕ) → is_reading (s.place j) ≡ false)
        → Step s (write i call s)
    return :
        (i : ℕ) (status : Status) (value : Bytes)
        → s.place i ≡ Place.replied status value
        → Step s (some (at s i Place.idle))

  pub data Reach (d : Db F) : Threads F → Type 0 where
    start : Reach d (record { db = d; place = λ i. Place.idle })
    later : {s t : Threads F} → Reach d s → Step s (some t) → Reach d t
