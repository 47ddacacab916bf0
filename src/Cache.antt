-- ===== src/Cache.antt =====
-- The cache in shards: src/cache/cache.h over src/cache/lru.h.
pub mod Capacity
pub mod Shards
pub mod Tests
use tiny_db.Prelude.{
  ℕ, zero, suc, ◌%◌, ◌^◌, ◌≡◌, Bool, Option, none, some, List, ◌==◌, ◌>>=◌, if◌then◌else◌,
}
use tiny_db.Order.{KeyOrder}
use tiny_db.Lru
use tiny_db.Lru.{Lru, Node}

abbrev pub sharding_num : ℕ
sharding_num = 5

-- `caches`; an index is below `sharding_num`.
abbrev pub Cache {ℓ} : (K P : Type ℓ) → Type ℓ
Cache K P = ℕ → Lru K P

abbrev pub sharding_index {ℓ} : {K : Type ℓ} → (K → ℕ) → K → ℕ
sharding_index hash_fn key = hash_fn key % sharding_num

module _ {ℓ} {K P : Type ℓ} where
  -- The constructor; `node` fills the heap, and is never read.
  abbrev pub new_cache : ℕ → Node K P → Cache K P
  new_cache cap node i = Lru.new_lru cap node

  abbrev pub register_clean_handle : Cache K P → Cache K P
  register_clean_handle c i = Lru.register_clean_handle (c i)

  abbrev pub with_shard : Cache K P → ℕ → Lru K P → Cache K P
  with_shard c s l i = if i == s then l else c i

  -- `hash_fn` is `std::hash`, and `now` is `time(0)`.
  module _ (o : KeyOrder K) (hash_fn : K → ℕ) where
    unfoldable pub insert : ℕ → K → P → Cache K P → Option (Cache K P)
    insert now key val c =
        let s = sharding_index hash_fn key in
        Lru.insert o (hash_fn key % 2 ^ 32) now key val (c s) >>= λ l. some (with_shard c s l)

    unfoldable pub erase : Cache K P → K → Option (Cache K P)
    erase c key =
        let s = sharding_index hash_fn key in Lru.erase o (c s) key >>= λ l. some (with_shard c s l)

    -- The shard has the node.
    unfoldable pub get : Cache K P → K → Option (Cache K P × Option ℕ)
    get c key =
        let s = sharding_index hash_fn key in
        Lru.get o (c s) key >>= λ r. some (with_shard c s r.0, r.1)

    abbrev pub contains : Cache K P → K → Bool
    contains c key = Lru.contains o (c (sharding_index hash_fn key)) key

    unfoldable pub release : Cache K P → K → Option (Cache K P)
    release c key =
        let s = sharding_index hash_fn key in
        Lru.release o (c s) key >>= λ l. some (with_shard c s l)
