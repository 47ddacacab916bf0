-- ===== src/Cache/Tests.antt =====
-- The properties of src/cache/cache.h at a concrete cache.
use tiny_db.Prelude.{ℕ, ◌≡◌, Option, some, [], ◌∷◌, Bytes, length}
use tiny_db.Order.ByteString.{byte_string}
use tiny_db.Assoc
use tiny_db.Lru.Refine.{admit, touch, value_at}
use tiny_db.Lru.Tests.{two_cached, two_entries, two_cached-Represents}
use tiny_db.Cache.{Cache, insert, erase, get}
use tiny_db.Cache.Shards.{Holds, in_shard, insert-Holds, erase-Holds, get-Holds}

-- Every shard holds the same two entries; the hash of a key is its length.
abbrev pub full : Cache Bytes Bytes
full i = two_cached

pub full-Holds : Holds full (λ i. two_entries)
full-Holds i = two_cached-Represents

insert-Holds_example :
    (c : Cache Bytes Bytes) × (insert byte_string length 9 (3 ∷ 3 ∷ []) (30 ∷ []) full ≡ some c)
    × Holds c (in_shard 2 (admit byte_string 2 (3 ∷ 3 ∷ []) (30 ∷ [])) (λ i. two_entries))
unfolding tiny_db.Lru.insert tiny_db.Lru.push_front
insert-Holds_example =
    insert-Holds byte_string length full (λ i. two_entries) full-Holds (3 ∷ 3 ∷ []) 9 (30 ∷ [])

erase-Holds_example :
    (c : Cache Bytes Bytes) × (erase byte_string length full (2 ∷ []) ≡ some c)
    × Holds c (in_shard 1 (Assoc.remove byte_string (2 ∷ [])) (λ i. two_entries))
erase-Holds_example = erase-Holds byte_string length full (λ i. two_entries) full-Holds (2 ∷ [])

get-Holds_example :
    (c : Cache Bytes Bytes) × (got : Option ℕ) × (get byte_string length full (2 ∷ [])
      ≡ some (c, got))
    × (value_at (c 1) got ≡ some (20 ∷ []))
    × Holds c (in_shard 1 (touch byte_string (2 ∷ [])) (λ i. two_entries))
get-Holds_example = get-Holds byte_string length full (λ i. two_entries) full-Holds (2 ∷ [])
