-- ===== src/Bloom.antt =====
-- The Bloom filter of src/filter/bloom_filter.{h,cpp}, with its hash, which
-- src/utils/murmur_hash.h repeats.
pub mod Bits
pub mod NoLoss
pub mod Sizing
mod Tests
use tiny_db.Prelude.{
  ℕ, zero, suc, ◌+◌, ◌-◌, ◌*◌, ◌/◌, ◌%◌, ◌^◌, bit_and, bit_or, bit_xor, Bool, true, false, not,
  Option, none, some, List, [], ◌∷◌, Bytes, length, drop, ◌==◌, ltb, ◌>>=◌, if◌then◌else◌,
}
use tiny_db.Prelude.Int.{ℤ, pos, negsuc, ◌-ℤ◌}

abbrev pub seed : ℕ
seed = 0xbc451d34

abbrev pub m : ℕ
m = 0x5bd1e995

-- `a * b` of `uint32_t`.
abbrev times : ℕ → ℕ → ℕ
times a b = a * b % 2 ^ 32

-- The turn of the hash's loop for the word `k`.
unfoldable pub mix_word : ℕ → ℕ → ℕ
mix_word h k =
    let k1 = times k m in let k2 = bit_xor k1 (k1 / 2 ^ 24) in bit_xor (times h m) (times k2 m)

-- The loop over the words of 4 bytes, little-endian, and the switch on the bytes that are left.
unfoldable pub mix_bytes : ℕ → Bytes → ℕ
mix_bytes h (b0 ∷ b1 ∷ b2 ∷ b3 ∷ rest) =
    mix_bytes (mix_word h (b0 + b1 * 2 ^ 8 + b2 * 2 ^ 16 + b3 * 2 ^ 24)) rest
mix_bytes h (b0 ∷ b1 ∷ b2 ∷ []) =
    times (bit_xor (bit_xor (bit_xor h (b2 * 2 ^ 16)) (b1 * 2 ^ 8)) b0) m
mix_bytes h (b0 ∷ b1 ∷ []) = times (bit_xor (bit_xor h (b1 * 2 ^ 8)) b0) m
mix_bytes h (b0 ∷ []) = times (bit_xor h b0) m
mix_bytes h [] = h

unfoldable pub murmur_hash2 : Bytes → ℕ
murmur_hash2 key =
    let h = mix_bytes (bit_xor seed (length key % 2 ^ 32)) key in
    let h1 = times (bit_xor h (h / 2 ^ 13)) m in bit_xor h1 (h1 / 2 ^ 15)

-- `(h >> 17) | (h << 15)`
abbrev pub delta : ℕ → ℕ
delta h = bit_or (h / 2 ^ 17) (h * 2 ^ 15 % 2 ^ 32)

-- `hash_func_num` and `bits_array`; `bits_per_key` is read by no operation.
pub record Filter : Type 0 where
  pub hash_func_num : ℕ
  pub bits_array : Bytes

-- `resize` of an empty string.
abbrev pub zeros : ℕ → Bytes
zeros zero = []
zeros (suc n) = 0 ∷ zeros n

-- The constructor's floating-point formulas: `-1 * (int32_t)(log(fp) * keys_num / ...)`, and
-- `(int32_t)(0.69... * bits_per_key)`. `F` is `double`.
pub record Formulas (F : Type 0) : Type 0 where
  pub bits_num : F → ℤ → ℤ
  pub hash_num : ℤ → ℤ

-- `(bits_num + 7) / 8` as the size of an array: `none` is a sum that no `int32_t` holds, or a
-- negative size, at which `resize` throws. The division is towards 0.
abbrev pub array_size : ℤ → Option ℕ
array_size (pos n) = if ltb (n + 7) (2 ^ 31) then some ((n + 7) / 8) else none
array_size (negsuc n) = if ltb n 14 then some 0 else none

-- `bits_num / keys_num`, towards 0; `none` is a division by 0.
abbrev pub bits_per_key : ℕ → ℤ → Option ℤ
bits_per_key bits (pos zero) = none
bits_per_key bits (pos (suc k)) = some (pos (bits / suc k))
bits_per_key bits (negsuc k) = some (pos 0 -ℤ pos (bits / suc k))

-- The two tests that keep `hash_func_num` between 1 and 32.
abbrev pub in_range : ℤ → ℕ
in_range (negsuc n) = 1
in_range (pos n) = if ltb n 1 then 1 else if ltb 32 n then 32 else n

-- `BloomFilter(keys_num, false_positive)`
unfoldable pub new_filter : {F : Type 0} → Formulas F → ℤ → F → Option Filter
new_filter formulas keys_num false_positive =
    array_size (formulas.bits_num false_positive keys_num) >>= λ size.
    bits_per_key (size * 8) keys_num >>= λ per_key.
    some (record { hash_func_num = in_range (formulas.hash_num per_key); bits_array = zeros size })

-- `bits_array[i]`, and `bits_array[i] |= mask`.
abbrev pub byte_of : Bytes → ℕ → ℕ
byte_of [] i = 0
byte_of (b ∷ bytes) zero = b
byte_of (b ∷ bytes) (suc i) = byte_of bytes i

abbrev pub or_at : Bytes → ℕ → ℕ → Bytes
or_at [] i mask = []
or_at (b ∷ bytes) zero mask = bit_or b mask ∷ bytes
or_at (b ∷ bytes) (suc i) mask = b ∷ or_at bytes i mask

-- `bits_array.size() * 8` in `uint32_t`.
abbrev pub bits_size : Bytes → ℕ
bits_size bits = length bits * 8 % 2 ^ 32

-- The rounds that set the bits of a key. The size is not 0.
unfoldable pub set_bits : ℕ → ℕ → ℕ → ℕ → Bytes → Bytes
set_bits zero size h d bits = bits
set_bits (suc rounds) size h d bits =
    let bit_pos = h % size in
    set_bits rounds size ((h + d) % 2 ^ 32) d (or_at bits (bit_pos / 8) (2 ^ (bit_pos % 8)))

unfoldable pub test_bits : ℕ → ℕ → ℕ → ℕ → Bytes → Bool
test_bits zero size h d bits = true
test_bits (suc rounds) size h d bits =
    let bit_pos = h % size in
    let rest = test_bits rounds size ((h + d) % 2 ^ 32) d bits in
    if bit_and (byte_of bits (bit_pos / 8)) (2 ^ (bit_pos % 8)) == 0 then false else rest

-- The bits of one key; `none` is a division by 0.
unfoldable pub set_key : Filter → Bytes → Option Filter
unfolding set_bits murmur_hash2
set_key f key =
    let h = murmur_hash2 key in
    let size = bits_size f.bits_array in
    if f.hash_func_num == 0
    then some f
    else if size == 0
    then none
    else some (record f { bits_array = set_bits f.hash_func_num size h (delta h) f.bits_array })

unfoldable pub create_filter : Filter → List Bytes → Option Filter
create_filter f [] = some f
create_filter f (key ∷ keys) = set_key f key >>= λ f'. create_filter f' keys

unfoldable pub add : Filter → Bytes → Option Filter
add f [] = some f
add f (b ∷ key) = set_key f (b ∷ key)

unfoldable pub exists : Filter → Bytes → Option Bool
exists f [] = some false
exists f (b ∷ key) =
    let h = murmur_hash2 (b ∷ key) in
    let size = bits_size f.bits_array in
    if f.hash_func_num == 0
    then some true
    else if size == 0
    then none
    else some (test_bits f.hash_func_num size h (delta h) f.bits_array)

-- `create_filter2`
abbrev pub create_filter2 : ℕ → Bytes → Filter
create_filter2 hash_func_num bits_array = record {
  hash_func_num = hash_func_num;
  bits_array = bits_array;
}
