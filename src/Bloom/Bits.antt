-- ===== src/Bloom/Bits.antt =====
-- The bits that `CreateFilter` and `Add` of src/filter/bloom_filter.cpp set, and `Exists` tests.
use tiny_db.Prelude.{
  ℕ, zero, suc, ◌+◌, ◌*◌, ◌/◌, ◌%◌, ◌^◌, ◌≤◌, ◌<◌, ◌≡◌, refl, ◌∙◌, bit_and, true, [], ◌∷◌, Bytes,
  length, arith,
}
use native.Mathlib.Nat.{pow-suc}
use tiny_db.Prelude.Bits.{bit_kept, bit_set}
use tiny_db.Bloom.{byte_of, or_at, set_bits, test_bits}

-- The second array has the bits of the first.
pub record Keeps (a b : Bytes) : Type 0 where
  pub same_length : length b ≡ length a
  pub kept : (i mask : ℕ) → bit_and (byte_of a i) mask ≤ bit_and (byte_of b i) mask

length-or_at : (bits : Bytes) (i mask : ℕ) → length (or_at bits i mask) ≡ length bits
length-or_at [] i mask = refl
length-or_at (b ∷ bits) zero mask = refl
length-or_at (b ∷ bits) (suc i) mask = omega (arith, length-or_at bits i mask)

or_at_keeps :
    (bits : Bytes) (i j c mask : ℕ)
    → bit_and (byte_of bits i) mask ≤ bit_and (byte_of (or_at bits j c) i) mask
or_at_keeps [] i j c mask = omega arith
or_at_keeps (b ∷ bits) zero zero c mask = bit_kept b c mask
or_at_keeps (b ∷ bits) zero (suc j) c mask = omega arith
or_at_keeps (b ∷ bits) (suc i) zero c mask = omega arith
or_at_keeps (b ∷ bits) (suc i) (suc j) c mask = or_at_keeps bits i j c mask

or_at_sets :
    (bits : Bytes) (i mask : ℕ)
    → i < length bits
    → mask ≤ bit_and (byte_of (or_at bits i mask) i) mask
or_at_sets [] i mask h = absurd (omega arith)
or_at_sets (b ∷ bits) zero mask h = bit_set b mask
or_at_sets (b ∷ bits) (suc i) mask h = or_at_sets bits i mask (omega arith)

pub Keeps-trans : (a b c : Bytes) → Keeps a b → Keeps b c → Keeps a c
Keeps-trans a b c p q = record {
  same_length = q.same_length ∙ p.same_length;
  kept = λ i mask. omega (arith, p.kept i mask, q.kept i mask);
}

pub set_bits-Keeps :
    (rounds size h d : ℕ) (bits : Bytes) → Keeps bits (set_bits rounds size h d bits)
unfolding set_bits
set_bits-Keeps zero size h d bits = record { same_length = refl; kept = λ i mask. omega arith }
set_bits-Keeps (suc rounds) size h d bits =
    let pos = h % size in
    let bits' = or_at bits (pos / 8) (2 ^ (pos % 8)) in
    Keeps-trans bits bits' _
      (record {
        same_length = length-or_at bits (pos / 8) (2 ^ (pos % 8));
        kept = λ i mask. or_at_keeps bits i (pos / 8) (2 ^ (pos % 8)) mask;
      })
      (set_bits-Keeps rounds size ((h + d) % 2 ^ 32) d bits')

pow_pos : (k : ℕ) → 0 < 2 ^ k
pow_pos zero = omega arith
pow_pos (suc k) = omega (arith, pow-suc 2 k, pow_pos k)

pub test_bits_mono :
    (rounds size h d : ℕ) (a b : Bytes)
    → Keeps a b
    → test_bits rounds size h d a ≡ true
    → test_bits rounds size h d b ≡ true
unfolding test_bits
test_bits_mono zero size h d a b k e = refl
test_bits_mono (suc rounds) size h d a b k e =
    let pos = h % size in
    ground (
      arith,
      k.kept (pos / 8) (2 ^ (pos % 8)),
      test_bits_mono rounds size ((h + d) % 2 ^ 32) d a b k,
    )

pub test-set_bits :
    (rounds size h d : ℕ) (bits : Bytes)
    → 0 < size
    → size ≤ length bits * 8
    → test_bits rounds size h d (set_bits rounds size h d bits) ≡ true
unfolding test_bits set_bits
test-set_bits zero size h d bits p q = refl
test-set_bits (suc rounds) size h d bits p q =
    let pos = h % size in
    let mask = 2 ^ (pos % 8) in
    let bits' = or_at bits (pos / 8) mask in
    let within : pos < size = omega arith in
    let set = or_at_sets bits (pos / 8) mask (omega arith) in
    let keeps = set_bits-Keeps rounds size ((h + d) % 2 ^ 32) d bits' in
    ground (
      arith,
      set,
      keeps.kept (pos / 8) mask,
      pow_pos (pos % 8),
      test-set_bits rounds size ((h + d) % 2 ^ 32) d bits' p
          (omega (arith, length-or_at bits (pos / 8) mask)),
    )
