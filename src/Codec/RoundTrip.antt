-- ===== src/Codec/RoundTrip.antt =====
-- Encoding and decoding are inverse to each other, and the encodings have their fixed widths.
use tiny_db.Prelude.{
  ℕ, ◌+◌, ◌/◌, ◌*◌, ◌%◌, ◌^◌, ◌<◌, ◌≡◌, refl, bit_and, bit_or, some, [], ◌∷◌, ◌++◌, Bytes, IsByte,
  All, length, arith, ap, ◌∙◌,
}
use tiny_db.Prelude.Bits.{or_field, and_byte}
use tiny_db.Codec.{encode_fixed32, encode_fixed64, decode_fixed32, decode_fixed64}

-- Four bytes, joined by `|`, as a sum.
or_word :
    (b0 b1 b2 b3 : ℕ)
    → b0 < 256
    → b1 < 256
    → b2 < 256
    → bit_or (bit_or (bit_or b0 (b1 * 2 ^ 8)) (b2 * 2 ^ 16)) (b3 * 2 ^ 24)
      ≡ b0 + b1 * 2 ^ 8 + b2 * 2 ^ 16 + b3 * 2 ^ 24
or_word b0 b1 b2 b3 h0 h1 h2 = omega (
  arith,
  or_field 8 b0 b1 (omega arith),
  or_field 16 (bit_or b0 (b1 * 2 ^ 8)) b2 (omega (arith, or_field 8 b0 b1 (omega arith))),
  or_field 24 (bit_or (bit_or b0 (b1 * 2 ^ 8)) (b2 * 2 ^ 16)) b3 (
      omega (
        arith,
        or_field 8 b0 b1 (omega arith),
        or_field 16 (bit_or b0 (b1 * 2 ^ 8)) b2 (omega (arith, or_field 8 b0 b1 (omega arith))),
      )),
)

pub length-encode_fixed32 : (v : ℕ) → length (encode_fixed32 v) ≡ 4
unfolding encode_fixed32
length-encode_fixed32 v = refl

pub length-encode_fixed64 : (v : ℕ) → length (encode_fixed64 v) ≡ 8
unfolding encode_fixed64
length-encode_fixed64 v = refl

byte_lt : (a : ℕ) → bit_and a 0xff < 256
byte_lt a = omega (arith, and_byte a)

-- Every element that an encoder writes is a byte.
pub encode_fixed32-IsByte : (v : ℕ) → All IsByte (encode_fixed32 v)
unfolding encode_fixed32
encode_fixed32-IsByte v = omega (arith, byte_lt)

-- What follows the encoding is not read; a number of 32 bits comes back, a wider one modulo 2 ^ 32.
pub decode-encode_fixed32 :
    (v : ℕ) (rest : Bytes) → decode_fixed32 (encode_fixed32 v ++ rest) ≡ some (v % 2 ^ 32)
unfolding encode_fixed32 decode_fixed32
decode-encode_fixed32 v rest =
    ap some (or_word _ _ _ _ (byte_lt _) (byte_lt _) (byte_lt _) ∙ (omega (arith, and_byte)))

or_long :
    (low b4 b5 b6 b7 : ℕ)
    → low < 2 ^ 32
    → b4 < 256
    → b5 < 256
    → b6 < 256
    → bit_or (bit_or (bit_or (bit_or low (b4 * 2 ^ 32)) (b5 * 2 ^ 40)) (b6 * 2 ^ 48)) (b7 * 2 ^ 56)
      ≡ low + b4 * 2 ^ 32 + b5 * 2 ^ 40 + b6 * 2 ^ 48 + b7 * 2 ^ 56
or_long low b4 b5 b6 b7 h h4 h5 h6 =
    let e4 = or_field 32 low b4 (omega arith) in
    let e5 = or_field 40 (low + b4 * 2 ^ 32) b5 (omega arith) in
    let e6 = or_field 48 (low + b4 * 2 ^ 32 + b5 * 2 ^ 40) b6 (omega arith) in
    let e7 = or_field 56 (low + b4 * 2 ^ 32 + b5 * 2 ^ 40 + b6 * 2 ^ 48) b7 (omega arith) in
    rw (e4, e5, e6, e7)

-- A number of 64 bits comes back, a wider one modulo 2 ^ 64.
pub decode-encode_fixed64 :
    (v : ℕ) (rest : Bytes) → decode_fixed64 (encode_fixed64 v ++ rest) ≡ some (v % 2 ^ 64)
unfolding encode_fixed64 decode_fixed64
decode-encode_fixed64 v rest = ap some (
    rw (or_word _ _ _ _ (byte_lt _) (byte_lt _) (byte_lt _)) (
      or_long _ _ _ _ _ (omega (arith, byte_lt)) (byte_lt _) (byte_lt _) (byte_lt _)
      ∙ (omega (arith, and_byte))))

-- The other direction: every four bytes are the encoding of the number that they decode to.
pub encode-decode_fixed32 :
    (b0 b1 b2 b3 : ℕ) {v : ℕ}
    → b0 < 256
    → b1 < 256
    → b2 < 256
    → b3 < 256
    → decode_fixed32 (b0 ∷ b1 ∷ b2 ∷ b3 ∷ []) ≡ some v
    → encode_fixed32 v ≡ b0 ∷ b1 ∷ b2 ∷ b3 ∷ []
unfolding encode_fixed32 decode_fixed32
encode-decode_fixed32 b0 b1 b2 b3 {v} h0 h1 h2 h3 e = ground (
  arith,
  or_word b0 b1 b2 b3,
  and_byte (v / 2 ^ 0),
  and_byte (v / 2 ^ 8),
  and_byte (v / 2 ^ 16),
  and_byte (v / 2 ^ 24),
)
