-- ===== src/Codec.antt =====
-- The fixed-width little-endian encodings of src/utils/codec.h and src/utils/codec.cpp.
use tiny_db.Prelude.{
  ℕ, ◌/◌, ◌*◌, ◌^◌, bit_and, bit_or, Option, none, some, List, [], ◌∷◌, ◌++◌, Bytes,
}
pub mod RoundTrip
mod Tests

-- `(val >> k) & 0xff`
abbrev pub byte_at : ℕ → ℕ → ℕ
byte_at val k = bit_and (val / 2 ^ k) 0xff

-- What the function writes at `buf`.
unfoldable pub encode_fixed8 : ℕ → Bytes
encode_fixed8 val = bit_and val 0xff ∷ []

unfoldable pub encode_fixed32 : ℕ → Bytes
encode_fixed32 val = byte_at val 0 ∷ byte_at val 8 ∷ byte_at val 16 ∷ byte_at val 24 ∷ []

unfoldable pub encode_fixed64 : ℕ → Bytes
encode_fixed64 val =
    byte_at val 0
    ∷ byte_at val 8
    ∷ byte_at val 16
    ∷ byte_at val 24
    ∷ byte_at val 32
    ∷ byte_at val 40
    ∷ byte_at val 48
    ∷ byte_at val 56
    ∷ []

-- `none` stands for a read past the end of the bytes at `data`.
unfoldable pub decode_fixed8 : Bytes → Option ℕ
decode_fixed8 (b ∷ rest) = some b
decode_fixed8 _ = none

unfoldable pub decode_fixed32 : Bytes → Option ℕ
decode_fixed32 (b0 ∷ b1 ∷ b2 ∷ b3 ∷ rest) =
    some (bit_or (bit_or (bit_or b0 (b1 * 2 ^ 8)) (b2 * 2 ^ 16)) (b3 * 2 ^ 24))
decode_fixed32 _ = none

unfoldable pub decode_fixed64 : Bytes → Option ℕ
decode_fixed64 (b0 ∷ b1 ∷ b2 ∷ b3 ∷ b4 ∷ b5 ∷ b6 ∷ b7 ∷ rest) =
    let low = bit_or (bit_or (bit_or b0 (b1 * 2 ^ 8)) (b2 * 2 ^ 16)) (b3 * 2 ^ 24) in
    some (
      bit_or (bit_or (bit_or (bit_or low (b4 * 2 ^ 32)) (b5 * 2 ^ 40)) (b6 * 2 ^ 48)) (b7 * 2 ^ 56))
decode_fixed64 _ = none

-- `dst` after the call.
unfoldable pub put_fixed8 : Bytes → ℕ → Bytes
unfolding encode_fixed8
put_fixed8 dst val = dst ++ encode_fixed8 val

unfoldable pub put_fixed32 : Bytes → ℕ → Bytes
unfolding encode_fixed32
put_fixed32 dst val = dst ++ encode_fixed32 val

unfoldable pub put_fixed64 : Bytes → ℕ → Bytes
unfolding encode_fixed64
put_fixed64 dst val = dst ++ encode_fixed64 val
