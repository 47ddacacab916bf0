-- ===== src/Codec/Tests.antt =====
-- Concrete runs.
use tiny_db.Prelude.{◌≡◌, refl, [], ◌∷◌, some}
use tiny_db.Codec.{encode_fixed32, decode_fixed32}

encode_runs : encode_fixed32 0x12345678 ≡ 0x78 ∷ 0x56 ∷ 0x34 ∷ 0x12 ∷ []
unfolding encode_fixed32
encode_runs = refl

decode_runs : decode_fixed32 (0x78 ∷ 0x56 ∷ 0x34 ∷ 0x12 ∷ 9 ∷ []) ≡ some 0x12345678
unfolding decode_fixed32
decode_runs = refl
