-- ===== src/Blocks/Tests.antt =====
-- The blocks of src/table at concrete records.
use tiny_db.Prelude.{◌≡◌, refl, some, [], ◌∷◌, Bytes, arith}
use tiny_db.Codec.{decode_fixed64}
use tiny_db.Bloom.{zeros}
use tiny_db.Blocks.{OffsetInfo, empty_block, add_record, shared_key_len, FilterBlock}
use tiny_db.Blocks.Records.{decode_records, add_records, decode-add_records}

abbrev this_key : Bytes
this_key = 1 ∷ 2 ∷ 4 ∷ []

abbrev previous_key : Bytes
previous_key = 1 ∷ 2 ∷ 3 ∷ 5 ∷ []

abbrev meta : OffsetInfo
meta = record { size = 40; offset = 100 }

abbrev index : OffsetInfo
index = record { size = 7; offset = 140 }

abbrev two_keys : FilterBlock
two_keys = record {
  filter_policy = record { hash_func_num = 3; bits_array = zeros 3 };
  key_data = (1 ∷ 2 ∷ []) ∷ (3 ∷ []) ∷ [];
  bytes = [];
}

-- The second record shares two bytes with the first.
add_record_runs :
    (add_record (7 ∷ 8 ∷ 9 ∷ []) (5 ∷ []) (add_record (7 ∷ 8 ∷ []) (4 ∷ []) empty_block)).bytes
    ≡ 0 ∷ 0 ∷ 0 ∷ 0 ∷ 2 ∷ 0 ∷ 0 ∷ 0 ∷ 1 ∷ 0 ∷ 0 ∷ 0 ∷ 7 ∷ 8 ∷ 4 ∷ 2 ∷ 0 ∷ 0 ∷ 0 ∷ 1 ∷ 0 ∷ 0 ∷ 0 ∷ 1
      ∷ 0 ∷ 0 ∷ 0 ∷ 9 ∷ 5 ∷ []
unfolding add_record tiny_db.Codec.put_fixed32 shared_key_len
add_record_runs = refl

-- The second record shares two bytes with the first.
decode-add_records_example :
    decode_records 3 []
      (add_records (((7 ∷ 8 ∷ []), (4 ∷ [])) ∷ ((7 ∷ 8 ∷ 9 ∷ []), (5 ∷ [])) ∷ []) empty_block).bytes
    ≡ some (((7 ∷ 8 ∷ []), (4 ∷ [])) ∷ ((7 ∷ 8 ∷ 9 ∷ []), (5 ∷ [])) ∷ [])
decode-add_records_example =
    decode-add_records (((7 ∷ 8 ∷ []), (4 ∷ [])) ∷ ((7 ∷ 8 ∷ 9 ∷ []), (5 ∷ [])) ∷ []) (omega arith)
