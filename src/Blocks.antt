-- ===== src/Blocks.antt =====
-- The blocks of a table file: src/table/data_block_builder.cpp, src/table/index_block_builder.cpp,
-- src/table/footer_builder.cpp and src/table/filter_block_builder.cpp, with src/db/offset_info.h.
pub mod Content
pub mod Records
mod Tests
use tiny_db.Prelude.{
  ℕ, zero, suc, ◌+◌, ◌-◌, ◌*◌, ◌/◌, ◌%◌, ◌^◌, Bool, true, false, Option, none, some, List, [], ◌∷◌,
  ◌++◌, Bytes, length, drop, ◌==◌, ◌>>=◌, if◌then◌else◌,
}
use tiny_db.Codec.{put_fixed32, put_fixed64}
use tiny_db.Bloom
use tiny_db.Bloom.{Filter, Formulas}
use tiny_db.Prelude.Int.{ℤ}

-- `OffsetInfo`, of `int32_t`; a value stands for its 32 bits.
pub record OffsetInfo : Type 0 where
  pub size : ℕ
  pub offset : ℕ

-- Its 8 bytes as a `uint64_t`.
abbrev pub offset_word : OffsetInfo → ℕ
offset_word info = info.size % 2 ^ 32 + info.offset % 2 ^ 32 * 2 ^ 32

abbrev pub restart_interval : ℕ
restart_interval = 16

-- `DataBlockBuilder`
pub record DataBlock : Type 0 where
  pub record_group_offset : List ℕ
  pub pre_key : Bytes
  pub bytes : Bytes
  pub record_num : ℕ

-- A new builder, and one after `clear`.
abbrev pub empty_block : DataBlock
empty_block = record { record_group_offset = []; pre_key = []; bytes = []; record_num = 0 }

-- The loop over the bytes that both keys begin with.
unfoldable pub shared_key_len : Bytes → Bytes → ℕ
shared_key_len (a ∷ key) (b ∷ pre_key) =
    let more = shared_key_len key pre_key in if a == b then suc more else 0
shared_key_len _ _ = 0

-- One record behind the bytes `dst`; `_data` of the source is `bytes` here.
abbrev pub put_record : Bytes → ℕ → Bytes → Bytes → Bytes
put_record dst shared key value =
    put_fixed32 (put_fixed32 (put_fixed32 dst shared) (length key - shared)) (length value)
    ++ drop shared key
    ++ value

-- `DataBlockBuilder::add`
unfoldable pub add_record : Bytes → Bytes → DataBlock → DataBlock
add_record [] value b = b
add_record (k ∷ rest) value b =
    let key : Bytes = k ∷ rest in
    let need_fullkey = b.record_num % restart_interval == 0 in
    record {
      record_group_offset =
          if need_fullkey
          then b.record_group_offset ++ (length b.bytes ∷ [])
          else b.record_group_offset;
      pre_key = key;
      bytes =
          put_record b.bytes (if need_fullkey then 0 else shared_key_len key b.pre_key) key value;
      record_num = b.record_num + 1;
    }

-- The loop of `finish_data_block`.
unfoldable pub put_restarts : Bytes → List ℕ → ℕ → ℕ → Bytes
put_restarts dst [] last_offset record_num = dst
put_restarts dst (o ∷ []) last_offset record_num =
    put_fixed64 (put_fixed32 dst (record_num % restart_interval))
      (offset_word (record { size = last_offset - o; offset = o }))
put_restarts dst (o ∷ next ∷ rest) last_offset record_num =
    put_restarts
      (put_fixed64 (put_fixed32 dst restart_interval)
        (offset_word (record { size = next - o; offset = o })))
      (next ∷ rest) last_offset record_num

-- `finish_data_block`. `static_cast<int>((record_num - 0.5) / 16) + 1` is `(record_num - 1) / 16 + 1`,
-- and 1 for 0 records.
unfoldable pub finish_data_block : DataBlock → DataBlock
finish_data_block b = record b {
  bytes =
      put_fixed32 (put_restarts b.bytes b.record_group_offset (length b.bytes) b.record_num)
        ((b.record_num - 1) / restart_interval + 1);
}

-- `IndexBlockBuilder::add`
unfoldable pub add_index : Bytes → OffsetInfo → Bytes → Bytes
add_index shortest_key info dst =
    put_fixed64 (put_fixed32 dst (length shortest_key) ++ shortest_key) (offset_word info)

-- `FooterBuilder::add`
unfoldable pub add_footer : OffsetInfo → OffsetInfo → Bytes → Bytes
add_footer meta index dst = put_fixed64 (put_fixed64 dst (offset_word meta)) (offset_word index)

-- `FilterBlockBuilder`
pub record FilterBlock : Type 0 where
  pub filter_policy : Filter
  pub key_data : List Bytes
  pub bytes : Bytes

-- `FilterBlockBuilder(keys_num, false_positive)`; `none` is its assertion, or a fault of the filter.
unfoldable pub new_filter_block :
    {F : Type 0} → Formulas F → (F → Bool) → ℤ → F → Option FilterBlock
new_filter_block formulas not_negative keys_num false_positive =
    if not_negative false_positive
    then (Bloom.new_filter formulas keys_num false_positive >>= λ filter.
        some (record { filter_policy = filter; key_data = []; bytes = [] }))
    else none

unfoldable pub add_key : Bytes → FilterBlock → FilterBlock
add_key [] f = f
add_key (b ∷ key) f = record f { key_data = f.key_data ++ ((b ∷ key) ∷ []) }

-- `none` is a division by 0.
unfoldable pub finish_filter_block : FilterBlock → Option FilterBlock
finish_filter_block f = Bloom.create_filter f.filter_policy f.key_data >>= λ filter.
    some (record f {
      filter_policy = filter;
      bytes = put_fixed32 filter.bits_array filter.hash_func_num;
    })

abbrev pub filter_exists : FilterBlock → Bytes → Option Bool
filter_exists f key = Bloom.exists f.filter_policy key
