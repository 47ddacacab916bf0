-- ===== src/Sst/Builder.antt =====
-- `SSTableBuilder` of src/table/sstable_builder.h and src/table/sstable_builder.cpp.
use tiny_db.Prelude.{
  ℕ, suc, ◌+◌, ◌%◌, ◌^◌, Bool, true, false, ◌||◌, not, Option, none, some, [], ◌∷◌, ◌++◌, Bytes,
  length, take, ltb, ◌==◌, ◌>>=◌, if◌then◌else◌,
}
use tiny_db.Order.ByteString.{bytes_less}
use tiny_db.File
use tiny_db.File.{System, Writer}
use tiny_db.Blocks.{
  OffsetInfo, DataBlock, empty_block, add_record, finish_data_block, add_index, add_footer,
  FilterBlock, add_key, finish_filter_block,
}

abbrev pub max_data_block_size : ℕ
max_data_block_size = 4096

-- `SSTableBuilder`. The builders of index entries and of the footer are empty between two calls, and
-- nothing reads `pre_offset_info`. A member named `_data` is `bytes` here, as in the blocks.
pub record Builder : Type 0 where
  pub data_block : DataBlock
  pub filter_block : FilterBlock
  pub writer : Writer
  pub filter_offset : OffsetInfo
  pub index_offset : OffsetInfo
  pub index_data : Bytes
  pub key_count : ℕ
  pub pre_key : Bytes

abbrev pub no_offset : OffsetInfo
no_offset = record { size = 0; offset = 0 }

-- The constructor, over the new filter.
abbrev pub new_builder : FilterBlock → Writer → Builder
new_builder filter writer = record {
  data_block = empty_block;
  filter_block = filter;
  writer = writer;
  filter_offset = no_offset;
  index_offset = no_offset;
  index_data = [];
  key_count = 0;
  pre_key = [];
}

-- The positions at which both keys have the same byte.
unfoldable pub same_positions : Bytes → Bytes → ℕ
same_positions (a ∷ key1) (b ∷ key2) =
    let rest = same_positions key1 key2 in if a == b then suc rest else rest
same_positions _ _ = 0

-- `back() += 1`; `none` is the last byte of an empty string.
unfoldable pub bump_last : Bytes → Option Bytes
bump_last [] = none
bump_last (b ∷ []) = some (((b + 1) % 256) ∷ [])
bump_last (b ∷ c ∷ bytes) = bump_last (c ∷ bytes) >>= λ rest. some (b ∷ rest)

abbrev pub is_empty : Bytes → Bool
is_empty [] = true
is_empty (b ∷ bytes) = false

-- `none` is a failed assertion.
unfoldable pub find_shortest_key : Bytes → Bytes → Option Bytes
find_shortest_key key1 key2 =
    if is_empty key1 || is_empty key2 || not (bytes_less key1 key2)
    then none
    else (let cnt = same_positions key1 key2 in
        if length key1 == cnt then some (key1 ++ (32 ∷ [])) else bump_last (take (suc cnt) key1))

-- `add` once the data block is over its limit: it goes to the file. `none` is a failed assertion.
unfoldable pub write_block : System → Bytes → Builder → Option Builder
write_block os key b =
    let bytes = (finish_data_block b.data_block).bytes in
    File.append os b.writer bytes false >>= λ w.
    let offset = (b.filter_offset.offset + length bytes) % 2 ^ 32 in
    find_shortest_key b.pre_key key >>= λ shortest_key. some (record b {
      data_block = empty_block;
      writer = w;
      filter_offset = record b.filter_offset { offset = offset };
      index_data =
          b.index_data
          ++ add_index shortest_key (record { size = length bytes; offset = offset }) [];
    })

unfoldable pub add : System → Bytes → Bytes → Builder → Option Builder
add os [] val b = some b
add os (k ∷ rest) val b =
    let key : Bytes = k ∷ rest in
    let b1 = record b {
      filter_block = add_key key b.filter_block;
      data_block = add_record key val b.data_block;
      key_count = b.key_count + 1;
    } in
    (if ltb max_data_block_size (length b1.data_block.bytes)
      then write_block os key b1
      else some b1)
    >>= λ b2. some (record b2 { pre_key = key })

-- `finish_sst` on what is left in the data block.
unfoldable pub write_last : System → Builder → Option Builder
write_last os b =
    let bytes = (finish_data_block b.data_block).bytes in
    if ltb 0 (length b.data_block.bytes)
    then (File.append os b.writer bytes false >>= λ w. bump_last b.pre_key >>= λ pre_key.
        some (record b {
          data_block = empty_block;
          writer = w;
          filter_offset = record b.filter_offset {
            offset = (b.filter_offset.offset + length bytes) % 2 ^ 32;
          };
          index_data =
              b.index_data
              ++ add_index pre_key (record { size = length bytes; offset = b.filter_offset.offset })
                  [];
          pre_key = pre_key;
        }))
    else some b

-- `finish_sst`, with the filter that the builder begins anew with.
unfoldable pub finish_sst : System → FilterBlock → Builder → Option Builder
finish_sst os fresh b = write_last os b >>= λ b1. finish_filter_block b1.filter_block >>= λ f1.
    finish_filter_block f1 >>= λ f2. File.append os b1.writer f2.bytes false >>= λ w1.
    File.append os w1 b1.index_data false >>= λ w2.
    if length b1.index_data == 0
    then none
    else (let meta : OffsetInfo = record {
      size = length f1.bytes;
      offset = b1.filter_offset.offset;
    } in
        let index : OffsetInfo = record {
          size = length b1.index_data;
          offset = (meta.offset + meta.size) % 2 ^ 32;
        } in
        File.append os w2 (add_footer meta index []) false >>= λ w3. File.flush os w3 >>= λ w4.
        File.close os w4 >>= λ w5.
        some (record (new_builder fresh w5) { key_count = b1.key_count }))
