-- ===== src/Sst/Tests.antt =====
-- The properties of the table files of src/table and src/sstparser at concrete tables.
use tiny_db.Prelude.{
  ℕ, ◌≡◌, ◌⊎◌, refl, true, false, Option, none, some, List, [], ◌∷◌, ◌++◌, Bytes, All, length, ltb,
  take, arith,
}
use tiny_db.Order.ByteString.{bytes_less}
use tiny_db.File.{open_writer}
use tiny_db.File.Disk.{disk, disk-WritesAll}
use tiny_db.Bloom
use tiny_db.Bloom.{zeros}
use tiny_db.Blocks.{FilterBlock}
use tiny_db.Sst.Builder.{Builder, new_builder, finish_sst, find_shortest_key}
use tiny_db.Sst.Build.{add_all, build-IsTable}
use tiny_db.Sst.Finish.{IsTable}
use tiny_db.Sst.Parser.{IndexBlock, Parser, parse, seek, find_key_db_index, block_at}
use tiny_db.Sst.ParsedTable.{table_file, table_parser, parse-table_file}
use tiny_db.Sst.Plan.{Entry, plan, chunk}
use tiny_db.Sst.Found.{IsHit, seek-IsHit}
use tiny_db.Sst.Lookup.{NoneAbove, find_key_db_index_lem, find_shortest_key_lem}

abbrev first_filter : FilterBlock
first_filter = record {
  filter_policy = record { hash_func_num = 3; bits_array = zeros 3 };
  key_data = [];
  bytes = [];
}

-- The second value, of 4096 bytes, fills a block: the index names the place behind it, and the last
-- block, of one record, begins there.
abbrev long_value : Bytes
long_value = zeros 4096

abbrev three_entries : List Entry
three_entries = (5 ∷ [], []) ∷ (6 ∷ [], long_value) ∷ (7 ∷ [], []) ∷ []

build-IsTable_example :
    (b b' : Builder) × (add_all disk disk-WritesAll three_entries
        (new_builder first_filter (open_writer [] false))
      ≡ some b)
    × (finish_sst disk first_filter b ≡ some b')
    × IsTable b'.writer.file three_entries
build-IsTable_example =
    build-IsTable disk disk-WritesAll first_filter first_filter (5 ∷ []) []
      ((6 ∷ [], long_value) ∷ (7 ∷ [], []) ∷ [])
      (
        (omega arith, omega arith, omega arith),
        ((omega arith, omega arith, omega arith), ((omega arith, omega arith, omega arith), tt)),
      )
      (omega arith) ((refl, (refl, tt)), ((refl, tt), (tt, tt))) refl (λ e. omega arith)

two_blocks :
    plan three_entries [] [] 0
    ≡ some (
        chunk ((5 ∷ [], []) ∷ (6 ∷ [], long_value) ∷ []) (6 ∷ []) 4138
        ∷ chunk ((7 ∷ [], []) ∷ []) (8 ∷ []) 4138
        ∷ [])
unfolding plan find_shortest_key tiny_db.Sst.Builder.same_positions tiny_db.Sst.Builder.bump_last
    tiny_db.Blocks.add_record tiny_db.Blocks.finish_data_block tiny_db.Blocks.put_restarts
    tiny_db.Codec.put_fixed32 tiny_db.Codec.put_fixed64 tiny_db.Blocks.shared_key_len
two_blocks = refl

abbrev one_block : List IndexBlock
one_block = record { shortest_key = 6 ∷ []; offset_info = record { size = 3; offset = 0 } } ∷ []

-- The process has 1 everywhere.
abbrev memory : ℕ → Option ℕ
memory address = some 1

abbrev small_file : Bytes
small_file = table_file (1 ∷ 2 ∷ 3 ∷ []) (255 ∷ []) 1 one_block

parse-table_file_example :
    parse memory small_file ≡ some (table_parser (1 ∷ 2 ∷ 3 ∷ []) (255 ∷ []) 1 one_block 1)
unfolding tiny_db.Codec.put_fixed32 tiny_db.Blocks.add_index tiny_db.Codec.put_fixed64
    tiny_db.Blocks.add_footer
parse-table_file_example =
    parse-table_file memory (1 ∷ 2 ∷ 3 ∷ []) (255 ∷ []) 1 one_block (omega arith) (omega arith)
      (omega arith) (omega arith)

abbrev three_blocks : List IndexBlock
three_blocks =
    record { shortest_key = 3 ∷ []; offset_info = record { size = 9; offset = 0 } }
    ∷ record { shortest_key = 6 ∷ []; offset_info = record { size = 9; offset = 9 } }
    ∷ record { shortest_key = 8 ∷ []; offset_info = record { size = 9; offset = 18 } }
    ∷ []

find_key_db_index_lem_example :
    ((find_key_db_index (3 ∷ []) three_blocks ≡ none) × NoneAbove (3 ∷ []) three_blocks)
    ⊎ ((i : ℕ) × (block : IndexBlock) × (find_key_db_index (3 ∷ []) three_blocks ≡ some i)
        × (block_at three_blocks i ≡ some block)
        × (bytes_less (3 ∷ []) block.shortest_key ≡ true)
        × NoneAbove (3 ∷ []) (take i three_blocks))
find_key_db_index_lem_example = find_key_db_index_lem (3 ∷ []) three_blocks

find_shortest_key_lem_example :
    (bytes_less (1 ∷ 2 ∷ 3 ∷ []) (1 ∷ 3 ∷ []) ≡ true)
    × (bytes_less (1 ∷ 5 ∷ []) (1 ∷ 3 ∷ []) ≡ false)
unfolding find_shortest_key tiny_db.Sst.Builder.same_positions tiny_db.Sst.Builder.bump_last
find_shortest_key_lem_example =
    find_shortest_key_lem (1 ∷ 2 ∷ 3 ∷ []) (1 ∷ 5 ∷ []) (1 ∷ 3 ∷ []) refl (λ e. omega arith)
      (omega arith)

-- One group: the record of the full key 1 0 0 0, and the record of the key 1 5, which the parser finds
-- behind it, with the value 9. Behind the group stand its restart point, and the number and the place
-- of the restart points.
abbrev group_content : Bytes
group_content =
    (0 ∷ 0 ∷ 0 ∷ 0 ∷ 4 ∷ 0 ∷ 0 ∷ 0 ∷ 0 ∷ 0 ∷ 0 ∷ 0 ∷ [])
    ++ (1 ∷ 0 ∷ 0 ∷ 0 ∷ 0 ∷ 0 ∷ 0 ∷ 0 ∷ 0 ∷ 0 ∷ 0 ∷ 0 ∷ 5 ∷ 9 ∷ [])
    ++ (2 ∷ 0 ∷ 0 ∷ 0 ∷ 26 ∷ 0 ∷ 0 ∷ 0 ∷ 0 ∷ 0 ∷ 0 ∷ 0 ∷ [])
    ++ (1 ∷ 0 ∷ 0 ∷ 0 ∷ 0 ∷ 0 ∷ 0 ∷ 0 ∷ 26 ∷ 0 ∷ 0 ∷ 0 ∷ [])

abbrev group_parser : Parser
group_parser = record {
  filter_policy = record { hash_func_num = 1; bits_array = 255 ∷ [] };
  index_blocks =
      record { shortest_key = 6 ∷ []; offset_info = record { size = 50; offset = 0 } } ∷ [];
  sst_content = group_content;
  header = record {
    meta_block = record { size = 0; offset = 0 };
    index_block = record { size = 0; offset = 0 };
  };
}

group_hit : seek group_parser (1 ∷ 5 ∷ []) ≡ some (some (9 ∷ []))
unfolding seek find_key_db_index Bloom.exists Bloom.test_bits Bloom.murmur_hash2 Bloom.mix_bytes
    tiny_db.Sst.Parser.find_key_in_db tiny_db.Prelude.Int.◌-ℤ◌ tiny_db.Prelude.Int.◌+ℤ◌
    tiny_db.Codec.decode_fixed32 tiny_db.Codec.decode_fixed64 tiny_db.Sst.Parser.last_restart
    tiny_db.Sst.Parser.find_full_key_by_rp tiny_db.Sst.Parser.scan_records
    tiny_db.Sst.Parser.parse_record
group_hit = refl

seek-IsHit_example : IsHit group_parser (1 ∷ 5 ∷ []) (9 ∷ [])
seek-IsHit_example = seek-IsHit group_parser (1 ∷ 5 ∷ []) (9 ∷ []) group_hit
