-- ===== src/Sst/Finish.antt =====
-- The file that `SSTableBuilder` leaves: src/table/sstable_builder.cpp.
use tiny_db.Prelude.{
  ◌+◌, ◌%◌, ◌^◌, ◌<◌, ◌≡◌, ◌≢◌, refl, ap, ap₂, ◌∙◌, false, some, List, [], ◌++◌, append_assoc,
  append-nil, Bytes, All, length, ltb, ◌==◌, arith, map,
}
use tiny_db.File.{System, WritesAll, Writer, open_writer}
use tiny_db.File.Writing.{contents, IsValid, append_lem, flush_lem}
use tiny_db.Bloom.{bits_size}
use tiny_db.Blocks.{add_footer, FilterBlock, filter_exists}
use tiny_db.Sst.Builder.{Builder, new_builder, finish_sst, write_last}
use tiny_db.Sst.Parser.{IndexBlock}
use tiny_db.Sst.ParsedTable.{table_file}
use tiny_db.Sst.Layout.{IsLaid}
use tiny_db.Sst.Plan.{Entry, Chunk, plan, blocks_of, index_of, entries_of, IsReadable}
use tiny_db.Sst.Pieces.{add_footer-wrap, finish_filter_block-IsFiltered}

-- A table file of these entries: the data blocks that `plan` makes of them, the filter with the number
-- of its hash functions, the index of the blocks, and a footer that has the size and the place of the
-- filter and of the index.
pub record IsTable (file : Bytes) (entries : List Entry) : Type 0 where
  pub chunks : List Chunk
  pub filter : FilterBlock
  pub planned : plan entries [] [] 0 ≡ some chunks
  pub laid_out :
      file
      ≡ table_file
          (blocks_of chunks)
          filter.filter_policy.bits_array
          filter.filter_policy.hash_func_num
          (index_of chunks)
  pub found :
      All (λ key. filter_exists filter key ≡ some (ltb 0 (length key))) (map (λ e. e.0) entries)
  pub readable : All IsReadable chunks
  pub whole : entries_of chunks ≡ entries

pieces : Bytes → Bytes → Bytes → Bytes
pieces blocks filter index =
    blocks
    ++ (filter
        ++ (index
            ++ add_footer (record { size = length filter; offset = length blocks })
                (record { size = length index; offset = length blocks + length filter }) []))

module _ (os : System) (all : WritesAll os) where
  -- Three pieces, and all of it in the file.
  finish_writes :
      (w : Writer) (body x y z : Bytes)
      → contents w ≡ body
      → IsValid w
      → (w1 w2 w3 w4 w5 : Writer) × (tiny_db.File.append os w x false ≡ some w1)
        × (tiny_db.File.append os w1 y false ≡ some w2)
        × (tiny_db.File.append os w2 z false ≡ some w3)
        × (tiny_db.File.flush os w3 ≡ some w4)
        × (tiny_db.File.close os w4 ≡ some w5)
        × (w5.file ≡ body ++ (x ++ (y ++ z)))
  finish_writes w body x y z h v =
      let (w1, run1, holds1, v1, _) = append_lem os all w x false v in
      let (w2, run2, holds2, v2, _) = append_lem os all w1 y false v1 in
      let (w3, run3, holds3, v3, _) = append_lem os all w2 z false v2 in
      let (w4, run4, holds4, empty4) = flush_lem os all w3 v3 in
      let v4 : IsValid w4 = record { fits = omega (arith, ap length empty4) } in
      let (w5, run5, holds5, empty5) = flush_lem os all w4 v4 in
      (
        w1,
        w2,
        w3,
        w4,
        w5,
        run1,
        run2,
        run3,
        run4,
        unfold tiny_db.File.close in run5,
        holds5
            ∙ ap (λ c. w4.file ++ c) empty4
            ∙ append-nil w4.file
            ∙ holds4
            ∙ holds3
            ∙ ap (λ c. c ++ z) holds2
            ∙ ap (λ c. (c ++ y) ++ z) holds1
            ∙ ap (λ c. ((c ++ x) ++ y) ++ z) h
            ∙ append_assoc (body ++ x) y z
            ∙ append_assoc body x (y ++ z),
      )

  -- What is left after the last block: the filter, the index and the footer.
  pub finish-laid :
      (fresh : FilterBlock) (b b1 : Builder) (body : Bytes) (entries : List IndexBlock)
      → write_last os b ≡ some b1
      → IsLaid b1 body entries
      → b1.filter_block ≡ b.filter_block
      → 0 < length b1.index_data
      → bits_size b.filter_block.filter_policy.bits_array ≢ 0
      → (b' : Builder) × (f : FilterBlock) × (finish_sst os fresh b ≡ some b')
        × (b'.writer.file
            ≡ table_file body f.filter_policy.bits_array f.filter_policy.hash_func_num entries)
        × All (λ key. filter_exists f key ≡ some (ltb 0 (length key))) b.filter_block.key_data
  unfolding finish_sst pieces
  finish-laid fresh b b1 body entries run1 laid same has_index sized =
      let (f1, f2, filter1, filter2, f) = finish_filter_block-IsFiltered b.filter_block sized in
      let n = length b1.index_data in
      let offset = b1.filter_offset.offset in
      let footer : Bytes =
        add_footer (record { size = length f1.bytes; offset = offset })
          (record { size = n; offset = (offset + length f1.bytes) % 2 ^ 32 }) [] in
      let (w1, w2, w3, w4, w5, write1, write2, write3, flushed, closed, holds) =
        finish_writes b1.writer body f2.bytes b1.index_data footer laid.written laid.valid in
      let not_empty : (n == 0) ≡ false = ground (arith, has_index) in
      (
        record (new_builder fresh w5) { key_count = b1.key_count },
        f2,
        rw run1 (
            rw same (
              rw (filter1, filter2, write1, write2, not_empty)
                (rw (write3, flushed, closed) refl))),
        holds
            ∙ ap (λ x. body ++ (f2.bytes ++ (b1.index_data ++ x)))
                (add_footer-wrap (length f1.bytes) offset (length f2.bytes) (length body) n
                  f.same_length laid.at_end)
            ∙ ap₂ (λ x y. pieces body x y) f.stored laid.indexed,
        f.found,
      )
