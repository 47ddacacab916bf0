-- ===== src/Sst/Layout.antt =====
-- What `SSTableBuilder` writes to a file.
use tiny_db.Prelude.{
  ◌+◌, ◌%◌, ◌^◌, ◌<◌, ◌≡◌, refl, sym, ap, ◌∙◌, true, false, some, List, [], ◌∷◌, ◌++◌, append_assoc,
  append-nil, Bytes, length, length-append, ltb, lt→ltb, subst, arith, ℕ,
}
use tiny_db.File.{System, WritesAll, Writer}
use tiny_db.File.Writing.{contents, IsValid, append_lem}
use tiny_db.Blocks.{OffsetInfo, DataBlock, empty_block, finish_data_block, add_index}
use tiny_db.Sst.Parser.{IndexBlock}
use tiny_db.Sst.Parsing.{index_bytes}
use tiny_db.Sst.Builder.{Builder, write_block, write_last, find_shortest_key, bump_last}

index_bytes-snoc :
    (entries : List IndexBlock) (key : Bytes) (info : OffsetInfo)
    → index_bytes entries ++ add_index key info []
      ≡ index_bytes (entries ++ (record { shortest_key = key; offset_info = info } ∷ []))
index_bytes-snoc [] key info = sym (append-nil (add_index key info []))
index_bytes-snoc (e ∷ entries) key info =
    append_assoc (add_index e.shortest_key e.offset_info []) (index_bytes entries)
      (add_index key info [])
    ∙ ap (λ t. add_index e.shortest_key e.offset_info [] ++ t) (index_bytes-snoc entries key info)

-- All that was written is `body`, its length is known, and the index has these entries.
pub record Laid (w : Writer) (offset : ℕ) (index : Bytes) (body : Bytes) (entries : List IndexBlock)
    : Type 0 where
  pub written : contents w ≡ body
  pub valid : IsValid w
  pub at_end : offset ≡ length body % 2 ^ 32
  pub indexed : index ≡ index_bytes entries

abbrev pub IsLaid : Builder → Bytes → List IndexBlock → Type 0
IsLaid b body entries = Laid b.writer b.filter_offset.offset b.index_data body entries

abbrev pub entry : Bytes → ℕ → ℕ → IndexBlock
entry key size place = record {
  shortest_key = key;
  offset_info = record { size = size; offset = place };
}

-- One more block, and its entry.
Laid-block :
    (w w' : Writer) (offset place : ℕ) (index body block key : Bytes) (entries : List IndexBlock)
    → Laid w offset index body entries
    → contents w' ≡ contents w ++ block
    → IsValid w'
    → Laid w'
        ((offset + length block) % 2 ^ 32)
        (index ++ add_index key (record { size = length block; offset = place }) [])
        (body ++ block)
        (entries ++ (entry key (length block) place ∷ []))
Laid-block w w' offset place index body block key entries h holds v = record {
  written = holds ∙ ap (λ c. c ++ block) h.written;
  valid = v;
  at_end = omega (arith, h.at_end, length-append body block);
  indexed =
      ap (λ i. i ++ add_index key (record { size = length block; offset = place }) []) h.indexed
      ∙ index_bytes-snoc entries key (record { size = length block; offset = place });
}

module _ (os : System) (all : WritesAll os) where
  -- A full block: the builder begins an empty one, and the index names the place behind the block.
  pub write_block-IsLaid :
      (key shortest : Bytes) (b : Builder) (body : Bytes) (entries : List IndexBlock)
      → IsLaid b body entries
      → find_shortest_key b.pre_key key ≡ some shortest
      → (b' : Builder) × (write_block os key b ≡ some b')
        × IsLaid b' (body ++ (finish_data_block b.data_block).bytes) (
            entries
            ++ (entry shortest
                  (length (finish_data_block b.data_block).bytes)
                  ((length body + length (finish_data_block b.data_block).bytes) % 2 ^ 32)
                ∷ []))
        × (b'.data_block ≡ empty_block)
        × (b'.filter_block ≡ b.filter_block)
  unfolding write_block
  write_block-IsLaid key shortest b body entries h found =
      let block = (finish_data_block b.data_block).bytes in
      let (w, run, holds, v, _) = append_lem os all b.writer block false h.valid in
      let offset = (b.filter_offset.offset + length block) % 2 ^ 32 in
      let at : offset ≡ (length body + length block) % 2 ^ 32 = omega (arith, h.at_end) in
      (
        record b {
          data_block = empty_block;
          writer = w;
          filter_offset = record b.filter_offset { offset = offset };
          index_data =
              b.index_data
              ++ add_index shortest (record { size = length block; offset = offset }) [];
        },
        rw (run, found) refl,
        subst
            (λ place.
              Laid w offset
                (b.index_data
                  ++ add_index shortest (record { size = length block; offset = offset }) [])
                (body ++ block) (entries ++ (entry shortest (length block) place ∷ [])))
            at
            (Laid-block b.writer w b.filter_offset.offset offset b.index_data body block shortest
              entries h holds v),
        refl,
        refl,
      )

  -- The last block: the index names its beginning.
  pub write_last-IsLaid :
      (key : Bytes) (b : Builder) (body : Bytes) (entries : List IndexBlock)
      → IsLaid b body entries
      → 0 < length b.data_block.bytes
      → bump_last b.pre_key ≡ some key
      → (b' : Builder) × (write_last os b ≡ some b')
        × IsLaid b' (body ++ (finish_data_block b.data_block).bytes) (
            entries
            ++ (entry key (length (finish_data_block b.data_block).bytes) (length body % 2 ^ 32)
                ∷ []))
        × (b'.filter_block ≡ b.filter_block)
  unfolding write_last
  write_last-IsLaid key b body entries h some_left found =
      let block = (finish_data_block b.data_block).bytes in
      let left : ltb 0 (length b.data_block.bytes) ≡ true = lt→ltb _ _ some_left in
      let (w, run, holds, v, _) = append_lem os all b.writer block false h.valid in
      let place = b.filter_offset.offset in
      (
        record b {
          data_block = empty_block;
          writer = w;
          filter_offset = record b.filter_offset { offset = (place + length block) % 2 ^ 32 };
          index_data =
              b.index_data ++ add_index key (record { size = length block; offset = place }) [];
          pre_key = key;
        },
        rw (left, run, found) refl,
        subst
            (λ at.
              Laid w ((place + length block) % 2 ^ 32)
                (b.index_data ++ add_index key (record { size = length block; offset = place }) [])
                (body ++ block) (entries ++ (entry key (length block) at ∷ [])))
            h.at_end
            (Laid-block b.writer w place place b.index_data body block key entries h holds v),
        refl,
      )

  pub write_last_empty : (b : Builder) → b.data_block ≡ empty_block → write_last os b ≡ some b
  unfolding write_last
  write_last_empty b empty =
      let nothing : ltb 0 (length b.data_block.bytes) ≡ false =
        ap (λ (d : DataBlock). ltb 0 (length d.bytes)) empty in
      rw nothing refl
