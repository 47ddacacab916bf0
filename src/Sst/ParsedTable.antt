-- ===== src/Sst/ParsedTable.antt =====
-- A table file as src/table/sstable_builder.cpp lays it out, parsed by src/sstparser/sst_parser.cpp.
use tiny_db.Prelude.{
  ℕ, suc, ◌+◌, ◌-◌, ◌%◌, ◌^◌, ◌<◌, ◌≡◌, ◌≢◌, refl, sym, ap, ap₂, ◌∙◌, false, Option, none, some,
  List, [], ◌∷◌, ◌++◌, append_assoc, append-nil, Bytes, All, length, length-append, drop,
  drop-append, ltb, leb, ◌==◌, ◌>>=◌, arith,
}
use tiny_db.Codec.{encode_fixed32, encode_fixed64, put_fixed32, put_fixed64, decode_fixed64}
use tiny_db.Codec.RoundTrip.{length-encode_fixed32, length-encode_fixed64, decode-encode_fixed64}
use tiny_db.Bloom.{Filter, create_filter2}
use tiny_db.Blocks.{OffsetInfo, offset_word, add_footer}
use tiny_db.Wal.{int32}
use tiny_db.Sst.Parser.{
  IndexBlock, Parser, info_of, cut, read_all, rounds, parse_header, parse_index, parse_filter,
  parse,
}
use tiny_db.Sst.Parsing.{
  index_bytes, IsEntry, info-word, length-index_bytes, drop-behind, cut-behind,
  parse_entries-index_bytes,
}

-- The bytes have no newline.
abbrev pub HasNoNewline : Bytes → Type 0
HasNoNewline = All (λ (b : ℕ). b ≢ 10)

read_all-same : (file : Bytes) → HasNoNewline file → read_all file ≡ file
unfolding read_all
read_all-same [] h = refl
read_all-same (b ∷ file) (other, h) =
    let kept : (b == 10) ≡ false = ground arith in rw (kept, read_all-same file h) refl

decode-footer_word :
    (info : OffsetInfo) (rest : Bytes)
    → info.size < 2 ^ 32
    → info.offset < 2 ^ 32
    → (decode_fixed64 (encode_fixed64 (offset_word info) ++ rest) >>= λ word. some (info_of word))
      ≡ some info
decode-footer_word info rest small small' =
    rw (decode-encode_fixed64 (offset_word info) rest) (ap some (info-word info small small'))

abbrev pub IsSmall : OffsetInfo → Type 0
IsSmall info = (info.size < 2 ^ 32) × (info.offset < 2 ^ 32)

parse_header-add_footer :
    (content front : Bytes) (meta index : OffsetInfo)
    → content ≡ front ++ add_footer meta index []
    → IsSmall meta
    → IsSmall index
    → parse_header content ≡ some (record { meta_block = meta; index_block = index })
unfolding parse_header add_footer put_fixed64
parse_header-add_footer content front meta index e (small, small') (small_i, small_i') =
    let first = encode_fixed64 (offset_word meta) in
    let second = encode_fixed64 (offset_word index) in
    let size : length content ≡ length front + 16 = omega (
      arith,
      ap length e,
      length-append front (first ++ second),
      length-append first second,
      length-encode_fixed64 (offset_word meta),
      length-encode_fixed64 (offset_word index),
    ) in
    let long : ltb (length content) 16 ≡ false = ground (arith, size) in
    let at_meta : drop (length content - 16) content ≡ first ++ second =
      drop-behind front (first ++ second) (length content - 16) 0 e (omega (arith, size)) in
    let at_index : drop (length content - 8) content ≡ second =
      drop-behind front (first ++ second) (length content - 8) 8 e (omega (arith, size))
      ∙ drop-append 8 first second (length-encode_fixed64 (offset_word meta)) in
    let word_meta = ap decode_fixed64 at_meta ∙ decode-encode_fixed64 (offset_word meta) second in
    let word_index =
      ap decode_fixed64 (at_index ∙ sym (append-nil second))
      ∙ decode-encode_fixed64 (offset_word index) [] in
    rw (long, word_meta, word_index)
      (ap₂ (λ a b. some (record { meta_block = a; index_block = b })) (info-word meta small small')
        (info-word index small_i small_i'))

parse_index-index_bytes :
    (content front rest : Bytes) (entries : List IndexBlock)
    → content ≡ front ++ (index_bytes entries ++ rest)
    → All IsEntry entries
    → length content < 2 ^ 31
    → 0 < length (index_bytes entries)
    → parse_index content (record { size = length (index_bytes entries); offset = length front })
      ≡ some entries
unfolding parse_index
parse_index-index_bytes content front rest entries e h small something =
    let n = length (index_bytes entries) in
    let size : length content ≡ length front + (n + length rest) = omega (
      arith,
      ap length e,
      length-append front (index_bytes entries ++ rest),
      length-append (index_bytes entries) rest,
    ) in
    let not_empty : (n == 0) ≡ false = ground (arith, something) in
    let positive : leb (2 ^ 31) (length front) ≡ false = ground (arith, size, small) in
    let positive' : leb (2 ^ 31) n ≡ false = ground (arith, size, small) in
    rw (not_empty, positive, positive')
      (parse_entries-index_bytes (suc (length content)) entries content front rest (length front)
        (length front + n) e refl refl h (omega (arith, size, length-index_bytes entries)))

-- The address `START + SIZE - 4` of the filter, as the bits of an `int`.
parse_filter-bits :
    (memory : ℕ → Option ℕ) (content front bits rest : Bytes) (num : ℕ)
    → content ≡ front ++ (put_fixed32 bits num ++ rest)
    → length content < 2 ^ 31
    → parse_filter memory content
        (record { size = length (put_fixed32 bits num); offset = length front })
      ≡ (memory (length front + length bits) >>= λ h. some (create_filter2 (rounds (int32 h)) bits))
unfolding parse_filter put_fixed32
parse_filter-bits memory content front bits rest num e small =
    let word = encode_fixed32 num in
    let size : length (bits ++ word) ≡ length bits + 4 =
      omega (arith, length-append bits word, length-encode_fixed32 num) in
    let shape : content ≡ front ++ (bits ++ (word ++ rest)) =
      e ∙ ap (λ t. front ++ t) (append_assoc bits word rest) in
    let total : length content ≡ length front + (length bits + 4 + length rest) = omega (
      arith,
      ap length e,
      length-append front ((bits ++ word) ++ rest),
      length-append (bits ++ word) rest,
      size,
    ) in
    let address : (length front + length (bits ++ word) + 2 ^ 32 - 4) % 2 ^ 32
        ≡ length front + length bits =
      omega (arith, size, total, small) in
    let positive : leb (2 ^ 31) (length front) ≡ false = ground (arith, total, small) in
    let positive' : leb (2 ^ 31) (length (bits ++ word)) ≡ false =
      ground (arith, total, size, small) in
    let enough : ltb (length (bits ++ word)) 4 ≡ false = ground (arith, size) in
    let net : length (bits ++ word) - 4 ≡ length bits = omega (arith, size) in
    let read : cut content (length front) (length bits) ≡ some bits =
      cut-behind front (bits ++ (word ++ rest)) (length front) 0 bits (word ++ rest) shape
        (omega arith) refl (omega arith) in
    rw (address, positive, positive', enough, net) (rw read refl)

bind_assoc {ℓ} :
    {A B C : Type ℓ} (x : Option A) (f : A → Option B) (g : B → Option C)
    → (x >>= f >>= g) ≡ (x >>= λ a. f a >>= g)
bind_assoc none f g = refl
bind_assoc (some a) f g = refl

abbrev with_filter : Bytes → OffsetInfo → OffsetInfo → List IndexBlock → Filter → Option Parser
with_filter content meta index entries filter = some (record {
  filter_policy = filter;
  index_blocks = entries;
  sst_content = content;
  header = record { meta_block = meta; index_block = index };
})

-- A file of data blocks, a filter with its number of hash functions, an index, and a footer with the
-- sizes and places of the filter and of the index.
abbrev pub table_file : Bytes → Bytes → ℕ → List IndexBlock → Bytes
table_file blocks bits num entries =
    let filter = put_fixed32 bits num in
    let index = index_bytes entries in
    blocks
    ++ (filter
        ++ (index
            ++ add_footer (record { size = length filter; offset = length blocks })
                (record { size = length index; offset = length blocks + length filter }) []))

-- What is parsed from it, where `h` is read for the number of hash functions.
abbrev pub table_parser : Bytes → Bytes → ℕ → List IndexBlock → ℕ → Parser
table_parser blocks bits num entries h = record {
  filter_policy = create_filter2 (rounds (int32 h)) bits;
  index_blocks = entries;
  sst_content = table_file blocks bits num entries;
  header = record {
    meta_block = record { size = length (put_fixed32 bits num); offset = length blocks };
    index_block = record {
      size = length (index_bytes entries);
      offset = length blocks + length (put_fixed32 bits num);
    };
  };
}

-- `Parse` of a table file with at least one index entry, with no newline byte and of fewer than 2 ^ 31
-- bytes, whose index has 32-bit places: it faults exactly if there is nothing at the address that the
-- number of hash functions is read from, which is the place of that number in the file, and not in
-- memory. Else the index entries, the bits of the filter and the content are those of the file, and the
-- number is what was at that address.
pub parse-table_file :
    (memory : ℕ → Option ℕ) (blocks bits : Bytes) (num : ℕ) (entries : List IndexBlock)
    → HasNoNewline (table_file blocks bits num entries)
    → length (table_file blocks bits num entries) < 2 ^ 31
    → All IsEntry entries
    → 0 < length (index_bytes entries)
    → parse memory (table_file blocks bits num entries) ≡ (
        memory (length blocks + length bits) >>= λ h. some (table_parser blocks bits num entries h))
unfolding parse
parse-table_file memory blocks bits num entries plain small h something =
    let file = table_file blocks bits num entries in
    let filter = put_fixed32 bits num in
    let index = index_bytes entries in
    let meta_info : OffsetInfo = record { size = length filter; offset = length blocks } in
    let index_info : OffsetInfo = record {
      size = length index;
      offset = length blocks + length filter;
    } in
    let footer = add_footer meta_info index_info [] in
    let same : read_all file ≡ file = read_all-same file plain in
    let size : length file ≡ length blocks + (length filter + (length index + length footer)) =
      omega (
        arith,
        length-append blocks (filter ++ (index ++ footer)),
        length-append filter (index ++ footer),
        length-append index footer,
      ) in
    let front_size : length blocks + length filter ≡ length (blocks ++ filter) =
      omega (arith, length-append blocks filter) in
    let at_index : file ≡ (blocks ++ filter) ++ (index ++ footer) =
      sym (append_assoc blocks filter (index ++ footer)) in
    let at_footer : file ≡ (blocks ++ (filter ++ index)) ++ footer =
      ap (λ t. blocks ++ t) (sym (append_assoc filter index footer))
      ∙ sym (append_assoc blocks (filter ++ index) footer) in
    let header =
      parse_header-add_footer file (blocks ++ (filter ++ index)) meta_info index_info at_footer
        (omega (arith, size, small)) (omega (arith, size, small)) in
    let indexed : parse_index file index_info ≡ some entries =
      ap (λ n. parse_index file (record { size = length index; offset = n })) front_size
      ∙ parse_index-index_bytes file (blocks ++ filter) footer entries at_index h small something in
    rw (same, header)
      (rw (indexed, parse_filter-bits memory file blocks bits (index ++ footer) num refl small)
        (bind_assoc (memory (length blocks + length bits))
          (λ h. some (create_filter2 (rounds (int32 h)) bits))
          (with_filter file meta_info index_info entries)))
