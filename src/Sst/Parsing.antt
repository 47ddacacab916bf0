-- ===== src/Sst/Parsing.antt =====
-- What `SSTParser::Parse` finds in a table file.
use tiny_db.Prelude.{
  ℕ, zero, suc, ◌+◌, ◌/◌, ◌%◌, ◌^◌, ◌≤◌, ◌<◌, ◌≡◌, refl, sym, ap, ap₂, ◌∙◌, true, false, some, List,
  [], ◌∷◌, ◌++◌, append_assoc, append-nil, Bytes, All, length, length-append, take, drop,
  length-drop, drop-append, drop-append_more, take-append, ltb, lt→ltb, ◌==◌, arith,
}
use tiny_db.Codec.{
  encode_fixed32, encode_fixed64, put_fixed32, put_fixed64, decode_fixed32, decode_fixed64,
}
use tiny_db.Codec.RoundTrip.{
  length-encode_fixed32, length-encode_fixed64, decode-encode_fixed32, decode-encode_fixed64,
}
use tiny_db.Blocks.{OffsetInfo, offset_word, add_index}
use tiny_db.Sst.Parser.{IndexBlock, info_of, cut, parse_entries}

-- The entries of an index, one behind the other.
abbrev pub index_bytes : List IndexBlock → Bytes
index_bytes [] = []
index_bytes (e ∷ entries) = add_index e.shortest_key e.offset_info [] ++ index_bytes entries

-- Both numbers are 32-bit, and the key's size is an `int`.
abbrev pub IsEntry : IndexBlock → Type 0
IsEntry e =
    (length e.shortest_key < 2 ^ 31)
    × (e.offset_info.size < 2 ^ 32)
    × (e.offset_info.offset < 2 ^ 32)

pub info-word :
    (info : OffsetInfo)
    → info.size < 2 ^ 32
    → info.offset < 2 ^ 32
    → info_of (offset_word info % 2 ^ 64) ≡ info
info-word info small small' =
    let size : offset_word info % 2 ^ 64 % 2 ^ 32 ≡ info.size = omega arith in
    let offset : offset_word info % 2 ^ 64 / 2 ^ 32 ≡ info.offset = omega arith in
    ap₂ (λ a b. record { size = a; offset = b }) size offset

-- An entry and what stands behind it.
add_index-rest :
    (key rest : Bytes) (info : OffsetInfo)
    → add_index key info [] ++ rest
      ≡ encode_fixed32 (length key) ++ (key ++ (encode_fixed64 (offset_word info) ++ rest))
unfolding add_index put_fixed64 put_fixed32
add_index-rest key rest info =
    append_assoc (encode_fixed32 (length key) ++ key) (encode_fixed64 (offset_word info)) rest
    ∙ append_assoc (encode_fixed32 (length key)) key (encode_fixed64 (offset_word info) ++ rest)

pub length-entry :
    (key : Bytes) (info : OffsetInfo) → length (add_index key info []) ≡ 12 + length key
length-entry key info = omega (
  arith,
  ap length (sym (append-nil (add_index key info [])) ∙ add_index-rest key [] info),
  length-append (encode_fixed32 (length key)) (key ++ (encode_fixed64 (offset_word info) ++ [])),
  length-append key (encode_fixed64 (offset_word info) ++ []),
  length-append (encode_fixed64 (offset_word info)) [],
  length-encode_fixed32 (length key),
  length-encode_fixed64 (offset_word info),
)

pub length-index_bytes : (entries : List IndexBlock) → length entries ≤ length (index_bytes entries)
length-index_bytes [] = omega arith
length-index_bytes (e ∷ entries) = omega (
  arith,
  length-index_bytes entries,
  length-append (add_index e.shortest_key e.offset_info []) (index_bytes entries),
  length-entry e.shortest_key e.offset_info,
)

parse_entries_step :
    (f : ℕ) (content : Bytes) (start stop n word : ℕ) (key : Bytes) (rest : List IndexBlock)
    → start < stop
    → decode_fixed32 (drop start content) ≡ some n
    → n < 2 ^ 31
    → cut content (start + 4) n ≡ some key
    → decode_fixed64 (drop (start + 4 + n) content) ≡ some word
    → parse_entries f content (start + 4 + n + 8) stop ≡ some rest
    → parse_entries (suc f) content start stop
      ≡ some (record { shortest_key = key; offset_info = info_of word } ∷ rest)
unfolding parse_entries
parse_entries_step f content start stop n word key rest more size fits name place tail =
    rw (lt→ltb _ _ more, parse_entries) (rw (size, lt→ltb _ _ fits, name) (rw (place, tail) refl))

parse_entries_done :
    (f : ℕ) (content : Bytes) (start stop : ℕ)
    → start ≡ stop
    → parse_entries (suc f) content start stop ≡ some []
unfolding parse_entries
parse_entries_done f content start stop e =
    let over : ltb start stop ≡ false = ground (arith, e) in
    let at : (start == stop) ≡ true = ground (arith, e) in rw (over, parse_entries) (rw at refl)

-- A read in the text that stands behind `front`.
pub drop-behind :
    {content : Bytes} (front text : Bytes) (at m : ℕ)
    → content ≡ front ++ text
    → at ≡ length front + m
    → drop at content ≡ drop m text
drop-behind {content} front text at m e h = ap₂ drop h e ∙ drop-append_more front text m

pub cut-behind :
    {content : Bytes} (front text : Bytes) (at m : ℕ) (key rest : Bytes)
    → content ≡ front ++ text
    → at ≡ length front + m
    → drop m text ≡ key ++ rest
    → m ≤ length text
    → cut content at (length key) ≡ some key
cut-behind {content} front text at m key rest e h d fits =
    let inside : ltb (length content) (at + length key) ≡ false = ground (
      arith,
      ap length e,
      length-append front text,
      h,
      ap length d,
      length-drop m text,
      length-append key rest,
    ) in
    rw inside (
      ap some (
        ap (take (length key)) (drop-behind front text at m e h ∙ d)
        ∙ take-append (length key) key rest refl))

pub parse_entries-index_bytes :
    (f : ℕ) (entries : List IndexBlock) (content front rest : Bytes) (start stop : ℕ)
    → content ≡ front ++ (index_bytes entries ++ rest)
    → start ≡ length front
    → stop ≡ start + length (index_bytes entries)
    → All IsEntry entries
    → length entries < f
    → parse_entries f content start stop ≡ some entries
parse_entries-index_bytes zero entries content front rest start stop e at to h fuel =
    absurd (omega arith)
parse_entries-index_bytes (suc f) [] content front rest start stop e at to h fuel =
    parse_entries_done f content start stop (omega arith)
parse_entries-index_bytes (suc f) (b ∷ entries) content front rest start stop e at to
      ((short, small, small'), h) fuel =
    let key = b.shortest_key in
    let n = length key in
    let w = offset_word b.offset_info in
    let size = encode_fixed32 n in
    let tail : Bytes = index_bytes entries ++ rest in
    let text : Bytes = size ++ (key ++ (encode_fixed64 w ++ tail)) in
    let entry = add_index key b.offset_info [] in
    let shape : content ≡ front ++ text =
      e
      ∙ ap (λ t. front ++ t)
          (append_assoc entry (index_bytes entries) rest ∙ add_index-rest key tail b.offset_info) in
    let behind_size : drop 4 text ≡ key ++ (encode_fixed64 w ++ tail) =
      drop-append 4 size _ (length-encode_fixed32 n) in
    let behind_key : drop (4 + n) text ≡ encode_fixed64 w ++ tail =
      ap (drop (4 + n)) (sym (append_assoc size key (encode_fixed64 w ++ tail)))
      ∙ drop-append (4 + n) (size ++ key) _
          (omega (arith, length-append size key, length-encode_fixed32 n)) in
    let entry_size : length entry ≡ 12 + n = length-entry key b.offset_info in
    let word_small : n % 2 ^ 32 ≡ n = omega arith in
    parse_entries_step f content start stop n (w % 2 ^ 64) key entries
      (omega (arith, to, length-append entry (index_bytes entries), entry_size))
      (ap decode_fixed32 (drop-behind front text start 0 shape (omega arith))
        ∙ decode-encode_fixed32 n (key ++ (encode_fixed64 w ++ tail))
        ∙ ap some word_small)
      short
      (cut-behind front text (start + 4) 4 key _ shape (omega arith) behind_size (
        omega
          (arith, length-append size (key ++ (encode_fixed64 w ++ tail)), length-encode_fixed32 n)))
      (ap decode_fixed64
          (drop-behind front text (start + 4 + n) (4 + n) shape (omega arith) ∙ behind_key)
        ∙ decode-encode_fixed64 w tail)
      (parse_entries-index_bytes f entries content (front ++ entry) rest (start + 4 + n + 8) stop
        (e
          ∙ ap (λ t. front ++ t) (append_assoc entry (index_bytes entries) rest)
          ∙ sym (append_assoc front entry tail))
        (omega (arith, length-append front entry, entry_size))
        (omega (arith, to, length-append entry (index_bytes entries), entry_size)) h (omega arith))
    ∙ ap (λ i. some (record { shortest_key = key; offset_info = i } ∷ entries))
        (info-word b.offset_info small small')
