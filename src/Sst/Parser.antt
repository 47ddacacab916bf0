-- ===== src/Sst/Parser.antt =====
-- `SSTParser` of src/sstparser/sst_parser.h and src/sstparser/sst_parser.cpp, with src/sstparser/header.h,
-- src/sstparser/index_block.h and src/sstparser/restart_point.h. A pointer into the content is its
-- distance from the start. `none` is a read outside of the content, a failed assertion, or an
-- exception, where nothing else is said.
use tiny_db.Prelude.{
  ℕ, zero, suc, ◌+◌, ◌-◌, ◌/◌, ◌%◌, ◌^◌, true, false, ◌||◌, not, Option, none, some, List, [], ◌∷◌,
  ◌++◌, Bytes, length, take, drop, ltb, leb, ◌==◌, ◌>>=◌, if◌then◌else◌,
}
use tiny_db.Prelude.Int.{ℤ, pos, negsuc, ◌+ℤ◌, ◌-ℤ◌, ltb_ℤ}
use tiny_db.Order.ByteString.{bytes_same, bytes_less}
use tiny_db.Codec.{decode_fixed32, decode_fixed64}
use tiny_db.Bloom
use tiny_db.Bloom.{Filter}
use tiny_db.MemTable.{c_str}
use tiny_db.Wal.{int32}
use tiny_db.Blocks.{OffsetInfo}

pub record IndexBlock : Type 0 where
  pub shortest_key : Bytes
  pub offset_info : OffsetInfo

-- `MetaBlock_OffsetInfo` and `IndexBlock_OffsetInfo`
pub record Header : Type 0 where
  pub meta_block : OffsetInfo
  pub index_block : OffsetInfo

pub record Parser : Type 0 where
  pub filter_policy : Filter
  pub index_blocks : List IndexBlock
  pub sst_content : Bytes
  pub header : Header

-- `getline` drops the newlines.
unfoldable pub read_all : Bytes → Bytes
read_all [] = []
read_all (b ∷ file) = let rest = read_all file in if b == 10 then rest else b ∷ rest

-- `n` bytes from `at` on.
abbrev pub cut : Bytes → ℕ → ℕ → Option Bytes
cut content at n = if ltb (length content) (at + n) then none else some (take n (drop at content))

-- The 8 bytes of an `OffsetInfo`.
abbrev pub info_of : ℕ → OffsetInfo
info_of word = record { size = word % 2 ^ 32; offset = word / 2 ^ 32 }

unfoldable pub parse_header : Bytes → Option Header
parse_header content =
    if ltb (length content) 16
    then none
    else (decode_fixed64 (drop (length content - 16) content) >>= λ meta.
        decode_fixed64 (drop (length content - 8) content) >>= λ index.
        some (record { meta_block = info_of meta; index_block = info_of index }))

-- The loop over the index, from `start` to `stop`. A key's size that is negative as an `int` is an
-- exception.
unfoldable pub parse_entries : ℕ → Bytes → ℕ → ℕ → Option (List IndexBlock)
parse_entries zero content start stop = none
parse_entries (suc f) content start stop = elim (ltb start stop) [
  | false ↦ if start == stop then some [] else none
  | true ↦ decode_fixed32 (drop start content) >>= λ n.
      (if ltb n (2 ^ 31) then cut content (start + 4) n else none) >>= λ key.
      decode_fixed64 (drop (start + 4 + n) content) >>= λ word.
      parse_entries f content (start + 4 + n + 8) stop >>= λ rest.
      some (record { shortest_key = key; offset_info = info_of word } ∷ rest)
]

-- With a size of 0 there is no round. A negative start is read in front of the content, and with a
-- negative size the assertion behind the loop fails.
unfoldable pub parse_index : Bytes → OffsetInfo → Option (List IndexBlock)
parse_index content info =
    if info.size == 0
    then some []
    else if leb (2 ^ 31) info.offset || leb (2 ^ 31) info.size
    then none
    else parse_entries (suc (length content)) content info.offset (info.offset + info.size)

-- A count of rounds; a negative one is none.
abbrev pub rounds : ℤ → ℕ
rounds (pos n) = n
rounds (negsuc n) = 0

-- `memory` is what the process has at an address made from the 32 bits of an `int`: the number of hash
-- functions is read from the address `START + SIZE - 4`, which is no pointer into the content. A negative one
-- makes no round of the filter's loops.
unfoldable pub parse_filter : (ℕ → Option ℕ) → Bytes → OffsetInfo → Option Filter
parse_filter memory content info =
    memory ((info.offset + info.size + 2 ^ 32 - 4) % 2 ^ 32) >>= λ hash_func_num.
    if leb (2 ^ 31) info.offset || leb (2 ^ 31) info.size || ltb info.size 4
    then none
    else (cut content info.offset (info.size - 4) >>= λ bits_array.
        some (Bloom.create_filter2 (rounds (int32 hash_func_num)) bits_array))

unfoldable pub parse : (ℕ → Option ℕ) → Bytes → Option Parser
parse memory file =
    let content = read_all file in
    parse_header content >>= λ header. parse_index content header.index_block >>= λ index_blocks.
    parse_filter memory content header.meta_block >>= λ filter_policy. some (record {
      filter_policy = filter_policy;
      index_blocks = index_blocks;
      sst_content = content;
      header = header;
    })

-- `none` is the result -1.
unfoldable pub find_key_db_index : Bytes → List IndexBlock → Option ℕ
find_key_db_index key [] = none
find_key_db_index key (block ∷ blocks) =
    let rest = find_key_db_index key blocks in
    if bytes_less key block.shortest_key then some 0 else (rest >>= λ i. some (suc i))

-- The content from a pointer on.
abbrev pub content_at : Bytes → ℤ → Option Bytes
content_at content (pos n) = if ltb (length content) n then none else some (drop n content)
content_at content (negsuc n) = none

abbrev pub word_at : Bytes → ℤ → Option ℕ
word_at content at = content_at content at >>= λ bytes. decode_fixed32 bytes

abbrev pub info_at : Bytes → ℤ → Option OffsetInfo
info_at content at =
    content_at content at >>= λ bytes. decode_fixed64 bytes >>= λ word. some (info_of word)

-- `std::string(ptr, len)`.
abbrev pub string_at : Bytes → ℤ → ℤ → Option Bytes
string_at content at (pos n) = content_at content at >>= λ bytes. cut bytes 0 n
string_at content at (negsuc n) = none

unfoldable pub find_full_key_by_rp : Bytes → ℤ → ℕ → OffsetInfo → Option Bytes
find_full_key_by_rp content start record_num rg_offset =
    let first_record = start +ℤ int32 rg_offset.offset in
    if not (ltb_ℤ (pos 0) (int32 record_num))
    then none
    else (word_at content first_record >>= λ shared_key_len.
        word_at content (first_record +ℤ pos 4) >>= λ unshared_key_len.
        if not (shared_key_len == 0) || not (ltb_ℤ (pos 0) (int32 unshared_key_len))
        then none
        else string_at content (first_record +ℤ pos 12) (int32 unshared_key_len))

pub record RestartPoint : Type 0 where
  pub record_num : ℕ
  pub rp_offset : OffsetInfo
  pub fullkey : Bytes

-- The loop over the restart points from `at` on, after the last one that was kept.
unfoldable pub last_restart :
    ℕ → Bytes → Bytes → ℤ → ℤ → Option RestartPoint → Option (Option RestartPoint)
last_restart zero content key start at kept = some kept
last_restart (suc count) content key start at kept = word_at content at >>= λ record_num.
    info_at content (at +ℤ pos 4) >>= λ rp_offset.
    find_full_key_by_rp content start record_num rp_offset >>= λ fullkey.
    elim (bytes_less key fullkey) [
      | true ↦ some kept
      | false ↦
          last_restart count content key start (at +ℤ pos 12)
            (some (record { record_num = record_num; rp_offset = rp_offset; fullkey = fullkey }))
    ]

-- `parse_record`, which decodes all three lengths from the start of the record: the size of the record,
-- what it stores of the key, and the value.
unfoldable pub parse_record : Bytes → ℤ → Option (ℤ × Bytes × Bytes)
parse_record content at = word_at content at >>= λ n.
    string_at content (at +ℤ pos 12) (int32 n) >>= λ unshared_key.
    string_at content (at +ℤ pos 12 +ℤ int32 n) (int32 n) >>= λ value.
    some (pos 12 +ℤ int32 n +ℤ int32 n, unshared_key, value)

-- The loop over the records of a group: the pointer behind the last one that was read, and the value,
-- which is empty if none was found. `FULLKEY.substr(0, shared_key_len).data()` is all of the full key
-- up to its first NUL.
unfoldable pub scan_records : ℕ → Bytes → Bytes → Bytes → ℤ → Option (ℤ × Bytes)
scan_records zero content fullkey key at = some (at, [])
scan_records (suc count) content fullkey key at = parse_record content at >>= λ r.
    elim (bytes_same (c_str fullkey ++ r.1) key) [
      | true ↦ some (at +ℤ r.0, r.2)
      | false ↦ scan_records count content fullkey key (at +ℤ r.0)
    ]

-- `none` inside is `nullopt`, here and in `seek`.
unfoldable pub find_key_in_db : Bytes → Bytes → ℤ → ℤ → Option (Option Bytes)
find_key_in_db content key start stop = word_at content (stop -ℤ pos 12) >>= λ restart_num.
    info_at content (stop -ℤ pos 8) >>= λ restart_offset.
    last_restart (rounds (int32 restart_num)) content key start
      (start +ℤ int32 restart_offset.offset) none
    >>= λ found. elim found [
      | none ↦ some none
      | some rp ↦
          let group = start +ℤ int32 rp.rp_offset.offset in
          scan_records (rounds (int32 rp.record_num)) content rp.fullkey key group >>= λ r.
          if ltb_ℤ (group +ℤ int32 rp.rp_offset.size) r.0
          then none
          else if length r.1 == 0
          then some none
          else some (some r.1)
    ]

abbrev pub block_at : List IndexBlock → ℕ → Option IndexBlock
block_at [] i = none
block_at (block ∷ blocks) zero = some block
block_at (block ∷ blocks) (suc i) = block_at blocks i

unfoldable pub seek : Parser → Bytes → Option (Option Bytes)
seek p key = Bloom.exists p.filter_policy key >>= λ there.
    if not there then some none else elim (find_key_db_index key p.index_blocks) [
      | none ↦ some none
      | some i ↦ block_at p.index_blocks i >>= λ block.
          let start = int32 block.offset_info.offset in
          find_key_in_db p.sst_content key start (start +ℤ int32 block.offset_info.size)
    ]
