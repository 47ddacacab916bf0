-- ===== src/Sst/Plan.antt =====
-- The data blocks of a table, as they follow from its entries alone: what src/table/sstable_builder.cpp
-- is to write, with no builder, buffer or file.
use tiny_db.Prelude.{
  ℕ, suc, ◌+◌, ◌-◌, ◌/◌, ◌%◌, ◌^◌, ◌<◌, ◌≡◌, refl, sym, ap, ◌∙◌, true, false, Option, some, List,
  [], ◌∷◌, ◌++◌, append_assoc, append-nil, Bool-cases, inl, inr, bind_some, some_injective, Bytes,
  All, length, take, take-append, ltb, ◌>>=◌, arith,
}
use tiny_db.Codec.{put_fixed32, put_fixed64, encode_fixed32}
use tiny_db.Blocks.{restart_interval, empty_block, put_restarts, finish_data_block}
use tiny_db.Blocks.Records.{add_records, decode_records, decode-add_records, IsEntry}
use tiny_db.Sst.Parser.{IndexBlock}
use tiny_db.Sst.Builder.{max_data_block_size, find_shortest_key, bump_last}

abbrev pub Entry : Type 0
Entry = Bytes × Bytes

-- A data block: its entries, and what the index says of it.
pub record Chunk : Type 0 where
  pub entries : List Entry
  pub index : IndexBlock

-- The records of the entries, and the records with the restart points.
abbrev pub records_of : List Entry → Bytes
records_of entries = (add_records entries empty_block).bytes

abbrev pub block_of : List Entry → Bytes
block_of entries = (finish_data_block (add_records entries empty_block)).bytes

abbrev pub chunk : List Entry → Bytes → ℕ → Chunk
chunk entries key place = record {
  entries = entries;
  index = record {
    shortest_key = key;
    offset_info = record { size = length (block_of entries); offset = place % 2 ^ 32 };
  };
}

abbrev pub blocks_of : List Chunk → Bytes
blocks_of [] = []
blocks_of (c ∷ chunks) = block_of c.entries ++ blocks_of chunks

abbrev pub index_of : List Chunk → List IndexBlock
index_of [] = []
index_of (c ∷ chunks) = c.index ∷ index_of chunks

abbrev pub entries_of : List Chunk → List Entry
entries_of [] = []
entries_of (c ∷ chunks) = c.entries ++ entries_of chunks

-- The blocks of `pending` and of the entries behind them, where `prev` is the last key before these
-- and `start` the place at which the block of `pending` begins. A block ends with the entry that takes
-- its records over the limit. The index has for it a key made of the key before that entry and of
-- that entry's, and the place where the block ends; for the last block, which is not full, it has the
-- last key with its last byte raised, and the place where the block begins.
unfoldable pub plan : List Entry → List Entry → Bytes → ℕ → Option (List Chunk)
plan [] [] prev start = some []
plan [] (e ∷ pending) prev start =
    bump_last prev >>= λ key. some (chunk (e ∷ pending) key start ∷ [])
plan ((key, value) ∷ entries) pending prev start =
    let group = pending ++ ((key, value) ∷ []) in
    let stop = start + length (block_of group) in
    elim (ltb max_data_block_size (length (records_of group))) [
      | false ↦ plan entries group key start
      | true ↦ find_shortest_key prev key >>= λ shortest.
          plan entries [] key stop >>= λ rest. some (chunk group shortest stop ∷ rest)
    ]

-- An entry that leaves the block under the limit, and one that fills it.
pub plan_kept :
    (key value : Bytes) (entries pending : List Entry) (prev : Bytes) (start : ℕ)
    → ltb max_data_block_size (length (records_of (pending ++ ((key, value) ∷ [])))) ≡ false
    → plan ((key, value) ∷ entries) pending prev start
      ≡ plan entries (pending ++ ((key, value) ∷ [])) key start
unfolding plan
plan_kept key value entries pending prev start under = rw (plan, under) refl

pub plan_full :
    (key value shortest : Bytes) (entries pending : List Entry) (prev : Bytes) (start stop : ℕ)
    (rest : List Chunk)
    → ltb max_data_block_size (length (records_of (pending ++ ((key, value) ∷ [])))) ≡ true
    → find_shortest_key prev key ≡ some shortest
    → stop ≡ start + length (block_of (pending ++ ((key, value) ∷ [])))
    → plan entries [] key stop ≡ some rest
    → plan ((key, value) ∷ entries) pending prev start
      ≡ some (
          chunk
            (pending ++ ((key, value) ∷ []))
            shortest
            (start + length (block_of (pending ++ ((key, value) ∷ []))))
          ∷ rest)
unfolding plan
plan_full key value shortest entries pending prev start stop rest over found at run =
    let run' = ap (plan entries [] key) (sym at) ∙ run in rw (plan, over) (rw found (rw run' refl))

-- What is left in the block at the end.
pub plan_left :
    (pending : List Entry) (prev key : Bytes) (start : ℕ)
    → 0 < length (records_of pending)
    → bump_last prev ≡ some key
    → plan [] pending prev start ≡ some (chunk pending key start ∷ [])
unfolding plan
plan_left [] prev key start h found = absurd (omega arith)
plan_left (e ∷ pending) prev key start h found = rw (plan, found) refl

-- No entry is lost or moved.
pub plan-entries_of :
    (entries pending : List Entry) (prev : Bytes) (start : ℕ) (chunks : List Chunk)
    → plan entries pending prev start ≡ some chunks
    → entries_of chunks ≡ pending ++ entries
unfolding plan
plan-entries_of [] [] prev start chunks h = ap entries_of (sym (some_injective h))
plan-entries_of [] (e ∷ pending) prev start chunks h =
    let (key, run, made) = bind_some (bump_last prev) _ chunks h in
    ap entries_of (sym (some_injective made))
plan-entries_of ((key, value) ∷ entries) pending prev start chunks h =
    let group = pending ++ ((key, value) ∷ []) in
    let whole = append_assoc pending ((key, value) ∷ []) entries in
    elim (Bool-cases (ltb max_data_block_size (length (records_of group)))) [
      | inr under ↦ plan-entries_of entries group key start chunks (rw (plan, under) at h) ∙ whole
      | inl over ↦
          let (shortest, found, h1) =
            bind_some (find_shortest_key prev key) _ chunks (rw (plan, over) at h) in
          let (rest, planned, made) = bind_some (plan entries [] key _) _ chunks h1 in
          ap entries_of (sym (some_injective made))
          ∙ ap (λ m. group ++ m) (plan-entries_of entries [] key _ rest planned)
          ∙ whole
    ]

-- What is behind the records of a block.
put_restarts-append :
    (offsets : List ℕ) (dst : Bytes) (last_offset record_num : ℕ)
    → (more : Bytes) × (put_restarts dst offsets last_offset record_num ≡ dst ++ more)
unfolding put_restarts put_fixed32 put_fixed64
put_restarts-append [] dst last_offset record_num = ([], sym (append-nil dst))
put_restarts-append (o ∷ []) dst last_offset record_num = (_, append_assoc dst _ _)
put_restarts-append (o ∷ next ∷ rest) dst last_offset record_num =
    let (more, h) = put_restarts-append (next ∷ rest) _ last_offset record_num in
    (_, h ∙ ap (λ t. t ++ more) (append_assoc dst _ _) ∙ append_assoc dst _ more)

-- The entries of a block can be read back from its records, which are its first bytes.
abbrev pub IsReadable : Chunk → Type 0
IsReadable c =
    decode_records (suc (length c.entries)) []
      (take (length (records_of c.entries)) (block_of c.entries))
    ≡ some c.entries

entries-IsReadable : (c : Chunk) → All IsEntry c.entries → IsReadable c
unfolding finish_data_block put_fixed32
entries-IsReadable c h =
    let b = add_records c.entries empty_block in
    let (more, same) =
      put_restarts-append b.record_group_offset b.bytes (length b.bytes) b.record_num in
    let count = encode_fixed32 ((b.record_num - 1) / restart_interval + 1) in
    ap (λ t. decode_records (suc (length c.entries)) [] (take (length b.bytes) t))
      (ap (λ t. t ++ count) same ∙ append_assoc b.bytes more count)
    ∙ ap (decode_records (suc (length c.entries)) [])
        (take-append (length b.bytes) b.bytes (more ++ count) refl)
    ∙ decode-add_records c.entries h

All-split {ℓ κ} :
    {A : Type ℓ} (P : A → Type κ) (xs ys : List A) → All P (xs ++ ys) → All P xs × All P ys
All-split P [] ys h = (tt, h)
All-split P (x ∷ xs) ys (p, h) = let (hx, hy) = All-split P xs ys h in ((p, hx), hy)

pub entries_of-IsReadable :
    (chunks : List Chunk) → All IsEntry (entries_of chunks) → All IsReadable chunks
entries_of-IsReadable [] h = tt
entries_of-IsReadable (c ∷ chunks) h =
    let (here, rest) = All-split IsEntry c.entries (entries_of chunks) h in
    (entries-IsReadable c here, entries_of-IsReadable chunks rest)
