-- ===== src/Sst/Build.antt =====
-- A whole table, built from its entries: src/table/sstable_builder.cpp.
use tiny_db.Prelude.{
  suc, ◌+◌, ◌%◌, ◌^◌, ◌≤◌, ◌<◌, ◌≡◌, ◌≢◌, refl, sym, ap, subst, subst₂, ◌∙◌, ◌⊎◌, true, false,
  Option, some, List, [], ◌∷◌, ◌++◌, append_assoc, append-nil, map, Bytes, All, length,
  length-append, ltb, ltb→lt, ◌>>=◌, arith, Bool-cases, inl, inr,
}
use tiny_db.Order.ByteString.{byte_string, bytes_less}
use tiny_db.Assoc.{IsAscending}
use tiny_db.File.{System, WritesAll, open_writer}
use tiny_db.Bloom.{Filter, bits_size}
use tiny_db.Blocks.{
  DataBlock, empty_block, add_record, FilterBlock, add_key, filter_exists, finish_data_block,
}
use tiny_db.Blocks.Records.{add_records, IsEntry}
use tiny_db.Sst.Builder.{
  Builder, max_data_block_size, new_builder, add, write_last, finish_sst, find_shortest_key,
  bump_last,
}
use tiny_db.Sst.Parsing.{length-index_bytes}
use tiny_db.Sst.Layout.{IsLaid, entry, write_block-IsLaid, write_last-IsLaid, write_last_empty}
use tiny_db.Sst.Pieces.{length-put_record, last_key, find_shortest_key-some}
use tiny_db.Sst.Plan.{
  Entry, Chunk, chunk, plan, blocks_of, index_of, block_of, plan-entries_of, plan_kept, plan_full,
  plan_left, entries_of-IsReadable,
}
use tiny_db.Sst.Finish.{IsTable, finish-laid}

blocks_of-snoc :
    (chunks : List Chunk) (c : Chunk)
    → blocks_of (chunks ++ (c ∷ [])) ≡ blocks_of chunks ++ block_of c.entries
blocks_of-snoc [] c = append-nil (block_of c.entries)
blocks_of-snoc (d ∷ chunks) c =
    ap (λ t. block_of d.entries ++ t) (blocks_of-snoc chunks c)
    ∙ sym (append_assoc (block_of d.entries) (blocks_of chunks) (block_of c.entries))

index_of-snoc :
    (chunks : List Chunk) (c : Chunk)
    → index_of (chunks ++ (c ∷ [])) ≡ index_of chunks ++ (c.index ∷ [])
index_of-snoc [] c = refl
index_of-snoc (d ∷ chunks) c = ap (λ t. d.index ∷ t) (index_of-snoc chunks c)

length-index_of : (chunks : List Chunk) → length (index_of chunks) ≡ length chunks
length-index_of [] = refl
length-index_of (c ∷ chunks) = ap suc (length-index_of chunks)

map-snoc :
    (entries : List Entry) (e : Entry)
    → map (λ (x : Entry). x.0) (entries ++ (e ∷ []))
      ≡ map (λ (x : Entry). x.0) entries ++ (e.0 ∷ [])
map-snoc [] e = refl
map-snoc (x ∷ entries) e = ap (λ t. x.0 ∷ t) (map-snoc entries e)

add_records-snoc :
    (entries : List Entry) (key value : Bytes) (b : DataBlock)
    → add_records (entries ++ ((key, value) ∷ [])) b ≡ add_record key value (add_records entries b)
add_records-snoc [] key value b = refl
add_records-snoc ((k, v) ∷ entries) key value b =
    add_records-snoc entries key value (add_record k v b)

add_record_grows :
    (key value : Bytes) (b : DataBlock) → 0 < length key → 0 < length (add_record key value b).bytes
unfolding add_record
add_record_grows [] value b h = absurd (omega arith)
add_record_grows (k ∷ rest) value b h = omega (arith, length-put_record b.bytes _ (k ∷ rest) value)

first_fits :
    (key value : Bytes)
    → 0 < length key
    → 12 + length key + length value ≤ max_data_block_size
    → length (add_record key value empty_block).bytes ≤ max_data_block_size
unfolding add_record
first_fits [] value h fits = absurd (omega arith)
first_fits (k ∷ rest) value h fits = omega (arith, length-put_record [] 0 (k ∷ rest) value)

-- One more chunk behind those that were written.
IsLaid-chunk :
    (b : Builder) (chunks : List Chunk) (c : Chunk)
    → IsLaid b (blocks_of chunks ++ block_of c.entries) (index_of chunks ++ (c.index ∷ []))
    → IsLaid b (blocks_of (chunks ++ (c ∷ []))) (index_of (chunks ++ (c ∷ [])))
IsLaid-chunk b chunks c h =
    subst₂ (IsLaid b) (sym (blocks_of-snoc chunks c)) (sym (index_of-snoc chunks c)) h

-- A builder that has taken the entries `seen`, the last key of which is `last`: some blocks are in the
-- file, and the entries `pending` in the block. What `plan` makes of all entries, whichever follow,
-- begins with these blocks.
record IsOpen (policy : Filter) (seen : List Entry) (last : Bytes) (b : Builder) : Type 0 where
  chunks : List Chunk
  pending : List Entry
  laid : IsLaid b (blocks_of chunks) (index_of chunks)
  filled : b.data_block ≡ add_records pending empty_block
  at_last : b.pre_key ≡ last
  left : ((pending ≡ []) × ((seen ≡ []) ⊎ (0 < length chunks))) ⊎ (0 < length b.data_block.bytes)
  planned :
      (tail : List Entry) (rest : List Chunk)
      → plan tail pending last (length (blocks_of chunks)) ≡ some rest
      → plan (seen ++ tail) [] [] 0 ≡ some (chunks ++ rest)
  same_policy : b.filter_block.filter_policy ≡ policy
  same_keys : b.filter_block.key_data ≡ map (λ (e : Entry). e.0) seen

-- No entry follows.
whole :
    {policy : Filter} {seen : List Entry} {last : Bytes} {b : Builder}
    (h : IsOpen policy seen last b) (rest : List Chunk)
    → plan [] h.pending last (length (blocks_of h.chunks)) ≡ some rest
    → plan seen [] [] 0 ≡ some (h.chunks ++ rest)
whole {seen = seen} h rest run =
    subst (λ m. plan m [] [] 0 ≡ some (h.chunks ++ rest)) (append-nil seen) (h.planned [] rest run)

module _ (os : System) (all : WritesAll os) where
  add-IsOpen :
      {policy : Filter} {seen : List Entry} {last : Bytes} (b : Builder) (key value : Bytes)
      → IsOpen policy seen last b
      → 0 < length key
      → (ltb max_data_block_size (length (add_record key value b.data_block).bytes) ≡ true
          → (s : Bytes) × (find_shortest_key last key ≡ some s))
      → (b' : Builder) × (add os key value b ≡ some b')
        × IsOpen policy (seen ++ ((key, value) ∷ [])) key b'
  unfolding add add_key
  add-IsOpen {policy} {seen} {last} b [] value h some_key shortest = absurd (omega arith)
  add-IsOpen {policy} {seen} {last} b (k ∷ rest) value h some_key shortest =
      let key : Bytes = k ∷ rest in
      let group = h.pending ++ ((key, value) ∷ []) in
      let b1 = record b {
        filter_block = add_key key b.filter_block;
        data_block = add_record key value b.data_block;
        key_count = b.key_count + 1;
      } in
      let blocks = blocks_of h.chunks in
      let same : b1.data_block ≡ add_records group empty_block =
        ap (add_record key value) h.filled
        ∙ sym (add_records-snoc h.pending key value empty_block) in
      let full = ap (λ (d : DataBlock). ltb max_data_block_size (length d.bytes)) (sym same) in
      let keys : b1.filter_block.key_data ≡ map (λ (e : Entry). e.0) (seen ++ ((key, value) ∷ [])) =
        ap (λ l. l ++ (key ∷ [])) h.same_keys ∙ sym (map-snoc seen (key, value)) in
      elim (Bool-cases (ltb max_data_block_size (length b1.data_block.bytes))) [
        | inl over ↦
            let (s, found) = shortest over in
            let (b2, run, laid, fresh, filter) =
              write_block-IsLaid os all key s b1 (blocks_of h.chunks) (index_of h.chunks) h.laid
                (subst (λ p. find_shortest_key p key ≡ some s) (sym h.at_last) found) in
            let stop = length (blocks_of h.chunks) + length (block_of group) in
            let c = chunk group s stop in
            (
              record b2 { pre_key = key },
              rw (over, run) refl,
              record {
                chunks = h.chunks ++ (c ∷ []);
                pending = [];
                laid = IsLaid-chunk b2 h.chunks c (
                    subst
                      (λ (d : DataBlock).
                        let n = length (finish_data_block d).bytes in
                        IsLaid b2 (blocks ++ (finish_data_block d).bytes)
                          (index_of h.chunks ++ (entry s n ((length blocks + n) % 2 ^ 32) ∷ [])))
                      same laid);
                filled = fresh;
                at_last = refl;
                left = inl (refl, inr (omega (arith, length-append h.chunks (c ∷ []))));
                planned = λ tail more run.
                    let at =
                      ap length (blocks_of-snoc h.chunks c)
                      ∙ length-append blocks (block_of group) in
                    subst₂ (λ m cs. plan m [] [] 0 ≡ some cs)
                      (sym (append_assoc seen ((key, value) ∷ []) tail))
                      (sym (append_assoc h.chunks (c ∷ []) more))
                      (h.planned ((key, value) ∷ tail) (c ∷ more) (
                        plan_full key value s tail h.pending last (length blocks) _ more
                          (full ∙ over) found at run));
                same_policy = ap (λ f. f.filter_policy) filter ∙ h.same_policy;
                same_keys = ap (λ f. f.key_data) filter ∙ keys;
              },
            )
        | inr under ↦ (
          record b1 { pre_key = key },
          rw under refl,
          record {
            chunks = h.chunks;
            pending = group;
            laid = h.laid;
            filled = same;
            at_last = refl;
            left = inr (add_record_grows key value b.data_block some_key);
            planned = λ tail more run.
                subst (λ m. plan m [] [] 0 ≡ some (h.chunks ++ more))
                  (sym (append_assoc seen ((key, value) ∷ []) tail))
                  (h.planned ((key, value) ∷ tail) more
                    (plan_kept key value tail h.pending last (length blocks) (full ∙ under) ∙ run));
            same_policy = h.same_policy;
            same_keys = keys;
          },
        )
      ]

  -- The calls of `add` for entries in turn.
  abbrev pub add_all : List Entry → Builder → Option Builder
  add_all [] b = some b
  add_all ((key, value) ∷ entries) b = add os key value b >>= λ b'. add_all entries b'

  add_all-IsOpen :
      {policy : Filter} {seen : List Entry} {last : Bytes} (b : Builder) (entries : List Entry)
      → IsOpen policy seen last b
      → 0 < length last
      → All IsEntry entries
      → All (λ (e : Entry). bytes_less last e.0 ≡ true) entries
      → IsAscending byte_string entries
      → (b' : Builder) × (last' : Bytes) × (add_all entries b ≡ some b')
        × IsOpen policy (seen ++ entries) last' b'
        × (0 < length last')
  add_all-IsOpen {policy} {seen} {last} b [] h some_last good above ascending =
      (b, last, refl, subst (λ m. IsOpen policy m last b) (sym (append-nil seen)) h, some_last)
  add_all-IsOpen {policy} {seen} {last} b ((key, value) ∷ entries) h some_last (fits, good)
        (less, above) (next, ascending) =
      let (b1, run, h1) =
        add-IsOpen b key value h fits.0 (λ over. find_shortest_key-some last key some_last less) in
      let (b2, last2, run2, h2, some2) = add_all-IsOpen b1 entries h1 fits.0 good next ascending in
      (
        b2,
        last2,
        rw run run2,
        subst (λ m. IsOpen policy m last2 b2) (append_assoc seen ((key, value) ∷ []) entries) h2,
        some2,
      )

  new-IsOpen :
      (filter : FilterBlock)
      → filter.key_data ≡ []
      → IsOpen filter.filter_policy [] [] (new_builder filter (open_writer [] false))
  new-IsOpen filter empty = record {
    chunks = [];
    pending = [];
    laid = record {
      written = refl;
      valid = record { fits = omega arith };
      at_end = refl;
      indexed = refl;
    };
    filled = refl;
    at_last = refl;
    left = inl (refl, inl refl);
    planned = λ tail rest run. run;
    same_policy = refl;
    same_keys = empty;
  }

  -- `finish_sst` writes what is left in the block, and the index then has an entry.
  last-written :
      {policy : Filter} {seen : List Entry} {last : Bytes} (b : Builder)
      → IsOpen policy seen last b
      → 0 < length last
      → 0 < length seen
      → (b' : Builder) × (chunks : List Chunk) × (write_last os b ≡ some b')
        × IsLaid b' (blocks_of chunks) (index_of chunks)
        × (b'.filter_block ≡ b.filter_block)
        × (0 < length b'.index_data)
        × (plan seen [] [] 0 ≡ some chunks)
  unfolding write_last plan
  last-written {policy} {seen} {last} b h some_last some_seen = elim h.left [
    | inl (none_pending, inl none_seen) ↦ absurd (omega (arith, ap length none_seen))
    | inl (none_pending, inr some_chunks) ↦
        let empty : b.data_block ≡ empty_block =
          h.filled ∙ ap (λ m. add_records m empty_block) none_pending in
        (
          b,
          h.chunks,
          write_last_empty os all b empty,
          h.laid,
          refl,
          omega (
            arith,
            ap length h.laid.indexed,
            length-index_bytes (index_of h.chunks),
            length-index_of h.chunks,
          ),
          whole h [] (ap (λ m. plan [] m last (length (blocks_of h.chunks))) none_pending)
              ∙ ap some (append-nil h.chunks),
        )
    | inr some_bytes ↦
        let (key, found) = last_key last some_last in
        let blocks = blocks_of h.chunks in
        let c = chunk h.pending key (length blocks) in
        let (b1, run, laid, filter) =
          write_last-IsLaid os all key b blocks (index_of h.chunks) h.laid some_bytes
            (subst (λ p. bump_last p ≡ some key) (sym h.at_last) found) in
        let laid' = IsLaid-chunk b1 h.chunks c (
          subst
            (λ (d : DataBlock).
              let n = length (finish_data_block d).bytes in
              IsLaid b1 (blocks ++ (finish_data_block d).bytes)
                (index_of h.chunks ++ (entry key n (length blocks % 2 ^ 32) ∷ [])))
            h.filled laid) in
        (
          b1,
          h.chunks ++ (c ∷ []),
          run,
          laid',
          filter,
          omega (
            arith,
            ap length laid'.indexed,
            length-index_bytes (index_of (h.chunks ++ (c ∷ []))),
            length-index_of (h.chunks ++ (c ∷ [])),
            length-append h.chunks (c ∷ []),
          ),
          whole h (c ∷ []) (
              plan_left h.pending last key (length blocks)
                (subst (λ (d : DataBlock). 0 < length d.bytes) h.filled some_bytes) found),
        )
  ]

  -- On a system whose writes take all bytes, with a new builder over a filter that has bits and no
  -- key yet and over a new file: adding at least one entry in turn, with strictly ascending keys
  -- that are not empty, keys and values of fewer than 2 ^ 32 bytes, of which the first entry fits
  -- into a block (its key and value have no more than 4084 bytes), fails no assertion, nor does
  -- finishing the table after that. The file is then the data blocks that plan makes of the
  -- entries, the filter, the index of these blocks, with the key and the place that plan gives
  -- each and the size of the block, and a footer with the sizes and places of the filter and of
  -- the index. The entries of each block can be read back from its records, and those of all
  -- blocks, in their order, are the entries that were added; the filter finds every key that was
  -- added.
  pub build-IsTable :
      (fresh filter : FilterBlock) (key value : Bytes) (entries : List Entry)
      → All IsEntry ((key, value) ∷ entries)
      → 12 + length key + length value ≤ max_data_block_size
      → IsAscending byte_string ((key, value) ∷ entries)
      → filter.key_data ≡ []
      → bits_size filter.filter_policy.bits_array ≢ 0
      → (b b' : Builder) × (add_all
            ((key, value) ∷ entries)
            (new_builder filter (open_writer [] false))
          ≡ some b)
        × (finish_sst os fresh b ≡ some b')
        × IsTable b'.writer.file ((key, value) ∷ entries)
  build-IsTable fresh filter key value entries (good, all_good) fits (above, ascending) empty
        sized =
      let (b1, run1, h1) =
        add-IsOpen (new_builder filter (open_writer [] false)) key value (new-IsOpen filter empty)
          good.0
          (λ over. absurd (omega (arith, ltb→lt _ _ over, first_fits key value good.0 fits))) in
      let (b2, last, run2, h2, some_last) =
        add_all-IsOpen b1 entries h1 good.0 all_good above ascending in
      let (b3, chunks, run3, laid, same, has_index, planned) =
        last-written b2 h2 some_last (omega arith) in
      let (b4, f, run4, file, found) =
        finish-laid os all fresh b2 b3 (blocks_of chunks) (index_of chunks) run3 laid same has_index
          (subst (λ (p : Filter). bits_size p.bits_array ≢ 0) (sym h2.same_policy) sized) in
      let all_entries = plan-entries_of ((key, value) ∷ entries) [] [] 0 chunks planned in
      (
        b2,
        b4,
        rw run1 run2,
        run4,
        record {
          chunks = chunks;
          filter = f;
          planned = planned;
          laid_out = file;
          found =
              subst (λ keys. All (λ k. filter_exists f k ≡ some (ltb 0 (length k))) keys)
                h2.same_keys found;
          readable =
              entries_of-IsReadable chunks (subst (All IsEntry) (sym all_entries) (good, all_good));
          whole = all_entries;
        },
      )
