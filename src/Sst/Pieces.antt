-- ===== src/Sst/Pieces.antt =====
-- The parts of a table file: records, keys of the index, the footer, and the filter.
use tiny_db.Prelude.{
  ℕ, ◌+◌, ◌-◌, ◌%◌, ◌^◌, ◌<◌, ◌≡◌, ◌≢◌, refl, ap₂, true, some, [], ◌∷◌, ◌++◌, Bytes, All, length,
  length-append, length-drop, take, ltb, ◌==◌, arith, Bool-cases, inl, inr,
}
use tiny_db.Order.ByteString.{bytes_less}
use tiny_db.Codec.{encode_fixed32, put_fixed32, put_fixed64}
use tiny_db.Codec.RoundTrip.{length-encode_fixed32}
use tiny_db.Bloom.{Filter, bits_size}
use tiny_db.Bloom.NoLoss.{create_filter_lem}
use tiny_db.Blocks.{
  offset_word, put_record, add_footer, FilterBlock, finish_filter_block, filter_exists,
}
use tiny_db.Sst.Builder.{find_shortest_key, bump_last, same_positions}

pub length-put_record :
    (dst : Bytes) (shared : ℕ) (key value : Bytes)
    → length (put_record dst shared key value)
      ≡ length dst + 12 + (length key - shared) + length value
unfolding put_fixed32
length-put_record dst shared key value =
    omega (arith, length-append {0}, length-drop {0}, length-encode_fixed32)

bump_last-some : (b : ℕ) (bytes : Bytes) → (key : Bytes) × (bump_last (b ∷ bytes) ≡ some key)
unfolding bump_last
bump_last-some b [] = (_, refl)
bump_last-some b (c ∷ bytes) = let (key, run) = bump_last-some c bytes in (b ∷ key, rw run refl)

pub last_key : (key : Bytes) → 0 < length key → (s : Bytes) × (bump_last key ≡ some s)
last_key [] h = absurd (omega arith)
last_key (b ∷ bytes) h = bump_last-some b bytes

-- Keys in ascending order meet the assertions.
pub find_shortest_key-some :
    (key1 key2 : Bytes)
    → 0 < length key1
    → bytes_less key1 key2 ≡ true
    → (s : Bytes) × (find_shortest_key key1 key2 ≡ some s)
unfolding find_shortest_key
find_shortest_key-some [] key2 h less = absurd (omega arith)
find_shortest_key-some (a ∷ key1) [] h less = absurd (ground arith)
find_shortest_key-some (a ∷ key1) (b ∷ key2) h less =
    let (s, run) = bump_last-some a (take (same_positions (a ∷ key1) (b ∷ key2)) key1) in
    elim (Bool-cases (length (a ∷ key1) == same_positions (a ∷ key1) (b ∷ key2))) [
      | inl e ↦ ((a ∷ key1) ++ (32 ∷ []), rw (less, e) refl)
      | inr e ↦ (s, rw (less, e) run)
    ]

-- The places, counted as 32-bit numbers, in the footer.
pub add_footer-wrap :
    (size offset size' place n : ℕ)
    → size ≡ size'
    → offset ≡ place % 2 ^ 32
    → add_footer
        (record { size = size; offset = offset })
        (record { size = n; offset = (offset + size) % 2 ^ 32 })
        []
      ≡ add_footer
          (record { size = size'; offset = place })
          (record { size = n; offset = place + size' })
          []
unfolding add_footer
add_footer-wrap size offset size' place n e at =
    let meta : offset_word (record { size = size; offset = offset })
        ≡ offset_word (record { size = size'; offset = place }) =
      omega arith in
    let index : offset_word (record { size = n; offset = (offset + size) % 2 ^ 32 })
        ≡ offset_word (record { size = n; offset = place + size' }) =
      omega arith in
    ap₂ (λ a b. put_fixed64 (put_fixed64 [] a) b) meta index

-- The filter after two rounds of `finish_filter_block`.
pub record IsFiltered (f f1 f2 : FilterBlock) : Type 0 where
  pub same_length : length f1.bytes ≡ length f2.bytes
  pub stored : f2.bytes ≡ put_fixed32 f2.filter_policy.bits_array f2.filter_policy.hash_func_num
  pub found : All (λ key. filter_exists f2 key ≡ some (ltb 0 (length key))) f.key_data

pub finish_filter_block-IsFiltered :
    (f : FilterBlock)
    → bits_size f.filter_policy.bits_array ≢ 0
    → (f1 f2 : FilterBlock) × (finish_filter_block f ≡ some f1)
      × (finish_filter_block f1 ≡ some f2)
      × IsFiltered f f1 f2
unfolding finish_filter_block put_fixed32
finish_filter_block-IsFiltered f sized =
    let (g1, run1, grows1, all1) = create_filter_lem f.filter_policy f.key_data sized in
    let same1 : length g1.bits_array ≡ length f.filter_policy.bits_array =
      grows1.keeps.same_length in
    let sized' : bits_size g1.bits_array ≢ 0 = omega (arith, sized, same1) in
    let (g2, run2, grows2, all2) = create_filter_lem g1 f.key_data sized' in
    let bytes = λ (g : Filter). put_fixed32 g.bits_array g.hash_func_num in
    (
      record f { filter_policy = g1; bytes = bytes g1 },
      record f { filter_policy = g2; bytes = bytes g2 },
      rw run1 refl,
      rw run2 refl,
      record {
        same_length = omega (
          arith,
          grows2.keeps.same_length,
          length-append g1.bits_array (encode_fixed32 g1.hash_func_num),
          length-append g2.bits_array (encode_fixed32 g2.hash_func_num),
          length-encode_fixed32,
        );
        stored = refl;
        found = all2;
      },
    )
