-- ===== src/Blocks/Content.antt =====
-- What can be read back from the blocks.
use tiny_db.Prelude.{
  ◌%◌, ◌^◌, ◌≡◌, ◌≢◌, ◌≤◌, refl, ap, ap₂, sym, ◌∙◌, some, [], ◌∷◌, ◌++◌, Bytes, All, length, take,
  drop, drop-append, ltb, ◌==◌, ==_iff, append-nil, arith, Bool-cases, inl, inr,
}
use tiny_db.Codec.{decode_fixed64, encode_fixed64, put_fixed64, put_fixed32}
use tiny_db.Codec.RoundTrip.{decode-encode_fixed64}
use tiny_db.Bloom.{bits_size}
use tiny_db.Bloom.NoLoss.{exists-create_filter}
use tiny_db.Blocks.{
  OffsetInfo, offset_word, shared_key_len, add_footer, FilterBlock, finish_filter_block,
  filter_exists,
}

-- Of the key before, the shared part, and behind it the part of the key that a record stores, are the
-- key; and the shared part is no longer than either key.
pub take-shared_key_len :
    (key pre_key : Bytes)
    → (take (shared_key_len key pre_key) pre_key ++ drop (shared_key_len key pre_key) key ≡ key)
      × (shared_key_len key pre_key ≤ length key)
      × (shared_key_len key pre_key ≤ length pre_key)
unfolding shared_key_len
take-shared_key_len [] [] = (refl, omega arith, omega arith)
take-shared_key_len [] (b ∷ pre_key) = (refl, omega arith, omega arith)
take-shared_key_len (a ∷ key) [] = (refl, omega arith, omega arith)
take-shared_key_len (a ∷ key) (b ∷ pre_key) =
    let (same, short, short') = take-shared_key_len key pre_key in
    elim (Bool-cases (a == b)) [
      | inl e ↦ (
        rw e (ap₂ (λ x xs. x ∷ xs) (sym ((==_iff a b).0 e)) same),
        rw e (omega arith),
        rw e (omega arith),
      )
      | inr e ↦ (rw e refl, rw e (omega arith), rw e (omega arith))
    ]

offset_word_small : (info : OffsetInfo) → offset_word info % 2 ^ 64 ≡ offset_word info
offset_word_small info = omega arith

-- From the bytes of a footer in front of which nothing stands, the two places come back, in this
-- order, as the 64-bit words that were written.
pub decode-add_footer :
    (meta index : OffsetInfo)
    → (decode_fixed64 (add_footer meta index []) ≡ some (offset_word meta))
      × (decode_fixed64 (drop 8 (add_footer meta index [])) ≡ some (offset_word index))
unfolding add_footer put_fixed64
decode-add_footer meta index = (
  decode-encode_fixed64 (offset_word meta) (encode_fixed64 (offset_word index))
      ∙ ap some (offset_word_small meta),
  ap decode_fixed64 (
        drop-append 8 (encode_fixed64 (offset_word meta)) _ (unfold encode_fixed64 in refl)
        ∙ sym (append-nil _))
      ∙ decode-encode_fixed64 (offset_word index) []
      ∙ ap some (offset_word_small index),
)

-- Where the filter's bit array is not empty, `finish_filter_block` does not fault, and afterwards
-- `exists` answers true for each key that was added and is not empty.
pub exists-finish_filter_block :
    (f : FilterBlock)
    → bits_size f.filter_policy.bits_array ≢ 0
    → (g : FilterBlock) × (finish_filter_block f ≡ some g)
      × All (λ key. filter_exists g key ≡ some (ltb 0 (length key))) f.key_data
unfolding finish_filter_block
exists-finish_filter_block f sized =
    let (filter, run, all) = exists-create_filter f.filter_policy f.key_data sized in
    (
      record f {
        filter_policy = filter;
        bytes = put_fixed32 filter.bits_array filter.hash_func_num;
      },
      rw run,
      all,
    )
