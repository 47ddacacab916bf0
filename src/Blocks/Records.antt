-- ===== src/Blocks/Records.antt =====
-- The records of a data block, read back one after the other: src/table/data_block_builder.cpp.
use tiny_db.Prelude.{
  ℕ, zero, suc, ◌+◌, ◌-◌, ◌%◌, ◌^◌, ◌≤◌, ◌<◌, ◌≡◌, refl, sym, ap, ap₂, ◌∙◌, Option, none, some,
  List, [], ◌∷◌, ◌++◌, append_assoc, append-nil, Bytes, All, length, length-append, length-drop,
  take, drop, drop-append, take-append, ◌==◌, ◌>>=◌, if◌then◌else◌, Bool-cases, inl, inr, arith,
}
use tiny_db.Codec.{encode_fixed32, decode_fixed32, put_fixed32}
use tiny_db.Codec.RoundTrip.{length-encode_fixed32, decode-encode_fixed32}
use tiny_db.Blocks.{
  DataBlock, empty_block, add_record, put_record, shared_key_len, restart_interval,
}
use tiny_db.Blocks.Content.{take-shared_key_len}

-- A record is the number of bytes shared with the key before, the number of bytes that follow of the
-- key, the number of bytes of the value, and these bytes.
unfoldable pub decode_records : ℕ → Bytes → Bytes → Option (List (Bytes × Bytes))
decode_records zero pre_key text = none
decode_records (suc f) pre_key [] = some []
decode_records (suc f) pre_key (b ∷ bytes) =
    let text : Bytes = b ∷ bytes in
    decode_fixed32 text >>= λ shared. decode_fixed32 (drop 4 text) >>= λ unshared.
    decode_fixed32 (drop 8 text) >>= λ size.
    let key = take shared pre_key ++ take unshared (drop 12 text) in
    let value = take size (drop unshared (drop 12 text)) in
    decode_records f key (drop size (drop unshared (drop 12 text))) >>= λ rest.
    some ((key, value) ∷ rest)

-- The calls of `add` in turn.
abbrev pub add_records : List (Bytes × Bytes) → DataBlock → DataBlock
add_records [] b = b
add_records ((key, value) ∷ entries) b = add_records entries (add_record key value b)

abbrev shared_of : ℕ → Bytes → Bytes → ℕ
shared_of num pre_key key = if num % restart_interval == 0 then 0 else shared_key_len key pre_key

abbrev record_bytes : ℕ → Bytes → Bytes → Bytes
record_bytes shared key value =
    encode_fixed32 shared
    ++ (encode_fixed32 (length key - shared)
        ++ (encode_fixed32 (length value) ++ (drop shared key ++ value)))

abbrev all_bytes : ℕ → Bytes → List (Bytes × Bytes) → Bytes
all_bytes num pre_key [] = []
all_bytes num pre_key ((key, value) ∷ entries) =
    record_bytes (shared_of num pre_key key) key value ++ all_bytes (num + 1) key entries

put_record_lem :
    (dst : Bytes) (shared : ℕ) (key value : Bytes)
    → put_record dst shared key value ≡ dst ++ record_bytes shared key value
unfolding put_fixed32
put_record_lem dst shared key value = simp append_assoc

-- A key that a block takes.
abbrev pub IsEntry : Bytes × Bytes → Type 0
IsEntry e = (0 < length e.0) × (length e.0 < 2 ^ 32) × (length e.1 < 2 ^ 32)

bytes-add_record :
    (key value : Bytes) (b : DataBlock)
    → 0 < length key
    → ((add_record key value b).bytes
        ≡ b.bytes ++ record_bytes (shared_of b.record_num b.pre_key key) key value)
      × ((add_record key value b).pre_key ≡ key)
      × ((add_record key value b).record_num ≡ b.record_num + 1)
unfolding add_record
bytes-add_record [] value b h = absurd (omega arith)
bytes-add_record (k ∷ rest) value b h = (put_record_lem b.bytes _ (k ∷ rest) value, refl, refl)

bytes-add_records :
    (entries : List (Bytes × Bytes)) (b : DataBlock)
    → All IsEntry entries
    → (add_records entries b).bytes ≡ b.bytes ++ all_bytes b.record_num b.pre_key entries
bytes-add_records [] b h = sym (append-nil b.bytes)
bytes-add_records ((key, value) ∷ entries) b ((some_key, fits, fits_value), h) =
    let (same, last, count) = bytes-add_record key value b some_key in
    bytes-add_records entries (add_record key value b) h
    ∙ ap₂ (λ x y. x ++ y) same (ap₂ (λ n k. all_bytes n k entries) count last)
    ∙ append_assoc b.bytes _ _

-- A record in front of others.
decode_step :
    (f : ℕ) (pre_key text part key value tail : Bytes) (shared : ℕ) (rest : List (Bytes × Bytes))
    → 0 < length text
    → decode_fixed32 text ≡ some shared
    → decode_fixed32 (drop 4 text) ≡ some (length part)
    → decode_fixed32 (drop 8 text) ≡ some (length value)
    → drop 12 text ≡ part ++ (value ++ tail)
    → take shared pre_key ++ part ≡ key
    → decode_records f key tail ≡ some rest
    → decode_records (suc f) pre_key text ≡ some ((key, value) ∷ rest)
unfolding decode_records
decode_step f pre_key [] part key value tail shared rest some_text a b c body whole run =
    absurd (omega arith)
decode_step f pre_key (t ∷ text) part key value tail shared rest some_text a b c body whole run =
    let key_part = take-append (length part) part (value ++ tail) refl in
    let behind_key = drop-append (length part) part (value ++ tail) refl in
    let value_part = take-append (length value) value tail refl in
    let behind_value = drop-append (length value) value tail refl in
    rw (a, b, c)
      (rw body (rw (key_part, behind_key, whole) (rw (value_part, behind_value) (rw run refl))))

record-rest :
    (shared : ℕ) (key value tail : Bytes)
    → record_bytes shared key value ++ tail
      ≡ encode_fixed32 shared
        ++ (encode_fixed32 (length key - shared)
            ++ (encode_fixed32 (length value) ++ (drop shared key ++ (value ++ tail))))
record-rest shared key value tail = simp append_assoc

decode_word :
    (n : ℕ) (rest : Bytes) → n < 2 ^ 32 → decode_fixed32 (encode_fixed32 n ++ rest) ≡ some n
decode_word n rest h =
    let e : n % 2 ^ 32 ≡ n = omega arith in decode-encode_fixed32 n rest ∙ ap some e

-- Behind two texts.
skip :
    (text second third x y : Bytes) (m n : ℕ)
    → text ≡ x ++ second
    → second ≡ y ++ third
    → length x ≡ m
    → length y ≡ n
    → drop (m + n) text ≡ third
skip text second third x y m n e h a b =
    ap (drop (m + n)) (e ∙ ap (λ t. x ++ t) h ∙ sym (append_assoc x y third))
    ∙ drop-append (m + n) (x ++ y) third (omega (arith, length-append x y))

-- The shared part of the key before, and the rest of the key.
shared_lem :
    (num : ℕ) (pre_key key : Bytes)
    → (take (shared_of num pre_key key) pre_key ++ drop (shared_of num pre_key key) key ≡ key)
      × (shared_of num pre_key key ≤ length key)
shared_lem num pre_key key = elim (Bool-cases (num % restart_interval == 0)) [
  | inl first ↦ rw first (refl, omega arith)
  | inr later ↦
      let (same, short, short') = take-shared_key_len key pre_key in rw later (same, short)
]

decode_records-all_bytes :
    (f num : ℕ) (pre_key : Bytes) (entries : List (Bytes × Bytes))
    → length entries < f
    → All IsEntry entries
    → decode_records f pre_key (all_bytes num pre_key entries) ≡ some entries
decode_records-all_bytes zero num pre_key entries fuel h = absurd (omega arith)
decode_records-all_bytes (suc f) num pre_key [] fuel h = unfold decode_records in refl
decode_records-all_bytes (suc f) num pre_key ((key, value) ∷ entries) fuel
      ((some_key, fits, fits_value), h) =
    let shared = shared_of num pre_key key in
    let (whole, short) = shared_lem num pre_key key in
    let tail = all_bytes (num + 1) key entries in
    let part = drop shared key in
    let third : Bytes = encode_fixed32 (length value) ++ (part ++ (value ++ tail)) in
    let second : Bytes = encode_fixed32 (length key - shared) ++ third in
    let text : Bytes = encode_fixed32 shared ++ second in
    let size = length-drop shared key in
    let at_4 : drop 4 text ≡ second =
      drop-append 4 (encode_fixed32 shared) second (length-encode_fixed32 shared) in
    let at_8 : drop 8 text ≡ third =
      skip text second third (encode_fixed32 shared) (encode_fixed32 (length key - shared)) 4 4 refl
        refl (length-encode_fixed32 shared) (length-encode_fixed32 (length key - shared)) in
    let at_12 : drop 12 text ≡ part ++ (value ++ tail) =
      skip text third (part ++ (value ++ tail))
        (encode_fixed32 shared ++ encode_fixed32 (length key - shared))
        (encode_fixed32 (length value)) 8 4
        (sym (append_assoc (encode_fixed32 shared) (encode_fixed32 (length key - shared)) third))
        refl
        (omega (
          arith,
          length-append (encode_fixed32 shared) (encode_fixed32 (length key - shared)),
          length-encode_fixed32,
        ))
        (length-encode_fixed32 (length value)) in
    rw (record-rest shared key value tail) (
      decode_step f pre_key text part key value tail shared entries
        (omega (arith, length-append (encode_fixed32 shared) second, length-encode_fixed32 shared))
        (decode_word shared second (omega (arith, short)))
        (ap decode_fixed32 at_4
          ∙ decode_word (length key - shared) third (omega arith)
          ∙ ap some (sym size))
        (ap decode_fixed32 at_8 ∙ decode_word (length value) (part ++ (value ++ tail)) fits_value)
        at_12 whole (decode_records-all_bytes f (num + 1) key entries (omega arith) h))

-- From the bytes of a data block to which entries were added in turn, with keys that are not empty and
-- keys and values of fewer than 2 ^ 32 bytes, all of them are read back, in their order, by a reader that
-- takes the shared part of a key from the key before.
pub decode-add_records :
    (entries : List (Bytes × Bytes))
    → All IsEntry entries
    → decode_records (suc (length entries)) [] (add_records entries empty_block).bytes
      ≡ some entries
decode-add_records entries h =
    ap (decode_records (suc (length entries)) []) (bytes-add_records entries empty_block h)
    ∙ decode_records-all_bytes (suc (length entries)) 0 [] entries (omega arith) h
