-- ===== src/Sst/Scanned.antt =====
-- The scan of a group of records: src/sstparser/sst_parser.cpp.
use tiny_db.Prelude.{
  ℕ, zero, suc, ◌+◌, ◌<◌, ◌≡◌, refl, sym, ap, subst, ◌∙◌, false, some, [], ◌++◌, Bytes, length,
  length-take, length-drop, take, drop, ltb, arith, Bool-cases, inl, inr, bind_some,
}
use tiny_db.Prelude.Int.{ℤ, pos, negsuc, ◌+ℤ◌}
use tiny_db.Order.ByteString.{bytes_same, same→eq}
use tiny_db.MemTable.{c_str}
use tiny_db.Wal.{int32}
use tiny_db.Sst.Parser.{cut, content_at, string_at, word_at, parse_record, scan_records}

cut-length : (content : Bytes) (at n : ℕ) (s : Bytes) → cut content at n ≡ some s → length s ≡ n
cut-length content at n s e = elim (Bool-cases (ltb (length content) (at + n))) [
  | inl over ↦ absurd (cc (rw over at e))
  | inr inside ↦
      let same : take n (drop at content) ≡ s = cc (rw inside at e) in
      ground (arith, ap length same, length-take n (drop at content), length-drop at content)
]

pub string_at-length :
    (content : Bytes) (at len : ℤ) (s : Bytes)
    → string_at content at len ≡ some s
    → len ≡ pos (length s)
string_at-length content at (pos n) s e =
    let (bytes, here, run) = bind_some (content_at content at) (λ b. cut b 0 n) s e in
    ap pos (sym (cut-length bytes 0 n s run))
string_at-length content at (negsuc n) s e = absurd (cc)

module _ (content : Bytes) where
  -- The record at a place, as the parser reads it: both texts are as long as its first number says.
  abbrev pub IsRecord : ℤ → ℕ → Bytes → Bytes → Type 0
  IsRecord place n u v =
      (word_at content place ≡ some n)
      × (string_at content (place +ℤ pos 12) (int32 n) ≡ some u)
      × (string_at content (place +ℤ pos 12 +ℤ int32 n) (int32 n) ≡ some v)

  abbrev pub record_size : ℕ → ℤ
  record_size n = pos 12 +ℤ int32 n +ℤ int32 n

  pub parse_record-IsRecord :
      (place : ℤ) (r : ℤ × Bytes × Bytes)
      → parse_record content place ≡ some r
      → (n : ℕ) × IsRecord place n r.1 r.2 × (r.0 ≡ record_size n)
  unfolding parse_record
  parse_record-IsRecord place r e =
      let (n, word, e1) = bind_some (word_at content place) _ r e in
      let (u, first, e2) = bind_some (string_at content (place +ℤ pos 12) (int32 n)) _ r e1 in
      let (v, second, e3) =
        bind_some (string_at content (place +ℤ pos 12 +ℤ int32 n) (int32 n)) _ r e2 in
      let same : (record_size n, u, v) ≡ r = cc in
      subst (λ (x : ℤ × Bytes × Bytes). (m : ℕ) × IsRecord place m x.1 x.2 × (x.0 ≡ record_size m))
        same (n, (word, first, second), refl)

  module _ (fullkey key : Bytes) where
    -- From `at` on so many records of other keys, and then the place.
    abbrev pub Skips : ℤ → ℕ → ℤ → Type 0
    Skips at zero place = at ≡ place
    Skips at (suc r) place =
        (n : ℕ) × (u v : Bytes) × IsRecord at n u v
        × (bytes_same (c_str fullkey ++ u) key ≡ false)
        × Skips (at +ℤ record_size n) r place

    -- The record of the key: the first one of `count` at which the full key of the group, up to its
    -- first NUL, and the text of the record make the key.
    pub record IsScanned (count : ℕ) (at stop : ℤ) (v : Bytes) : Type 0 where
      pub before : ℕ
      pub place : ℤ
      pub size : ℕ
      pub unshared : Bytes
      pub among : before < count
      pub skipped : Skips at before place
      pub here : IsRecord place size unshared v
      pub same_key : key ≡ c_str fullkey ++ unshared
      pub behind : stop ≡ place +ℤ record_size size

    pub scan_records-IsScanned :
        (count : ℕ) (at stop : ℤ) (v : Bytes)
        → scan_records count content fullkey key at ≡ some (stop, v)
        → 0 < length v
        → IsScanned count at stop v
    unfolding scan_records
    scan_records-IsScanned zero at stop v e h =
        let empty : [] ≡ v = cc in absurd (omega (arith, ap length empty))
    scan_records-IsScanned (suc count) at stop v e h =
        let (r, run, e1) = bind_some (parse_record content at) _ (stop, v) e in
        let (n, rec, size) = parse_record-IsRecord at r run in
        elim (Bool-cases (bytes_same (c_str fullkey ++ r.1) key)) [
          | inl found ↦
              let end : at +ℤ r.0 ≡ stop = cc (rw found at e1) in
              let value : r.2 ≡ v = cc (rw found at e1) in
              record {
                before = 0;
                place = at;
                size = n;
                unshared = r.1;
                among = omega arith;
                skipped = refl;
                here = subst (IsRecord at n r.1) value rec;
                same_key = sym (same→eq _ key found);
                behind = sym end ∙ ap (λ x. at +ℤ x) size;
              }
          | inr other ↦
              let next : scan_records count content fullkey key (at +ℤ record_size n)
                  ≡ some (stop, v) =
                subst (λ x. scan_records count content fullkey key (at +ℤ x) ≡ some (stop, v)) size
                  (rw other at e1) in
              let s = scan_records-IsScanned count (at +ℤ record_size n) stop v next h in
              record {
                before = suc s.before;
                place = s.place;
                size = s.size;
                unshared = s.unshared;
                among = omega (arith, s.among);
                skipped = (n, r.1, r.2, rec, other, s.skipped);
                here = s.here;
                same_key = s.same_key;
                behind = s.behind;
              }
        ]
