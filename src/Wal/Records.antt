-- ===== src/Wal/Records.antt =====
-- One record of the log: what `AddLog` appends and `ReadLog` reads back.
use tiny_db.Prelude.{
  ℕ, ◌+◌, ◌%◌, ◌^◌, ◌<◌, ◌≡◌, refl, ap, ◌∙◌, true, false, some, [], ◌++◌, Bytes, length,
  take-append, drop-append, length-take, length-append, append_assoc, lt→ltb, ◌==◌, subst₂,
  if◌then◌else◌, arith,
}
use tiny_db.Prelude.Int.{pos}
use tiny_db.Codec.{encode_fixed32}
use tiny_db.Codec.RoundTrip.{decode-encode_fixed32}
use tiny_db.Status.{Status}
use tiny_db.File.{System, WritesAll, ReadsAt, Writer, read, sync}
use tiny_db.File.Writing.{contents, IsValid, append_lem, flush_lem}
use tiny_db.Wal.{
  Checksum, header, int32, add_log, WalReader, advance, read_payload, parse_header, read_log,
}

-- checksum, length, data
abbrev pub log_record : Checksum → Bytes → Bytes
log_record crc log = header (crc log) (length log) ++ log

length-header : (c n : ℕ) → length (header c n) ≡ 8
unfolding header
length-header c n = refl

pub length-log_record :
    (crc : Checksum) (log : Bytes) → length (log_record crc log) ≡ length log + 8
length-log_record crc log =
    omega (
      arith,
      length-append (header (crc log) (length log)) log,
      length-header (crc log) (length log),
    )

parse-header_lem : (c n : ℕ) → c < 2 ^ 32 → n < 2 ^ 32 → parse_header (header c n) ≡ some (c, n)
unfolding parse_header header encode_fixed32
parse-header_lem c n hc hn =
    let first = decode-encode_fixed32 c [] in
    let second = decode-encode_fixed32 n [] in rw (first, second) (rw (small c hc, small n hn))
  where
    small : (x : ℕ) → x < 2 ^ 32 → x % 2 ^ 32 ≡ x
    small x h = omega arith

module _ (os : System) (all : WritesAll os) (crc : Checksum) where
  -- On a system whose writes take all their bytes, and with a buffer that is not over-full:
  -- `AddLog` of fewer than 2 ^ 31 bytes ends, fails no assertion, puts one record behind all that
  -- was written before, and leaves nothing in the buffer.
  pub add_log_lem :
      (w : Writer) (log : Bytes)
      → IsValid w
      → length log < 2 ^ 31
      → (w' : Writer) × (add_log os crc w log ≡ some (w', Status.success))
        × (w'.file ≡ contents w ++ log_record crc log)
        × (w'.buffer ≡ [])
  unfolding add_log sync
  add_log_lem w log v h =
      let (w1, run1, holds1, v1, _) = append_lem os all w (header (crc log) (length log)) false v in
      let (w2, run2, holds2, v2, _) = append_lem os all w1 log true v1 in
      let (w3, run3, holds3, empty) = flush_lem os all w2 v2 in
      (
        w3,
        rw (lt→ltb _ _ h, run1, run2, run3),
        holds3
            ∙ holds2
            ∙ ap (λ c. c ++ log) holds1
            ∙ append_assoc (contents w) (header (crc log) (length log)) log,
        empty,
      )

int32_small : (n : ℕ) → n < 2 ^ 31 → int32 n ≡ pos n
int32_small n h = ground arith

advance_small : (offset n : ℕ) → offset + n < 2 ^ 64 → advance offset (pos n) ≡ offset + n
advance_small offset n h = omega arith

module _ (os : System) (reads : ReadsAt os) where
  -- A read of bytes that are there.
  read_within :
      (front bytes back : Bytes)
      → read os (some (front ++ (bytes ++ back))) (pos (length bytes)) (pos (length front))
        ≡ (Status.success, bytes)
  unfolding read
  read_within front bytes back =
      let behind = drop-append (length front) front (bytes ++ back) refl in
      let got = take-append (length bytes) bytes back refl in rw (reads, behind, got) (ground arith)

  -- A read past the end of the file.
  read_beyond :
      (front bytes : Bytes) (n : ℕ)
      → length bytes < n
      → read os (some (front ++ bytes)) (pos n) (pos (length front)) ≡ (Status.exec_failed, [])
  unfolding read
  read_beyond front bytes n h =
      let behind = drop-append (length front) front bytes refl in
      rw (reads, behind) (ground (arith, length-take n bytes))

  module _ (crc : Checksum) (front back : Bytes) (c n : ℕ) (small_c : c < 2 ^ 32)
      (small_n : n < 2 ^ 31) where
    behind_header : length (front ++ header c n) ≡ length front + 8
    behind_header = omega (arith, length-append front (header c n), length-header c n)

    header_step :
        (file : Bytes)
        → read os (some file) (pos (length (header c n))) (pos (length front))
          ≡ (Status.success, header c n)
        → length front + 8 < 2 ^ 31
        → read_log os crc (record { readable_file = some file; offset = length front })
          ≡ read_payload os crc
              (record { readable_file = some file; offset = length front + 8 })
              c
              n
    unfolding read_log
    header_step file at_header h = rw (
      int32_small (length front) (omega arith),
      rw (length-header c n) at at_header,
      parse-header_lem c n small_c (omega arith),
      advance_small (length front) 8 (omega arith),
    )

    payload_step :
        (file body : Bytes)
        → length body ≡ n
        → read os (some file) (pos (length body)) (pos (length front + 8)) ≡ (Status.success, body)
        → length front + 8 < 2 ^ 31
        → read_payload os crc (record { readable_file = some file; offset = length front + 8 }) c n
          ≡ (
            record { readable_file = some file; offset = length front + 8 + n },
            (if crc body == c then Status.success else Status.corruption),
            body,
          )
    unfolding read_payload
    payload_step file body e at_body h = rw (
      int32_small (length front + 8) h,
      int32_small n small_n,
      rw e at at_body,
      advance_small (length front + 8) n (omega arith),
    )

    payload_fails :
        (file : Bytes)
        → read os (some file) (pos n) (pos (length front + 8)) ≡ (Status.exec_failed, [])
        → length front + 8 < 2 ^ 31
        → read_payload os crc (record { readable_file = some file; offset = length front + 8 }) c n
          ≡ (record { readable_file = some file; offset = length front + 8 }, Status.corruption, [])
    unfolding read_payload
    payload_fails file at_body h =
        rw (int32_small (length front + 8) h, int32_small n small_n, at_body)

    -- On a system whose reads return what is there: `ReadLog` at a header that announces `n`
    -- bytes, fewer than 2 ^ 31, with the 32-bit checksum `c`, which ends below 2 ^ 31: if `n`
    -- bytes are there, it reads them, moves behind them, and answers success exactly if they have
    -- this checksum, else corruption.
    pub read_log-body :
        (body : Bytes)
        → length body ≡ n
        → length front + 8 < 2 ^ 31
        → read_log os crc (record {
          readable_file = some (front ++ (header c n ++ (body ++ back)));
          offset = length front;
        })
          ≡ (
            record {
              readable_file = some (front ++ (header c n ++ (body ++ back)));
              offset = length front + 8 + n;
            },
            (if crc body == c then Status.success else Status.corruption),
            body,
          )
    read_log-body body e h =
        let file : Bytes = front ++ (header c n ++ (body ++ back)) in
        let at_header = read_within front (header c n) (body ++ back) in
        let at_body =
          subst₂ (λ f o. read os (some f) (pos (length body)) (pos o) ≡ (Status.success, body))
            (append_assoc front (header c n) (body ++ back)) behind_header
            (read_within (front ++ header c n) body back) in
        header_step file at_header h ∙ payload_step file body e at_body h

    -- On a system whose reads return what is there: `ReadLog` at a header with a 32-bit checksum
    -- that announces n bytes, fewer than 2 ^ 31, and ends below 2 ^ 31, behind which the file ends
    -- before the announced bytes do, answers corruption.
    pub read_log_cut :
        (body : Bytes)
        → length body < n
        → length front + 8 < 2 ^ 31
        → (read_log os crc (record {
          readable_file = some (front ++ (header c n ++ body));
          offset = length front;
        })).1
          ≡ Status.corruption
    read_log_cut body less h =
        let file : Bytes = front ++ (header c n ++ body) in
        let at_body =
          subst₂ (λ f o. read os (some f) (pos n) (pos o) ≡ (Status.exec_failed, []))
            (append_assoc front (header c n) body) behind_header
            (read_beyond (front ++ header c n) body n less) in
        ap (λ (r : WalReader × Status × Bytes). r.1)
          (header_step file (read_within front (header c n) body) h ∙ payload_fails file at_body h)

  -- At the end of the file there is no header to read.
  pub read_log_end :
      (crc : Checksum) (front : Bytes)
      → length front < 2 ^ 31
      → (read_log os crc (record { readable_file = some (front ++ []); offset = length front })).1
        ≡ Status.exec_failed
  unfolding read_log
  read_log_end crc front h = rw (int32_small (length front) h, read_beyond front [] 8 (omega arith))
