-- ===== src/Wal.antt =====
-- The write-ahead log: src/wal/wal_writer.{h,cpp} and src/wal/wal_reader.{h,cpp}.
pub mod Records
pub mod Replay
pub mod Tests
use tiny_db.Prelude.{
  ℕ, zero, suc, ◌+◌, ◌-◌, ◌%◌, ◌^◌, ◌≤◌, ◌<◌, ◌≡◌, Bool, true, false, Option, none, some, List, [],
  ◌∷◌, ◌++◌, Bytes, length, ltb, ◌==◌, ◌>>=◌, if◌then◌else◌,
}
use tiny_db.Prelude.Int.{ℤ, pos, negsuc}
use tiny_db.Codec.{byte_at, decode_fixed32}
use tiny_db.Status.{Status, status_eq}
use tiny_db.File.{System, Writer, Reader, append, sync, read}

abbrev pub k_header_size : ℕ
k_header_size = 8

-- `absl::ComputeCrc32c`, of which the log needs no more than that it returns 32 bits.
abbrev pub Checksum : Type 0
Checksum = Bytes → ℕ

abbrev pub Is32Bit : Checksum → Type 0
Is32Bit crc = (bytes : Bytes) → crc bytes < 2 ^ 32

-- The header that `AddLog` builds.
unfoldable pub header : ℕ → ℕ → Bytes
header checksum len =
    byte_at checksum 0
    ∷ byte_at checksum 8
    ∷ byte_at checksum 16
    ∷ byte_at checksum 24
    ∷ byte_at len 0
    ∷ byte_at len 8
    ∷ byte_at len 16
    ∷ byte_at len 24
    ∷ []

-- `static_cast<int32_t>` of an unsigned number.
abbrev pub int32 : ℕ → ℤ
int32 n = if ltb (n % 2 ^ 32) (2 ^ 31) then pos (n % 2 ^ 32) else negsuc (2 ^ 32 - 1 - n % 2 ^ 32)

-- `AddLog`. `none` is a failed assertion, or a log of 2 ^ 31 bytes and more, whose length does not
-- fit the parameter of `FileWriter::append`.
unfoldable pub add_log : System → Checksum → Writer → Bytes → Option (Writer × Status)
add_log os crc w log =
    if ltb (length log) (2 ^ 31)
    then (append os w (header (crc log) (length log)) false >>= λ w1.
        append os w1 log true >>= λ w2. sync os w2 >>= λ w3. some (w3, Status.success))
    else none

-- `WALReader`.
pub record WalReader : Type 0 where
  pub readable_file : Reader
  pub offset : ℕ

abbrev pub verify_checksum : Checksum → Bytes → ℕ → Bool
verify_checksum crc bytes expected = crc bytes == expected

-- `offset_ += n` on `size_t`.
abbrev pub advance : ℕ → ℤ → ℕ
advance offset (pos n) = (offset + n) % 2 ^ 64
advance offset (negsuc n) = (offset + 2 ^ 64 - suc n) % 2 ^ 64

-- `ReadLog` behind the header: the reader after it, the status, and `*log`. Where the read of the
-- payload fails, `*log` has been resized and its bytes are left out of the model: [] stands for it.
unfoldable pub read_payload : System → Checksum → WalReader → ℕ → ℕ → WalReader × Status × Bytes
read_payload os crc r checksum len =
    let got = read os r.readable_file (int32 len) (int32 r.offset) in
    if status_eq got.0 Status.success
    then (
      record r { offset = advance r.offset (int32 len) },
      (if verify_checksum crc got.1 checksum then Status.success else Status.corruption),
      got.1,
    )
    else (r, Status.corruption, [])

-- The header's two numbers, little-endian; `none` is a header of fewer than 8 bytes.
unfoldable pub parse_header : Bytes → Option (ℕ × ℕ)
parse_header (h0 ∷ h1 ∷ h2 ∷ h3 ∷ rest) = decode_fixed32 (h0 ∷ h1 ∷ h2 ∷ h3 ∷ []) >>= λ checksum.
    decode_fixed32 rest >>= λ len. some (checksum, len)
parse_header _ = none

unfoldable pub read_log : System → Checksum → WalReader → WalReader × Status × Bytes
read_log os crc r =
    let got = read os r.readable_file (pos k_header_size) (int32 r.offset) in
    if status_eq got.0 Status.success
    then elim (parse_header got.1) [
      | none ↦ (r, Status.exec_failed, [])
      | some (checksum, len) ↦
          read_payload os crc (record r { offset = advance r.offset (pos k_header_size) }) checksum
            len
    ]
    else (r, Status.exec_failed, [])
