-- ===== src/File.antt =====
-- Buffered writing and positioned reading: src/file/file_writer.{h,cpp} and
-- src/file/file_reader.{h,cpp}.
pub mod Path
pub mod Opening
pub mod Writing
pub mod Disk
mod Tests
use tiny_db.Prelude.{
  ℕ, zero, suc, ◌+◌, ◌-◌, ◌≡◌, Bool, true, false, Option, none, some, List, [], ◌∷◌, ◌++◌, Bytes,
  length, take, drop, ltb, ◌==◌, ◌>>=◌, if◌then◌else◌, min,
}
use tiny_db.Prelude.Int.{ℤ, pos, negsuc}
use tiny_db.Status.{Status}

-- The system calls on files. `write file bytes` is the file after `write(2)` and the number of bytes
-- written; `pread file count offset` is what `pread(2)` returns, and the bytes that it read.
pub record System : Type 0 where
  pub write : Bytes → Bytes → Bytes × ℕ
  pub pread : Bytes → ℤ → ℤ → ℤ × Bytes

-- A write that the disk has room for takes all of its bytes, at the end of the file.
abbrev pub WritesAll : System → Type 0
WritesAll os = (file bytes : Bytes) → os.write file bytes ≡ (file ++ bytes, length bytes)

-- `pread` returns the bytes from the offset on, up to the end of the file.
abbrev pub ReadsAt : System → Type 0
ReadsAt os =
    (file : Bytes) (n offset : ℕ)
    → os.pread file (pos n) (pos offset)
      ≡ (pos (length (take n (drop offset file))), take n (drop offset file))

abbrev pub buffer_size : ℕ
buffer_size = 65536

-- `FileWriter`: `buffer` is the first `buffer_offset` bytes of its array, `file` what `fd` names.
pub record Writer : Type 0 where
  pub buffer : Bytes
  pub file : Bytes

-- The constructor: with `append` the file keeps its contents, without it is cut to nothing.
abbrev pub open_writer : Bytes → Bool → Writer
open_writer contents append = record { buffer = []; file = if append then contents else [] }

abbrev pub is_buffer_full : Writer → Bool
is_buffer_full w = length w.buffer == buffer_size

module _ (os : System) where
  -- `buf_persist(buffer, len)` at `len = buffer_offset`; `none` is the failed `assert(ret == len)`.
  unfoldable pub buf_persist : Writer → Option Writer
  buf_persist w =
      let written = os.write w.file w.buffer in
      if written.1 == length w.buffer then some (record { buffer = []; file = written.0 }) else none

  -- The loop of `append` over the bytes that the buffer had no room for. `none`: an assertion
  -- failed, or the fuel ran out.
  unfoldable pub copy_rest : ℕ → Bytes → Writer → Option Writer
  copy_rest zero bytes w = none
  copy_rest (suc f) [] w = some w
  copy_rest (suc f) (b ∷ bytes) w = (if is_buffer_full w then buf_persist w else some w) >>= λ w'.
      let need_cpy = min (length (b ∷ bytes)) (buffer_size - length w'.buffer) in
      copy_rest f (drop need_cpy (b ∷ bytes))
        (record w' { buffer = w'.buffer ++ take need_cpy (b ∷ bytes) })

  -- `append(data, len, flush)` with the `len` bytes at `data`.
  unfoldable pub append : Writer → Bytes → Bool → Option Writer
  append w [] flush = some w
  append w (b ∷ bytes) flush =
      let remain_buf_size = buffer_size - length w.buffer in
      (if ltb (length (b ∷ bytes)) remain_buf_size
        then some (record w { buffer = w.buffer ++ (b ∷ bytes) })
        else (buf_persist (record w { buffer = w.buffer ++ take remain_buf_size (b ∷ bytes) })
            >>= λ w'. copy_rest (suc (length (b ∷ bytes))) (drop remain_buf_size (b ∷ bytes)) w'))
      >>= λ w'. if flush then buf_persist w' else some w'

  unfoldable pub flush : Writer → Option Writer
  flush w = if ltb 0 (length w.buffer) then buf_persist w else some w

  -- `fsync` changes nothing that is read back while the machine runs.
  unfoldable pub sync : Writer → Option Writer
  unfolding flush
  sync w = flush w

  unfoldable pub close : Writer → Option Writer
  unfolding flush
  close w = flush w

-- `FileReader`: `none` is a file that could not be opened.
abbrev pub Reader : Type 0
Reader = Option Bytes

abbrev int_same : ℤ → ℤ → Bool
int_same (pos a) (pos b) = a == b
int_same (negsuc a) (negsuc b) = a == b
int_same a b = false

-- `read(buf, count, offset)`: the status, and the bytes in `buf` on success.
unfoldable pub read : System → Reader → ℤ → ℤ → Status × Bytes
read os none count offset = (Status.exec_failed, [])
read os (some file) count offset =
    let got = os.pread file count offset in
    if int_same got.0 count then (Status.success, got.1) else (Status.exec_failed, [])
