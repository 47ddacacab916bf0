-- ===== src/File/Opening.antt =====
-- The constructors and destructors of src/file/file_writer.cpp and src/file/file_reader.cpp.
pub mod Contents
pub mod Memory
mod Tests
use tiny_db.Prelude.{◌>>=◌, Bytes, Bool, true, false, Option, none, some, if◌then◌else◌}
use tiny_db.Prelude.Int.{ℤ, pos}
use tiny_db.File.Path.{dir_path}

-- The flags of `open`: O_CREAT | O_WRONLY | O_APPEND, O_CREAT | O_WRONLY | O_TRUNC, and O_RDONLY.
pub data Mode : Type 0 where
  append_mode : Mode
  trunc_mode : Mode
  read_mode : Mode

-- The calls of the system that name a path. `access` is whether `access(path, F_OK)` answers 0, and
-- `create_directories` is `none` where it throws. `open_path` is `open(2)`, which makes the new state and answers the file
-- descriptor, or -1.
pub record FileSystem (S : Type 0) : Type 0 where
  pub access : S → Bytes → Bool
  pub create_directories : S → Bytes → Option S
  pub open_path : S → Bytes → Mode → S × ℤ

abbrev pub mode_of : Bool → Mode
mode_of append = if append then Mode.append_mode else Mode.trunc_mode

module _ {S : Type 0} (fs : FileSystem S) where
  -- `FileWriter(file_path, append)`: the new `fd`. `none` is the exception of `create_directories` or
  -- the assertion, which asks whether there is such a path, not whether the file was opened.
  unfoldable pub open_file_writer : S → Bytes → Bool → Option (S × ℤ)
  open_file_writer s file_path append =
      (if fs.access s file_path then some s else fs.create_directories s (dir_path file_path))
      >>= λ s1.
          let opened = fs.open_path s1 file_path (mode_of append) in
          if fs.access opened.0 file_path then some opened else none

  -- `FileReader(file_path)`: `fd` starts as 0.
  unfoldable pub open_file_reader : S → Bytes → S × ℤ
  open_file_reader s file_path =
      if fs.access s file_path then fs.open_path s file_path Mode.read_mode else (s, pos 0)
