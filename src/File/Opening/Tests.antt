-- ===== src/File/Opening/Tests.antt =====
-- The constructors of src/file/file_writer.cpp and src/file/file_reader.cpp at a concrete system.
use tiny_db.Prelude.{
  ℕ, ◌≡◌, refl, Bool, true, false, none, some, List, [], ◌∷◌, Bytes, ◌>>=◌, arith,
}
use tiny_db.Prelude.Int.{pos, negsuc}
use tiny_db.File.{Writer, open_writer, sync}
use tiny_db.File.Disk.{disk, disk-WritesAll}
use tiny_db.File.Opening.{open_file_writer, open_file_reader}
use tiny_db.File.Opening.Contents.{joined, append_all, sync-append_all}
use tiny_db.File.Opening.Memory.{Memory, memory, MayMake, MayWrite, memory-IsFileSystem}

-- "/d" and "w"; no directory is there yet.
abbrev dir : Bytes
dir = 47 ∷ 100 ∷ []

abbrev name : Bytes
name = 119 ∷ []

abbrev nothing : Memory
nothing = record { dirs = λ path. false; files = λ path. none }

abbrev two_calls : List (Bytes × Bool)
two_calls = (1 ∷ 2 ∷ [], false) ∷ (3 ∷ [], true) ∷ []

sync-append_all_example :
    (s' : Memory) × (n : ℕ) × (w : Writer) × (open_file_writer memory nothing (joined dir name) true
      ≡ some (s', pos n))
    × (s'.files (joined dir name) ≡ some (open_writer [] true).file)
    × ((append_all disk (open_writer [] true) two_calls >>= λ w1. sync disk w1) ≡ some w)
    × (w.file ≡ 1 ∷ 2 ∷ 3 ∷ [])
    × (w.buffer ≡ [])
sync-append_all_example =
    sync-append_all memory (λ s. s.files) MayMake MayWrite memory-IsFileSystem disk disk-WritesAll
      nothing dir name (omega arith, tt) (omega arith) (λ h. absurd (ground arith))
      (λ h. (refl, omega arith)) true two_calls

-- Where the path is a directory, the file is not opened, and the assertion, which only asks whether
-- the path is there, passes.
abbrev only_dir : Memory
only_dir = record nothing { dirs = λ path. true }

directory_opened : open_file_writer memory only_dir dir true ≡ some (only_dir, negsuc 0)
unfolding open_file_writer
directory_opened = refl

-- A file that is not there leaves descriptor 0, the standard input.
absent_file : (open_file_reader memory nothing name).1 ≡ pos 0
unfolding open_file_reader
absent_file = refl
