-- ===== src/File/Tests.antt =====
-- src/file/file_writer.cpp and src/file/file_reader.cpp at concrete files.
use tiny_db.Prelude.{◌≡◌, refl, true, false, some, [], ◌∷◌}
use tiny_db.Prelude.Int.{pos, negsuc}
use tiny_db.Status.{Status}
use tiny_db.File.{Writer, append, buf_persist, flush, read}
use tiny_db.File.Disk.{disk}

abbrev half_written : Writer
half_written = record { buffer = 3 ∷ 4 ∷ []; file = 1 ∷ 2 ∷ [] }

appended :
    append disk half_written (5 ∷ []) false ≡ some (record half_written { buffer = 3 ∷ 4 ∷ 5 ∷ [] })
unfolding append buf_persist
appended = refl

-- With no bytes there is no flush.
nothing_flushed : append disk half_written [] true ≡ some half_written
unfolding append
nothing_flushed = refl

flushed : flush disk half_written ≡ some (record { buffer = []; file = 1 ∷ 2 ∷ 3 ∷ 4 ∷ [] })
unfolding flush buf_persist
flushed = refl

-- A read past the end of the file, and one at a negative place.
read_short : read disk (some (1 ∷ 2 ∷ 3 ∷ [])) (pos 2) (pos 2) ≡ (Status.exec_failed, [])
unfolding read
read_short = refl

read_negative : read disk (some (1 ∷ 2 ∷ 3 ∷ [])) (pos 2) (negsuc 0) ≡ (Status.exec_failed, [])
unfolding read
read_negative = refl
