-- ===== src/File/Disk.antt =====
-- A concrete file system, at which the properties of files and of the log are tried.
use tiny_db.Prelude.{refl, [], ◌++◌, length, take, drop}
use tiny_db.Prelude.Int.{pos, negsuc}
use tiny_db.File.{System, WritesAll, ReadsAt}

-- Writes always have room; a negative count or offset is an error.
abbrev pub disk : System
disk = record {
  write = λ file bytes. (file ++ bytes, length bytes);
  pread = λ file count offset. elim count [
    | pos n ↦ elim offset [
      | pos o ↦ (pos (length (take n (drop o file))), take n (drop o file))
      | negsuc _ ↦ (negsuc 0, [])
    ]
    | negsuc _ ↦ (negsuc 0, [])
  ];
}

pub disk-WritesAll : WritesAll disk
disk-WritesAll file bytes = refl

pub disk-ReadsAt : ReadsAt disk
disk-ReadsAt file n offset = refl
