-- ===== src/Db/Files.antt =====
-- The database over files of tables: where src/db/db_impl.cpp writes them, and where it reads them with
-- the parser of src/sstparser.
use tiny_db.Prelude.{ℕ, Option, some, List, ◌∷◌, ◌++◌, Bytes, ◌>>=◌}
use tiny_db.Order.ByteString.{byte_string}
use tiny_db.Assoc
use tiny_db.File.{System}
use tiny_db.Wal.{Checksum}
use tiny_db.MemTable
use tiny_db.MemTable.{Table}
use tiny_db.Cache
use tiny_db.Sst.Parser.{parse, seek}
use tiny_db.Db.{Tables, Options, Db, build_sst_path}

-- The contents of the files, by their paths.
abbrev pub Files : Type 0
Files = List (Bytes × Bytes)

-- What `Get` does with the file of a table; `none` is also the assertion of the constructor, that the file
-- is there.
unfoldable pub seek_file : (ℕ → Option ℕ) → Files → Bytes → Bytes → Option (Option Bytes)
seek_file memory files path key =
    Assoc.lookup byte_string path files >>= λ file. parse memory file >>= λ p. seek p key

-- `memory` is as in the parser, and `content` what `ConvertToL1SST` writes for a table.
abbrev pub file_tables : (ℕ → Option ℕ) → (Table → Bytes) → Tables Files
file_tables memory content = record {
  convert = λ path t files. some ((path, content t) ∷ files);
  seek = seek_file memory;
}

module _ (os : System) (crc : Checksum) (hash_fn : Bytes → ℕ) (memory : ℕ → Option ℕ)
    (content : Table → Bytes) (options : Options) where
  -- The file that `Get` reads.
  abbrev pub read_path : Bytes
  read_path = options.storage_dir ++ build_sst_path 0 0
