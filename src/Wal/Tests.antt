-- ===== src/Wal/Tests.antt =====
-- The properties of src/wal at concrete logs and files.
use tiny_db.Prelude.{
  ◌+◌, ◌*◌, ◌%◌, ◌^◌, ◌≡◌, false, some, List, [], ◌∷◌, ◌++◌, Bytes, length, arith,
}
use tiny_db.Status.{Status}
use tiny_db.File.{Writer, open_writer}
use tiny_db.File.Disk.{disk, disk-WritesAll, disk-ReadsAt}
use tiny_db.Wal.{Checksum, Is32Bit, header, read_log}
use tiny_db.Wal.Records.{read_log_cut}
use tiny_db.Wal.Replay.{add_logs, replay, replay-add_logs}

-- A checksum: the number of the bytes and the first of them.
abbrev pub first_byte : Checksum
first_byte [] = 0
first_byte (b ∷ bytes) = (b + 7 * length bytes) % 2 ^ 32

pub first_byte-Is32Bit : Is32Bit first_byte
first_byte-Is32Bit [] = omega arith
first_byte-Is32Bit (b ∷ bytes) = omega arith

abbrev two_logs : List Bytes
two_logs = (104 ∷ 105 ∷ []) ∷ (0 ∷ 10 ∷ 255 ∷ []) ∷ []

replay-add_logs_example :
    (w : Writer) × (add_logs disk first_byte (open_writer [] false) two_logs ≡ some w)
    × (replay 3 disk first_byte (record { readable_file = some w.file; offset = 0 })
        ≡ some (two_logs, Status.exec_failed))
unfolding header
replay-add_logs_example =
    replay-add_logs disk disk-WritesAll first_byte disk-ReadsAt first_byte-Is32Bit two_logs
      (omega arith, (omega arith, tt)) (omega arith)

abbrev logged_before : Writer
logged_before = record { buffer = []; file = 1 ∷ 2 ∷ [] }

read_log_cut_example :
    (read_log disk first_byte (record {
      readable_file = some ((9 ∷ []) ++ (header 5 4 ++ (104 ∷ 105 ∷ [])));
      offset = 1;
    })).1
    ≡ Status.corruption
read_log_cut_example =
    read_log_cut disk disk-ReadsAt first_byte (9 ∷ []) [] 5 4 (omega arith) (omega arith)
      (104 ∷ 105 ∷ []) (omega arith) (omega arith)
