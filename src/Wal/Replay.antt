-- ===== src/Wal/Replay.antt =====
-- A whole log: a sequence of `AddLog` calls, and `ReadLog` until it does not succeed.
use tiny_db.Prelude.{
  ℕ, zero, suc, ◌+◌, ◌^◌, ◌<◌, ◌≡◌, refl, ap, sym, ◌∙◌, true, false, Option, none, some, List, [],
  ◌∷◌, ◌++◌, Bytes, All, length, length-append, append-nil, append_assoc, ◌==◌, ==_iff, ◌>>=◌,
  if◌then◌else◌, arith, ap₂,
}
use tiny_db.Status.{Status, status_eq}
use tiny_db.File.{System, WritesAll, ReadsAt, Writer, open_writer}
use tiny_db.File.Writing.{contents, IsValid}
use tiny_db.Wal.{Checksum, Is32Bit, header, add_log, WalReader, read_log}
use tiny_db.Wal.Records.{log_record, length-log_record, add_log_lem, read_log-body, read_log_end}

-- The calls `AddLog(log)` in turn.
unfoldable pub add_logs : System → Checksum → Writer → List Bytes → Option Writer
add_logs os crc w [] = some w
add_logs os crc w (log ∷ logs) = add_log os crc w log >>= λ r. add_logs os crc r.0 logs

-- The calls `ReadLog`, as long as they succeed: what they read, and the status that ends them. `none`
-- means that the fuel ran out.
unfoldable pub replay : ℕ → System → Checksum → WalReader → Option (List Bytes × Status)
replay zero os crc r = none
replay (suc f) os crc r =
    let got = read_log os crc r in
    let rest = replay f os crc got.0 in
    if status_eq got.1 Status.success
    then (rest >>= λ x. some (got.2 ∷ x.0, x.1))
    else some ([], got.1)

abbrev pub records : Checksum → List Bytes → Bytes
records crc [] = []
records crc (log ∷ logs) = log_record crc log ++ records crc logs

module _ (os : System) (all : WritesAll os) (crc : Checksum) where
  add_logs_lem :
      (logs : List Bytes) (w : Writer)
      → w.buffer ≡ []
      → All (λ log. length log < 2 ^ 31) logs
      → (w' : Writer) × (add_logs os crc w logs ≡ some w') × (w'.file ≡ w.file ++ records crc logs)
  unfolding add_logs
  add_logs_lem [] w e h = (w, refl, sym (append-nil _))
  add_logs_lem (log ∷ logs) w e h =
      let v : IsValid w = record { fits = omega (arith, ap (λ b. length b) e) } in
      let (w1, run1, holds1, e1) = add_log_lem os all crc w log v h.0 in
      let (w2, run2, holds2) = add_logs_lem logs w1 e1 h.1 in
      let before : contents w ≡ w.file = ap (λ b. w.file ++ b) e ∙ append-nil _ in
      (
        w2,
        rw run1 run2,
        holds2
            ∙ ap (λ c. c ++ records crc logs) (holds1 ∙ ap (λ c. c ++ log_record crc log) before)
            ∙ append_assoc w.file (log_record crc log) (records crc logs),
      )

  module _ (reads : ReadsAt os) (bits32 : Is32Bit crc) where
    replay_step :
        (f : ℕ) (r r' : WalReader) (log : Bytes) (logs : List Bytes) (end : Status)
        → read_log os crc r ≡ (r', Status.success, log)
        → replay f os crc r' ≡ some (logs, end)
        → replay (suc f) os crc r ≡ some (log ∷ logs, end)
    unfolding replay
    replay_step f r r' log logs end e h = rw e (rw h)

    replay_stop :
        (f : ℕ) (r : WalReader)
        → (read_log os crc r).1 ≡ Status.exec_failed
        → replay (suc f) os crc r ≡ some ([], Status.exec_failed)
    unfolding replay
    replay_stop f r e = rw e

    -- The reader behind the record of `log`.
    behind : Bytes → Bytes → List Bytes → WalReader
    behind front log logs = record {
      readable_file = some ((front ++ log_record crc log) ++ records crc logs);
      offset = length (front ++ log_record crc log);
    }

    same_checksum : (log : Bytes) → (crc log == crc log) ≡ true
    same_checksum log = (==_iff (crc log) (crc log)).1 refl

    read_first :
        (front log : Bytes) (logs : List Bytes)
        → length log < 2 ^ 31
        → length front + 8 < 2 ^ 31
        → read_log os crc (record {
          readable_file = some (front ++ records crc (log ∷ logs));
          offset = length front;
        })
          ≡ (behind front log logs, Status.success, log)
    unfolding behind
    read_first front log logs small fits =
        let rest = records crc logs in
        let split = append_assoc (header (crc log) (length log)) log rest in
        let whole = append_assoc front (log_record crc log) rest in
        let place : length front + 8 + length log ≡ length (front ++ log_record crc log) =
          omega (arith, length-append front (log_record crc log), length-log_record crc log) in
        let body =
          read_log-body os reads crc front rest (crc log) (length log) (bits32 log) small log refl
            fits in
        ap
          (λ b.
            read_log os crc (record { readable_file = some (front ++ b); offset = length front }))
          split
        ∙ body
        ∙ rw (same_checksum log) (
            ap₂ (λ b o. (record { readable_file = some b; offset = o }, Status.success, log))
              (ap (λ b. front ++ b) (sym split) ∙ sym whole) place)

    pub replay_lem :
        (f : ℕ) (front : Bytes) (logs : List Bytes)
        → All (λ log. length log < 2 ^ 31) logs
        → length logs < f
        → length front + length (records crc logs) < 2 ^ 31
        → replay f os crc
            (record { readable_file = some (front ++ records crc logs); offset = length front })
          ≡ some (logs, Status.exec_failed)
    unfolding behind
    replay_lem zero front logs small h fits = absurd (omega arith)
    replay_lem (suc f) front [] small h fits =
        replay_stop f _ (read_log_end os reads crc front (omega arith))
    replay_lem (suc f) front (log ∷ logs) small h fits =
        let n = length-log_record crc log in
        let all_n = length-append (log_record crc log) (records crc logs) in
        let next = length-append front (log_record crc log) in
        replay_step f _ (behind front log logs) log logs Status.exec_failed
          (read_first front log logs small.0 (omega (arith, n, all_n)))
          (replay_lem f (front ++ log_record crc log) logs small.1 (omega arith)
            (omega (arith, n, all_n, next)))

    -- On a system whose writes take all their bytes and whose reads return what is there, with a
    -- checksum of 32 bits: logs of fewer than 2 ^ 31 bytes, written one after the other to an
    -- empty file, whose records together have fewer than 2 ^ 31 bytes, are read back by `ReadLog`
    -- from the start of the file in their order, each with status success, and then `ReadLog`
    -- answers `exec_failed`; one call more than there are logs is enough.
    pub replay-add_logs :
        (logs : List Bytes)
        → All (λ log. length log < 2 ^ 31) logs
        → length (records crc logs) < 2 ^ 31
        → (w : Writer) × (add_logs os crc (open_writer [] false) logs ≡ some w)
          × (replay (suc (length logs)) os crc (record { readable_file = some w.file; offset = 0 })
              ≡ some (logs, Status.exec_failed))
    replay-add_logs logs small fits =
        let (w, run, holds) = add_logs_lem logs (open_writer [] false) refl small in
        (
          w,
          run,
          rw holds (replay_lem (suc (length logs)) [] logs small (omega arith) (omega arith)),
        )
