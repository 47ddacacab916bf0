-- ===== src/Status.antt =====
-- The result codes of src/db/status.h and src/db/status.cpp.
use tiny_db.Prelude.{ℕ, Bool, ◌==◌, Bytes}
use tiny_db.Prelude.Text.{codes}

-- `Status::Success` and the other constants.
pub data Status : Type 0 where
  success invalid_args exec_failed not_impl not_found corruption : Status

abbrev pub code : Status → ℕ
code Status.success = 1
code Status.invalid_args = 2
code Status.exec_failed = 3
code Status.not_impl = 4
code Status.not_found = 5
code Status.corruption = 6

-- `operator==` compares the codes.
abbrev pub status_eq : Status → Status → Bool
status_eq a b = code a == code b

abbrev pub err_msg : Status → Bytes
err_msg Status.success = codes "ExecStatus."
err_msg Status.invalid_args = codes "Invalid args."
err_msg Status.exec_failed = codes "Exec failed."
err_msg Status.not_impl = codes "Not implemented."
err_msg Status.not_found = codes "Key not found."
err_msg Status.corruption = codes "Data corruption."
