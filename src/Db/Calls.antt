-- ===== src/Db/Calls.antt =====
-- The calls of src/db/db.h, which src/db/db.cpp passes on, one after the other.
use tiny_db.Prelude.{ℕ, Bool, Option, some, List, [], ◌∷◌, Bytes, ◌>>=◌}
use tiny_db.Status.{Status}
use tiny_db.File.{System}
use tiny_db.Wal.{Checksum}
use tiny_db.Db
use tiny_db.Db.{Db, Tables, Options}

-- A call, with what `rand()` returns and with the clock where the call reads them.
pub data DbCall : Type 0 where
  put_call : List Bool → ℕ → Bytes → Bytes → DbCall
  delete_call : List Bool → Bytes → DbCall
  get_call : ℕ → Bytes → Bytes → DbCall
  batch_put_call batch_delete_call close_call : DbCall

-- The status, and what stands in `*ret_value_ptr` after a `Get`.
abbrev pub Reply : Type 0
Reply = Status × Bytes

-- The parts of what `Get` returns.
abbrev pub regroup : {F : Type 0} → Db F × Status × Bytes → Option (Db F × Reply)
regroup r = some (r.0, (r.1, r.2))

module _ {F : Type 0} (os : System) (crc : Checksum) (hash_fn : Bytes → ℕ) (tables : Tables F)
    (options : Options) where
  unfoldable pub answer : DbCall → Db F → Option (Db F × Reply)
  answer (DbCall.put_call bits now key value) d =
      Db.put os crc hash_fn tables options bits now key value d >>= λ r. some (r.0, (r.1, []))
  answer (DbCall.delete_call bits key) d =
      Db.delete os crc hash_fn tables options bits key d >>= λ r. some (r.0, (r.1, []))
  answer (DbCall.get_call now key ret) d =
      Db.get os crc hash_fn tables options now key ret d >>= regroup
  answer DbCall.batch_put_call d = some (d, (Db.batch_put os crc hash_fn tables options, []))
  answer DbCall.batch_delete_call d = some (d, (Db.batch_delete os crc hash_fn tables options, []))
  answer DbCall.close_call d =
      let r = Db.close os crc hash_fn tables options d in some (r.0, (r.1, []))

  unfoldable pub answer_all : List DbCall → Db F → Option (Db F × List Reply)
  unfolding answer
  answer_all [] d = some (d, [])
  answer_all (call ∷ calls) d =
      answer call d >>= λ r. answer_all calls r.0 >>= λ rest. some (rest.0, r.1 ∷ rest.1)
