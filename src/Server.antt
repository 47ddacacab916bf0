-- ===== src/Server.antt =====
-- The server of src/server/server.cpp: the requests of a Redis client, over the database.
pub mod Resp
pub mod Requests
pub mod Spec
pub mod Refine
pub mod Tests
use tiny_db.Prelude.{
  ℕ, suc, ◌+◌, ◌≡◌, Bool, true, false, Option, some, List, [], ◌∷◌, ◌++◌, Bytes, length, ◌>>=◌,
  if◌then◌else◌,
}
use tiny_db.Prelude.Text.{codes, crlf}
use tiny_db.Order.ByteString.{bytes_same}
use tiny_db.Status.{Status, status_eq, err_msg}
use tiny_db.File.{System}
use tiny_db.Wal.{Checksum}
use tiny_db.Db
use tiny_db.Db.{Db, Tables, Options, decimal}
use tiny_db.Server.Resp.{parse_resp}

-- "-ERR wrong number of arguments for 'name' command"
abbrev pub wrong_number : Bytes → Bytes
wrong_number name =
    codes "-ERR wrong number of arguments for '" ++ (name ++ (codes "' command" ++ crlf))

abbrev pub error_reply : Status → Bytes
error_reply s = codes "-ERR " ++ (err_msg s ++ crlf)

abbrev pub ok_reply : Bytes
ok_reply = codes "+OK" ++ crlf

-- `$`, the size, and the value. A size has at most 20 digits.
abbrev pub bulk_reply : Bytes → Bytes
bulk_reply value = 36 ∷ (decimal 20 (length value) ++ (crlf ++ (value ++ crlf)))

abbrev pub nil_reply : Bytes
nil_reply = codes "$-1" ++ crlf

-- `:`, and a number.
abbrev pub int_reply : ℕ → Bytes
int_reply n = 58 ∷ (decimal 10 n ++ crlf)

-- `draws i` are the draws of `rand()` in the i-th `Put` of a request, `now i` is the clock there.
module _ {F : Type 0} (os : System) (crc : Checksum) (hash_fn : Bytes → ℕ) (tables : Tables F)
    (options : Options) (draws : ℕ → List Bool) (now : ℕ → ℕ) where
  unfoldable pub handle_set : List Bytes → Db F → Option (Db F × Bytes)
  handle_set (name ∷ key ∷ value ∷ []) d =
      Db.put os crc hash_fn tables options (draws 0) (now 0) key value d >>= λ r.
      some (r.0, if status_eq r.1 Status.success then ok_reply else error_reply r.1)
  handle_set args d = some (d, wrong_number (codes "SET"))

  unfoldable pub handle_get : List Bytes → Db F → Option (Db F × Bytes)
  handle_get (name ∷ key ∷ []) d = Db.get os crc hash_fn tables options (now 0) key [] d >>= λ r.
      some (
        r.0,
        if status_eq r.1 Status.success
            then bulk_reply r.2
            else if status_eq r.1 Status.not_found
            then nil_reply
            else error_reply r.1,
      )
  handle_get args d = some (d, wrong_number (codes "GET"))

  -- The loop of `handleDel` over the arguments from the i-th on, where `deleted` were counted.
  unfoldable pub delete_each : ℕ → ℕ → List Bytes → Db F → Option (Db F × ℕ)
  delete_each i deleted [] d = some (d, deleted)
  delete_each i deleted (key ∷ keys) d =
      Db.put os crc hash_fn tables options (draws i) (now i) key [] d >>= λ r.
      delete_each (i + 1) (if status_eq r.1 Status.success then deleted + 1 else deleted) keys r.0

  unfoldable pub handle_del : List Bytes → Db F → Option (Db F × Bytes)
  handle_del (name ∷ key ∷ keys) d =
      delete_each 0 0 (key ∷ keys) d >>= λ r. some (r.0, int_reply r.1)
  handle_del args d = some (d, wrong_number (codes "DEL"))

  -- The handler of the command, if there is one.
  unfoldable pub run_command : List Bytes → Db F → Option (Db F × Bytes)
  run_command [] d = some (d, codes "-ERR Protocol error" ++ crlf)
  run_command (name ∷ args) d =
      if bytes_same name (codes "SET")
      then handle_set (name ∷ args) d
      else if bytes_same name (codes "GET")
      then handle_get (name ∷ args) d
      else if bytes_same name (codes "DEL")
      then handle_del (name ∷ args) d
      else some (d, codes "-ERR unknown command '" ++ (name ++ (codes "'" ++ crlf)))

  -- The reply to a message, and the database after it.
  unfoldable pub handle_request : Bytes → Db F → Option (Db F × Bytes)
  handle_request [] d = some (d, codes "-ERR Protocol error: expected '*'" ++ crlf)
  handle_request (c ∷ text) d =
      if bytes_same (c ∷ text) (codes "PING" ++ crlf)
      then some (d, codes "+PONG" ++ crlf)
      else run_command (parse_resp (c ∷ text)) d

-- What one read of a connection returned, and the draws and the clock of the calls that it leads to.
pub record Message : Type 0 where
  pub text : Bytes
  pub draws : ℕ → List Bool
  pub now : ℕ → ℕ

-- `onMessage` for each message in turn: the replies that are sent.
unfoldable pub on_messages :
    {F : Type 0}
    → System
    → Checksum
    → (Bytes → ℕ)
    → Tables F
    → Options
    → List Message
    → Db F
    → Option (Db F × List Bytes)
on_messages os crc hash_fn tables options [] d = some (d, [])
on_messages os crc hash_fn tables options (m ∷ ms) d =
    handle_request os crc hash_fn tables options m.draws m.now m.text d >>= λ r.
    on_messages os crc hash_fn tables options ms r.0 >>= λ rest. some (rest.0, r.1 ∷ rest.1)
