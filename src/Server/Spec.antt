-- ===== src/Server/Spec.antt =====
-- What a Redis client of src/server/server.cpp sees: replies from the list-based view of the database.
use tiny_db.Prelude.{
  ℕ, ◌+◌, ◌-◌, ◌^◌, ◌<◌, ◌≡◌, true, Option, some, List, [], ◌∷◌, ◌++◌, Bytes, length, All, ◌>>=◌,
  if◌then◌else◌,
}
use tiny_db.Prelude.Text.{codes, crlf}
use tiny_db.Order.ByteString.{bytes_same}
use tiny_db.Status.{Status, status_eq}
use tiny_db.Wal.{Checksum}
use tiny_db.Db.{Options}
use tiny_db.Db.Calls.{Reply}
use tiny_db.Db.Spec.{TablesSpec, Spec, put_spec, get_spec}
use tiny_db.Server.{wrong_number, error_reply, ok_reply, bulk_reply, nil_reply, int_reply}
use tiny_db.Server.Resp.{parse_resp}

-- Keys that the log takes, and values that its record takes.
abbrev pub SetFits : List Bytes → Type 0
SetFits (key ∷ value ∷ []) = (length key < 256) × (length value < 2 ^ 32 - 1)
SetFits args = Unit

-- A message whose arguments the log takes; those of GET, and of what is no command, are free.
abbrev pub ArgsFit : List Bytes → Type 0
ArgsFit [] = Unit
ArgsFit (name ∷ args) =
    (bytes_same name (codes "SET") ≡ true → SetFits args)
    × (bytes_same name (codes "DEL") ≡ true → All (λ key. length key < 256) args)

abbrev pub set_reply : Reply → Bytes
set_reply r = if status_eq r.0 Status.success then ok_reply else error_reply r.0

abbrev pub get_reply : Reply → Bytes
get_reply r =
    if status_eq r.0 Status.success
    then bulk_reply r.1
    else if status_eq r.0 Status.not_found
    then nil_reply
    else error_reply r.0

abbrev pub counted : ℕ → Status → ℕ
counted deleted st = if status_eq st Status.success then deleted + 1 else deleted

module _ {F : Type 0} (crc : Checksum) (hash_fn : Bytes → ℕ) (tables : TablesSpec F)
    (options : Options) (capacity : ℕ) where
  abbrev pub set_spec : List Bytes → Spec F → Option (Spec F × Bytes)
  set_spec (key ∷ value ∷ []) s =
      put_spec crc hash_fn tables options capacity key value s >>= λ r. some (r.0, set_reply r.1)
  set_spec args s = some (s, wrong_number (codes "SET"))

  abbrev pub read_spec : List Bytes → Spec F → Option (Spec F × Bytes)
  read_spec (key ∷ []) s =
      get_spec crc hash_fn tables options capacity key [] s >>= λ r. some (r.0, get_reply r.1)
  read_spec args s = some (s, wrong_number (codes "GET"))

  abbrev pub deletes_spec : ℕ → List Bytes → Spec F → Option (Spec F × ℕ)
  deletes_spec deleted [] s = some (s, deleted)
  deletes_spec deleted (key ∷ keys) s =
      put_spec crc hash_fn tables options capacity key [] s >>= λ r.
      deletes_spec (counted deleted r.1.0) keys r.0

  abbrev pub del_spec : List Bytes → Spec F → Option (Spec F × Bytes)
  del_spec [] s = some (s, wrong_number (codes "DEL"))
  del_spec (key ∷ keys) s = deletes_spec 0 (key ∷ keys) s >>= λ r. some (r.0, int_reply r.1)

  abbrev pub command_spec : List Bytes → Spec F → Option (Spec F × Bytes)
  command_spec [] s = some (s, codes "-ERR Protocol error" ++ crlf)
  command_spec (name ∷ args) s =
      if bytes_same name (codes "SET")
      then set_spec args s
      else if bytes_same name (codes "GET")
      then read_spec args s
      else if bytes_same name (codes "DEL")
      then del_spec args s
      else some (s, codes "-ERR unknown command '" ++ (name ++ (codes "'" ++ crlf)))

  abbrev pub request_spec : Bytes → Spec F → Option (Spec F × Bytes)
  request_spec [] s = some (s, codes "-ERR Protocol error: expected '*'" ++ crlf)
  request_spec (c ∷ text) s =
      if bytes_same (c ∷ text) (codes "PING" ++ crlf)
      then some (s, codes "+PONG" ++ crlf)
      else command_spec (parse_resp (c ∷ text)) s

  abbrev pub requests_spec : List Bytes → Spec F → Option (Spec F × List Bytes)
  requests_spec [] s = some (s, [])
  requests_spec (text ∷ texts) s =
      request_spec text s >>= λ r. requests_spec texts r.0 >>= λ rest. some (rest.0, r.1 ∷ rest.1)
