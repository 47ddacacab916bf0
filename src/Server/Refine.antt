-- ===== src/Server/Refine.antt =====
-- The server of src/server/server.cpp answers any messages as the list-based view says.
use tiny_db.Prelude.{
  ℕ, ◌+◌, ◌<◌, ◌≡◌, refl, Bool, true, false, Option, some, none, List, [], ◌∷◌, ◌++◌, Bytes, length,
  All, ◌>>=◌, if◌then◌else◌, arith,
}
use tiny_db.Prelude.Text.{codes, crlf}
use tiny_db.Order.ByteString.{bytes_same}
use tiny_db.Status.{Status}
use tiny_db.File.{System, WritesAll}
use tiny_db.Wal.{Checksum}
use tiny_db.Db
use tiny_db.Db.{Db, Tables, Options}
use tiny_db.Db.Calls.{Reply, regroup}
use tiny_db.Db.Spec.{TablesSpec, Spec}
use tiny_db.Db.Refine.{IsFaithful, Refines, Agrees, Agrees-along, Agrees-bind, no_value}
use tiny_db.Db.Refine.Writes.{put-put_spec}
use tiny_db.Db.Refine.Reads.{get-get_spec}
use tiny_db.Server.{
  handle_set, handle_get, delete_each, handle_del, run_command, handle_request, Message,
  on_messages,
}
use tiny_db.Server.Resp.{parse_resp}
use tiny_db.Server.Spec.{
  SetFits, ArgsFit, set_reply, get_reply, counted, set_spec, read_spec, deletes_spec, del_spec,
  command_spec, request_spec, requests_spec,
}

-- What follows `Put` follows its status.
after_put :
    {F B : Type 0} (x : Option (Db F × Status)) (f : Db F × Reply → Option (Db F × B))
    → (x >>= λ r. f (r.0, (r.1, []))) ≡ ((x >>= no_value) >>= f)
after_put none f = refl
after_put (some r) f = refl

after_get :
    {F B : Type 0} (x : Option (Db F × Status × Bytes)) (f : Db F × Reply → Option (Db F × B))
    → (x >>= λ r. f (r.0, (r.1, r.2))) ≡ ((x >>= regroup) >>= f)
after_get none f = refl
after_get (some r) f = refl

if-Agrees :
    {F A : Type 0} (capacity : ℕ) (b : Bool) (x x' : Option (Db F × A)) (y y' : Option (Spec F × A))
    → (b ≡ true → Agrees capacity x y)
    → (b ≡ false → Agrees capacity x' y')
    → Agrees capacity (if b then x else x') (if b then y else y')
if-Agrees capacity true x x' y y' h h' = h refl
if-Agrees capacity false x x' y y' h h' = h' refl

abbrev pub MessageFits : Message → Type 0
MessageFits m = ArgsFit (parse_resp m.text)

abbrev pub texts : List Message → List Bytes
texts [] = []
texts (m ∷ ms) = m.text ∷ texts ms

module _ {F : Type 0} (os : System) (all : WritesAll os) (crc : Checksum) (hash_fn : Bytes → ℕ)
    (tables : Tables F) (spec : TablesSpec F) (faithful : IsFaithful tables spec)
    (options : Options) (capacity : ℕ) where
  module _ (draws : ℕ → List Bool) (now : ℕ → ℕ) where
    set-set_spec :
        (name : Bytes) (args : List Bytes)
        → SetFits args
        → {d : Db F} {s : Spec F} → Refines capacity d s
        → Agrees capacity
            (handle_set os crc hash_fn tables options draws now (name ∷ args) d)
            (set_spec crc hash_fn spec options capacity args s)
    unfolding handle_set
    set-set_spec name [] fits {d} {s} h = (d, refl, h)
    set-set_spec name (key ∷ []) fits {d} {s} h = (d, refl, h)
    set-set_spec name (key ∷ value ∷ []) fits {d} {s} h =
        Agrees-along capacity
          (after_put (Db.put os crc hash_fn tables options (draws 0) (now 0) key value d)
            (λ r. some (r.0, set_reply r.1)))
          refl
          (Agrees-bind capacity _ _ _ _
            (put-put_spec os all crc hash_fn tables spec faithful options capacity (draws 0) (now 0)
              key value fits.0 fits.1 h)
            (λ d' s' r h'. (d', refl, h')))
    set-set_spec name (key ∷ value ∷ more ∷ rest) fits {d} {s} h = (d, refl, h)

    read-read_spec :
        (name : Bytes) (args : List Bytes)
        → {d : Db F} {s : Spec F} → Refines capacity d s
        → Agrees capacity
            (handle_get os crc hash_fn tables options draws now (name ∷ args) d)
            (read_spec crc hash_fn spec options capacity args s)
    unfolding handle_get
    read-read_spec name [] {d} {s} h = (d, refl, h)
    read-read_spec name (key ∷ []) {d} {s} h =
        Agrees-along capacity
          (after_get (Db.get os crc hash_fn tables options (now 0) key [] d)
            (λ r. some (r.0, get_reply r.1)))
          refl
          (Agrees-bind capacity _ _ _ _
            (get-get_spec os all crc hash_fn tables spec faithful options capacity (now 0) key [] h)
            (λ d' s' r h'. (d', refl, h')))
    read-read_spec name (key ∷ more ∷ rest) {d} {s} h = (d, refl, h)

    deletes-deletes_spec :
        (i deleted : ℕ) (keys : List Bytes)
        → All (λ key. length key < 256) keys
        → {d : Db F} {s : Spec F} → Refines capacity d s
        → Agrees capacity
            (delete_each os crc hash_fn tables options draws now i deleted keys d)
            (deletes_spec crc hash_fn spec options capacity deleted keys s)
    unfolding delete_each
    deletes-deletes_spec i deleted [] fits {d} {s} h = (d, refl, h)
    deletes-deletes_spec i deleted (key ∷ keys) fits {d} {s} h =
        Agrees-along capacity
          (after_put (Db.put os crc hash_fn tables options (draws i) (now i) key [] d) (λ r.
            delete_each os crc hash_fn tables options draws now (i + 1) (counted deleted r.1.0) keys
              r.0))
          refl
          (Agrees-bind capacity _ _ _ _
            (put-put_spec os all crc hash_fn tables spec faithful options capacity (draws i) (now i)
              key [] fits.0 (omega arith) h)
            (λ d' s' r h'. deletes-deletes_spec (i + 1) (counted deleted r.0) keys fits.1 h'))

    del-del_spec :
        (name : Bytes) (args : List Bytes)
        → All (λ key. length key < 256) args
        → {d : Db F} {s : Spec F} → Refines capacity d s
        → Agrees capacity
            (handle_del os crc hash_fn tables options draws now (name ∷ args) d)
            (del_spec crc hash_fn spec options capacity args s)
    unfolding handle_del
    del-del_spec name [] fits {d} {s} h = (d, refl, h)
    del-del_spec name (key ∷ keys) fits {d} {s} h =
        Agrees-bind capacity _ _ _ _ (deletes-deletes_spec 0 0 (key ∷ keys) fits h)
          (λ d' s' n h'. (d', refl, h'))

    command-command_spec :
        (args : List Bytes)
        → ArgsFit args
        → {d : Db F} {s : Spec F} → Refines capacity d s
        → Agrees capacity
            (run_command os crc hash_fn tables options draws now args d)
            (command_spec crc hash_fn spec options capacity args s)
    unfolding run_command
    command-command_spec [] fits {d} {s} h = (d, refl, h)
    command-command_spec (name ∷ args) fits {d} {s} h =
        if-Agrees capacity (bytes_same name (codes "SET")) _ _ _ _
          (λ e. set-set_spec name args (fits.0 e) h)
          (λ e.
            if-Agrees capacity (bytes_same name (codes "GET")) _ _ _ _
              (λ e'. read-read_spec name args h)
              (λ e'.
                if-Agrees capacity (bytes_same name (codes "DEL")) _ _ _ _
                  (λ e2. del-del_spec name args (fits.1 e2) h) (λ e2. (d, refl, h))))

    request-request_spec :
        (text : Bytes)
        → ArgsFit (parse_resp text)
        → {d : Db F} {s : Spec F} → Refines capacity d s
        → Agrees capacity
            (handle_request os crc hash_fn tables options draws now text d)
            (request_spec crc hash_fn spec options capacity text s)
    unfolding handle_request
    request-request_spec [] fits {d} {s} h = (d, refl, h)
    request-request_spec (c ∷ text) fits {d} {s} h =
        if-Agrees capacity (bytes_same (c ∷ text) (codes "PING" ++ crlf)) _ _ _ _
          (λ e. (d, refl, h)) (λ e. command-command_spec (parse_resp (c ∷ text)) fits h)

  -- On a system whose writes take all bytes, where what a table is converted to depends on its
  -- entries alone, and on a database that matches its list-based view: whatever bytes the messages
  -- are, if a SET in them has a key of at most 255 bytes and a value of fewer than 2 ^ 32 - 1
  -- bytes, and a DEL keys of at most 255 bytes, the server faults exactly if the view does, which
  -- is if the files of tables do. Else it sends the replies of the view, whatever rand() and the
  -- clock return, and its database matches the view again.
  pub on_messages-requests_spec :
      (ms : List Message)
      → All MessageFits ms
      → {d : Db F} {s : Spec F} → Refines capacity d s
      → Agrees capacity
          (on_messages os crc hash_fn tables options ms d)
          (requests_spec crc hash_fn spec options capacity (texts ms) s)
  unfolding on_messages
  on_messages-requests_spec [] fits {d} {s} h = (d, refl, h)
  on_messages-requests_spec (m ∷ ms) fits {d} {s} h =
      Agrees-bind capacity _ _ _ _ (request-request_spec m.draws m.now m.text fits.0 h)
        (λ d' s' r h'.
          Agrees-bind capacity _ _ _ _ (on_messages-requests_spec ms fits.1 h')
            (λ d2 s2 rs h2. (d2, refl, h2)))
