-- ===== src/Server/Requests.antt =====
-- What a client gets back from the server of src/server/server.cpp.
use tiny_db.Prelude.{
  ℕ, ◌+◌, ◌-◌, ◌^◌, ◌≤◌, ◌<◌, ◌≡◌, refl, ap, ◌∙◌, Bool, some, List, [], ◌∷◌, Bytes, All, length,
  arith,
}
use tiny_db.Prelude.Text.{codes}
use tiny_db.Status.{Status}
use tiny_db.File.{System, WritesAll}
use tiny_db.File.Writing.{IsValid}
use tiny_db.Wal.{Checksum}
use tiny_db.MemTable
use tiny_db.MemTable.{Table, c_str}
use tiny_db.MemTable.Laws
use tiny_db.MemTable.Laws.{lookup}
use tiny_db.Cache
use tiny_db.Cache.{sharding_index}
use tiny_db.Cache.Shards
use tiny_db.Db.{Db, Tables, Options, put}
use tiny_db.Db.Logged.{log_kv_runs}
use tiny_db.Db.Reads.{get-put, kept_or, put_table, not_empty}
use tiny_db.Server.{
  ok_reply, bulk_reply, int_reply, handle_set, handle_get, delete_each, handle_del, run_command,
  handle_request,
}
use tiny_db.Server.Resp.{encode}
use tiny_db.Server.Resp.RoundTrip.{IsArg, IsLine, parse_resp-encode}

-- A key that the log takes: 1 to 255 bytes.
abbrev pub IsKey : Bytes → Type 0
IsKey key = (0 < length key) × (length key < 256)

module _ {F : Type 0} (os : System) (all : WritesAll os) (crc : Checksum) (hash_fn : Bytes → ℕ)
    (tables : Tables F) (options : Options) where
  -- `Put` of an empty value writes it to the memtable, and reports an error.
  put_empty :
      (d : Db F) {m : List (Bytes × Bytes)}
      → MemTable.Laws.Holds d.mem_table m
      → IsValid d.wal
      → (bits : List Bool) (now : ℕ) (key : Bytes) → IsKey key
      → (d' : Db F) × (m' : List (Bytes × Bytes)) × (put os crc hash_fn tables options bits now key
            [] d
          ≡ some (d', Status.invalid_args))
        × IsValid d'.wal
        × MemTable.Laws.Holds d'.mem_table m'
        × (d'.cache ≡ d.cache)
  unfolding put
  put_empty d ht v bits now key (some_key, short) =
      let (w, logged, holds, valid, empty) =
        log_kv_runs os all crc key [] d short (omega arith) v in
      let (there_before, t, asked, written, after) = put_table ht bits key [] in
      (
        record d { wal = w; mem_table = t },
        after.entries_after,
        rw logged (rw asked (rw written (rw (not_empty key some_key) refl))),
        valid,
        after.holds,
        refl,
      )

  module _ (draws : ℕ → List Bool) (now : ℕ → ℕ) where
    delete_each_lem :
        (i deleted : ℕ) (keys : List Bytes) (d : Db F) {m : List (Bytes × Bytes)}
        → MemTable.Laws.Holds d.mem_table m
        → IsValid d.wal
        → All IsKey keys
        → (d' : Db F) × (delete_each os crc hash_fn tables options draws now i deleted keys d
            ≡ some (d', deleted))
          × (d'.cache ≡ d.cache)
    unfolding delete_each
    delete_each_lem i deleted [] d ht v h = (d, refl, refl)
    delete_each_lem i deleted (key ∷ keys) d ht v (is_key, h) =
        let (d1, m1, run, v1, h1, same) = put_empty d ht v (draws i) (now i) key is_key in
        let (d2, run2, same2) = delete_each_lem (i + 1) deleted keys d1 h1 v1 h in
        (d2, rw run run2, same2 ∙ same)

    handle_request-encode :
        (args : List Bytes) (d : Db F)
        → All IsArg args
        → length args < 2 ^ 31
        → handle_request os crc hash_fn tables options draws now (encode args) d
          ≡ run_command os crc hash_fn tables options draws now args d
    unfolding handle_request encode
    handle_request-encode args d h few =
        ap (λ a. run_command os crc hash_fn tables options draws now a d)
          (parse_resp-encode args h few)

    -- On a system whose writes take all bytes, and on a database whose log buffer is not over-full and
    -- whose memtable is well formed: a DEL request of at least one and fewer than 2 ^ 31 - 1 keys, each
    -- of 1 to 255 bytes with no newline, is answered with ":0", whatever was stored, and the cache is as
    -- before, so that a key read from the cache is still there.
    pub del-reply :
        (key : Bytes) (keys : List Bytes) (d : Db F) {m : List (Bytes × Bytes)}
        → MemTable.Laws.Holds d.mem_table m
        → IsValid d.wal
        → All IsKey (key ∷ keys)
        → All IsLine (key ∷ keys)
        → length (key ∷ keys) < 2 ^ 31 - 1
        → (d' : Db F) × (handle_request os crc hash_fn tables options draws now
              (encode (codes "DEL" ∷ key ∷ keys))
              d
            ≡ some (d', int_reply 0))
          × (d'.cache ≡ d.cache)
    unfolding run_command handle_del
    del-reply key keys d ht v is_keys lines few =
        let name : IsLine (codes "DEL") = omega arith in
        let (d', run, same) = delete_each_lem 0 0 (key ∷ keys) d ht v is_keys in
        (
          d',
          handle_request-encode (codes "DEL" ∷ key ∷ keys) d
                ((name, omega arith), args (key ∷ keys) is_keys lines) (omega arith)
              ∙ rw run,
          same,
        )
      where
        args : (keys : List Bytes) → All IsKey keys → All IsLine keys → All IsArg keys
        args [] h k = tt
        args (key ∷ keys) (h, hs) (k, ks) = ((k, omega arith), args keys hs ks)

  -- On a system whose writes take all bytes, where a table can always be converted, and on a database
  -- whose log buffer is not over-full, whose memtable and cache are well formed, and where the shard of
  -- the key has room for an entry: a SET request, of a key of 1 to 255 bytes with no newline and no NUL,
  -- and of a value of 1 to 2 ^ 31 - 1 bytes with no newline, is answered with "+OK", and a GET request
  -- for the key then with the value, unless the cache had one for the key: then with that old one.
  pub set-get :
      (converts : (path : Bytes) (t : Table) (f : F)
        → (f' : F) × (tables.convert path t f ≡ some f'))
      (d : Db F) (ms : ℕ → List (Bytes × Bytes))
      → Cache.Shards.Holds d.cache ms
      → {m : List (Bytes × Bytes)} → MemTable.Laws.Holds d.mem_table m
      → IsValid d.wal
      → (key value : Bytes) → IsKey key
      → IsLine key
      → c_str key ≡ key
      → 0 < length value
      → IsArg value
      → 1 ≤ (d.cache (sharding_index hash_fn key)).cap
      → (draws draws' : ℕ → List Bool) (now now' : ℕ → ℕ)
      → (d1 d2 : Db F) × (handle_request os crc hash_fn tables options draws now
            (encode (codes "SET" ∷ key ∷ value ∷ []))
            d
          ≡ some (d1, ok_reply))
        × (handle_request os crc hash_fn tables options draws' now'
              (encode (codes "GET" ∷ key ∷ []))
              d1
            ≡ some (d2, bulk_reply (kept_or value (lookup key (ms (sharding_index hash_fn key))))))
  unfolding run_command handle_set handle_get
  set-get converts d ms hc ht v key value (some_key, short) line plain some_value is_arg room draws
        draws' now now' =
      let set_name : IsLine (codes "SET") = omega arith in
      let get_name : IsLine (codes "GET") = omega arith in
      let (d1, d2, stored, found) =
        get-put os all crc hash_fn tables options d ms hc key value converts ht v plain some_key
          short some_value (omega (arith, is_arg.1)) room (draws 0) (now 0) (now' 0) [] in
      (
        d1,
        d2,
        handle_request-encode draws now (codes "SET" ∷ key ∷ value ∷ []) d
              ((set_name, omega arith), ((line, omega arith), (is_arg, tt))) (omega arith)
            ∙ rw stored,
        handle_request-encode draws' now' (codes "GET" ∷ key ∷ []) d1
              ((get_name, omega arith), ((line, omega arith), tt)) (omega arith)
            ∙ rw found,
      )
