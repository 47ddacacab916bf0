-- ===== src/Server/Tests.antt =====
-- The properties of src/server/server.cpp at concrete requests.
use tiny_db.Prelude.{
  ℕ, ◌+◌, ◌≡◌, refl, List, [], ◌∷◌, ◌++◌, length, Bool, All, arith, some, sym, subst,
}
use tiny_db.Prelude.Text.{codes, crlf}
use tiny_db.File.Disk.{disk, disk-WritesAll}
use tiny_db.MemTable.Tests.{one_entry-Writes}
use tiny_db.Cache.Tests.{full-Holds}
use tiny_db.Lru.Tests.{two_entries}
use tiny_db.Db.{Db}
use tiny_db.Db.Tests.{checksum, counted, options, started}
use tiny_db.Lru.Tests.{no_node}
use tiny_db.Db.{new_db}
use tiny_db.Db.Tests.{counted_spec}
use tiny_db.Db.Refine.{Agrees}
use tiny_db.Db.Refine.Run.{new_spec, new_db-Refines}
use tiny_db.Server.{Message, on_messages}
use tiny_db.Server.Spec.{ArgsFit, requests_spec}
use tiny_db.Server.Refine.{MessageFits, texts, on_messages-requests_spec}
use tiny_db.Server.{handle_request, int_reply, ok_reply, bulk_reply}
use tiny_db.Server.Requests.{del-reply, set-get}
use tiny_db.Server.Resp.{stoi, parse_resp, encode}
use tiny_db.Server.Resp.RoundTrip.{parse_resp-encode}

abbrev no_draws : ℕ → List Bool
no_draws i = []

abbrev clock : ℕ → ℕ
clock i = 3 + i

-- An argument may hold any byte but a newline, and may be empty.
parse_resp-encode_example :
    parse_resp (encode (codes "GET" ∷ [] ∷ (0 ∷ 13 ∷ 36 ∷ []) ∷ []))
    ≡ codes "GET" ∷ [] ∷ (0 ∷ 13 ∷ 36 ∷ []) ∷ []
parse_resp-encode_example =
    parse_resp-encode (codes "GET" ∷ [] ∷ (0 ∷ 13 ∷ 36 ∷ []) ∷ []) (omega arith) (omega arith)

encode_runs :
    encode (codes "GET" ∷ codes "k" ∷ [])
    ≡ codes "*2"
      ++ (crlf
          ++ (codes "$3"
              ++ (crlf
                  ++ (codes "GET" ++ (crlf ++ (codes "$1" ++ (crlf ++ (codes "k" ++ crlf))))))))
unfolding encode tiny_db.Server.Resp.encode_args tiny_db.Db.decimal
encode_runs = refl

del-reply_example :
    (d' : Db ℕ) × (handle_request disk checksum length counted options no_draws clock
        (encode (codes "DEL" ∷ (1 ∷ []) ∷ (2 ∷ []) ∷ []))
        started
      ≡ some (d', int_reply 0))
    × (d'.cache ≡ started.cache)
del-reply_example =
    del-reply disk disk-WritesAll checksum length counted options no_draws clock (1 ∷ [])
      ((2 ∷ []) ∷ []) started one_entry-Writes.holds (record { fits = omega arith }) (omega arith)
      (omega arith) (omega arith)

set-get_example :
    (d1 d2 : Db ℕ) × (handle_request disk checksum length counted options no_draws clock
        (encode (codes "SET" ∷ (1 ∷ []) ∷ (80 ∷ 81 ∷ []) ∷ []))
        started
      ≡ some (d1, ok_reply))
    × (handle_request disk checksum length counted options no_draws clock
          (encode (codes "GET" ∷ (1 ∷ []) ∷ []))
          d1
        ≡ some (d2, bulk_reply (10 ∷ [])))
unfolding tiny_db.Lru.insert tiny_db.Lru.push_front
set-get_example =
    set-get disk disk-WritesAll checksum length counted options (λ path t n. (n + 1, refl)) started
      (λ i. two_entries) full-Holds one_entry-Writes.holds (record { fits = omega arith }) (1 ∷ [])
      (80 ∷ 81 ∷ []) (omega arith) (omega arith) refl (omega arith) (omega arith) (omega arith)
      no_draws no_draws clock clock

-- An argument with a newline in it is cut off from what follows: the loop looks for the end of the
-- argument from its start.
newline_runs :
    parse_resp (encode (codes "SET" ∷ (10 ∷ 97 ∷ []) ∷ codes "v" ∷ []))
    ≡ codes "SET" ∷ (10 ∷ 97 ∷ []) ∷ []
unfolding parse_resp tiny_db.Server.Resp.parse_args tiny_db.Server.Resp.parse_arg stoi
    tiny_db.Server.Resp.digits tiny_db.Server.Resp.next_line tiny_db.Server.Resp.find
    tiny_db.Server.Resp.substr encode tiny_db.Server.Resp.encode_args tiny_db.Db.decimal
newline_runs = refl

-- A message that ends before the argument yields the start of the message.
cut_runs : parse_resp (codes "*1" ++ (crlf ++ codes "$2")) ≡ codes "*1" ∷ []
unfolding parse_resp tiny_db.Server.Resp.parse_args tiny_db.Server.Resp.parse_arg stoi
    tiny_db.Server.Resp.digits tiny_db.Server.Resp.next_line tiny_db.Server.Resp.find
    tiny_db.Server.Resp.substr
cut_runs = refl

-- A SET, a GET of its key, and a message that is no request.
abbrev three_messages : List Message
three_messages =
    record {
      text = encode (codes "SET" ∷ (107 ∷ []) ∷ (118 ∷ []) ∷ []);
      draws = λ i. [];
      now = λ i. 3;
    }
    ∷ record { text = encode (codes "GET" ∷ (107 ∷ []) ∷ []); draws = λ i. []; now = λ i. 4 }
    ∷ record { text = []; draws = λ i. []; now = λ i. 5 }
    ∷ []

three_messages-Fits : All MessageFits three_messages
unfolding parse_resp
three_messages-Fits = (
  subst ArgsFit
      (sym (
        parse_resp-encode (codes "SET" ∷ (107 ∷ []) ∷ (118 ∷ []) ∷ [])
          (
            (omega arith, omega arith),
            ((omega arith, omega arith), ((omega arith, omega arith), tt)),
          )
          (omega arith)))
      (λ e. (omega arith, omega arith), λ e. absurd (cc e)),
  (
    subst ArgsFit
        (sym (
          parse_resp-encode (codes "GET" ∷ (107 ∷ []) ∷ [])
            ((omega arith, omega arith), ((omega arith, omega arith), tt)) (omega arith)))
        (λ e. absurd (cc e), λ e. absurd (cc e)),
    (tt, tt),
  ),
)

on_messages-requests_spec_example :
    Agrees 2
      (on_messages disk checksum length counted options three_messages (new_db 2 0 [] no_node 0))
      (requests_spec checksum length counted_spec options 2
        (texts three_messages)
        (new_spec 0 [] 0))
on_messages-requests_spec_example =
    on_messages-requests_spec disk disk-WritesAll checksum length counted counted_spec
      (record { convert_same = λ h path f. refl; seek_same = λ f path key. refl }) options 2
      three_messages three_messages-Fits (new_db-Refines 2 0 [] no_node 0)
