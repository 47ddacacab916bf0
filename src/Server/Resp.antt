-- ===== src/Server/Resp.antt =====
-- `parseRESP` of src/server/server.cpp: the arguments of a request in the protocol of Redis.
pub mod Numbers
pub mod RoundTrip
use tiny_db.Prelude.{
  ℕ, zero, suc, ◌+◌, ◌-◌, ◌*◌, ◌^◌, Bool, true, false, ◌&&◌, ◌||◌, Option, none, some, List, [],
  ◌∷◌, ◌++◌, Bytes, length, take, drop, ltb, leb, ◌==◌, ◌>>=◌, if◌then◌else◌,
}
use tiny_db.Prelude.Int.{ℤ, pos, negsuc}
use tiny_db.Db.{decimal}

abbrev pub is_digit : ℕ → Bool
is_digit c = leb 48 c && leb c 57

-- What `isspace` accepts.
abbrev pub is_space : ℕ → Bool
is_space c = (c == 32) || (leb 9 c && leb c 13)

-- The value of the digits in front, after digits of the value given.
unfoldable pub digits : ℕ → Bytes → ℕ
digits value [] = value
digits value (c ∷ text) = if is_digit c then digits (10 * value + (c - 48)) text else value

-- A number that starts with a digit.
abbrev pub unsigned : Bytes → Option ℕ
unsigned [] = none
unsigned (c ∷ text) = if is_digit c then some (digits (c - 48) text) else none

abbrev pub int_of : Bool → ℕ → Option ℤ
int_of true zero = some (pos 0)
int_of true (suc n) = if leb (suc n) (2 ^ 31) then some (negsuc n) else none
int_of false n = if ltb n (2 ^ 31) then some (pos n) else none

-- After the white space: a sign or none, and the digits.
abbrev pub signed : Bytes → Option ℤ
signed [] = none
signed (c ∷ text) =
    if c == 45
    then unsigned text >>= int_of true
    else if c == 43
    then unsigned text >>= int_of false
    else unsigned (c ∷ text) >>= int_of false

-- `std::stoi`; `none` is an exception.
unfoldable pub stoi : Bytes → Option ℤ
stoi [] = none
stoi (c ∷ text) = let rest = stoi text in if is_space c then rest else signed (c ∷ text)

-- The index of the first newline.
unfoldable pub find : Bytes → Option ℕ
find [] = none
find (c ∷ text) = let rest = find text in if c == 10 then some 0 else (rest >>= λ i. some (suc i))

-- `request.find('\n', pos) + 1`, where `npos + 1` is 0.
unfoldable pub next_line : Bytes → ℕ → ℕ
next_line request at = elim (find (drop at request)) [ none ↦ 0 | some i ↦ at + i + 1 ]

-- `request.substr(pos, len)`, where a negative `len` is beyond any length; `none` is an exception.
unfoldable pub substr : Bytes → ℕ → ℤ → Option Bytes
substr request at len =
    if ltb (length request) at
    then none
    else elim len [ pos n ↦ some (take n (drop at request)) | negsuc n ↦ some (drop at request) ]

-- One round of the loop: the argument and the position behind it, `none` where the loop returns.
unfoldable pub parse_arg : Bytes → ℕ → Option (Bytes × ℕ)
parse_arg request at = elim (drop at request) [
  | [] ↦ none
  | c ∷ text ↦
      if c == 36
      then (stoi text >>= λ len. substr request (next_line request at) len >>= λ arg.
          some (arg, next_line request (next_line request at)))
      else none
]

-- The loop: a return and an exception give the arguments so far.
unfoldable pub parse_args : ℕ → Bytes → ℕ → List Bytes
parse_args zero request at = []
parse_args (suc count) request at = elim (parse_arg request at) [
  | none ↦ []
  | some (arg, after) ↦ arg ∷ parse_args count request after
]

-- A negative count is no round.
abbrev pub rounds : ℤ → ℕ
rounds (pos n) = n
rounds (negsuc n) = 0

unfoldable pub parse_resp : Bytes → List Bytes
parse_resp [] = []
parse_resp (c ∷ text) =
    if c == 42
    then elim (stoi text) [
      | none ↦ []
      | some count ↦ parse_args (rounds count) (c ∷ text) (next_line (c ∷ text) 0)
    ]
    else []

-- What a client sends: `$`, the length, and the argument.
abbrev pub encode_arg : Bytes → Bytes
encode_arg arg = 36 ∷ (decimal 10 (length arg) ++ (13 ∷ 10 ∷ (arg ++ (13 ∷ 10 ∷ []))))

unfoldable pub encode_args : List Bytes → Bytes
encode_args [] = []
encode_args (arg ∷ args) = encode_arg arg ++ encode_args args

unfoldable pub encode : List Bytes → Bytes
encode args = 42 ∷ (decimal 10 (length args) ++ (13 ∷ 10 ∷ encode_args args))
