-- ===== src/Server/Resp/RoundTrip.antt =====
-- A request that a client sends is read back: `parseRESP` of src/server/server.cpp.
use tiny_db.Prelude.{
  ℕ, zero, suc, ◌+◌, ◌/◌, ◌%◌, ◌^◌, ◌<◌, ◌≡◌, ◌≢◌, refl, sym, ap, ◌∙◌, false, some, List, [], ◌∷◌,
  ◌++◌, Bytes, All, length, length-append, drop, take-append, drop-append, append_assoc, ltb, ◌==◌,
  arith, inl, inr, Bool-cases,
}
use tiny_db.Prelude.Int.{ℤ, pos}
use tiny_db.Db.{decimal}
use tiny_db.Server.Resp.{
  stoi, find, next_line, substr, parse_arg, parse_args, parse_resp, encode_arg, encode_args, encode,
}
use tiny_db.Server.Resp.Numbers.{stoi-decimal}

-- The text has no newline.
abbrev pub IsLine : Bytes → Type 0
IsLine = All (λ (c : ℕ). c ≢ 10)

find-line :
    (text rest : Bytes) → IsLine text → find (text ++ (13 ∷ 10 ∷ rest)) ≡ some (length text + 1)
unfolding find
find-line [] rest h = refl
find-line (c ∷ text) rest (other, h) =
    let no_newline : (c == 10) ≡ false = ground arith in
    rw (no_newline, find-line text rest h) (ap some (omega arith))

next_line-found :
    (request : Bytes) (at i : ℕ)
    → find (drop at request) ≡ some i
    → next_line request at ≡ at + i + 1
unfolding next_line
next_line-found request at i h = rw (h, next_line) refl

-- A line that stands behind other text ends where the rest begins.
next_line-line :
    (front text rest : Bytes)
    → IsLine text
    → next_line (front ++ (text ++ (13 ∷ 10 ∷ rest))) (length front)
      ≡ length front + length text + 2
next_line-line front text rest h =
    next_line-found _ (length front) (length text + 1) (
      ap find (drop-append (length front) front (text ++ (13 ∷ 10 ∷ rest)) refl)
      ∙ find-line text rest h)
    ∙ omega arith

IsLine-append : (xs ys : Bytes) → IsLine xs → IsLine ys → IsLine (xs ++ ys)
IsLine-append [] ys h k = k
IsLine-append (x ∷ xs) ys h k = (h.0, IsLine-append xs ys h.1 k)

decimal-IsLine : (f n : ℕ) → IsLine (decimal f n)
unfolding decimal
decimal-IsLine zero n = tt
decimal-IsLine (suc f) n = elim (Bool-cases (ltb n 10)) [
  | inl small ↦ rw small (omega arith, tt)
  | inr large ↦ rw large (
      IsLine-append (decimal f (n / 10)) ((48 + n % 10) ∷ []) (decimal-IsLine f (n / 10))
        (omega arith, tt))
]

substr-inside :
    (front arg rest : Bytes)
    → substr (front ++ (arg ++ rest)) (length front) (pos (length arg)) ≡ some arg
unfolding substr
substr-inside front arg rest =
    let inside : ltb (length (front ++ (arg ++ rest))) (length front) ≡ false =
      ground (arith, length-append {0} front (arg ++ rest)) in
    rw inside (
      rw (drop-append (length front) front (arg ++ rest) refl)
        (ap some (take-append (length arg) arg rest refl)))

-- A round of the loop, from what its steps find.
parse_arg_lem :
    (request text arg : Bytes) (at line after : ℕ) (len : ℤ)
    → drop at request ≡ 36 ∷ text
    → stoi text ≡ some len
    → next_line request at ≡ line
    → substr request line len ≡ some arg
    → next_line request line ≡ after
    → parse_arg request at ≡ some (arg, after)
unfolding parse_arg
parse_arg_lem request text arg at line after len dollar number first cut second =
    rw (dollar, parse_arg) (rw (number, first, cut, second) refl)

-- The bytes behind the dollar sign.
encode_arg-rest :
    (arg rest : Bytes)
    → encode_arg arg ++ rest
      ≡ 36 ∷ (decimal 10 (length arg) ++ (13 ∷ 10 ∷ (arg ++ (13 ∷ 10 ∷ rest))))
encode_arg-rest arg rest = ap (◌∷◌ 36) (
    append_assoc (decimal 10 (length arg)) (13 ∷ 10 ∷ (arg ++ (13 ∷ 10 ∷ []))) rest
    ∙ ap (λ t. decimal 10 (length arg) ++ (13 ∷ 10 ∷ t)) (append_assoc arg (13 ∷ 10 ∷ []) rest))

-- One argument is read, wherever it stands.
parse_arg-encode_arg :
    (front arg rest : Bytes)
    → IsLine arg
    → length arg < 2 ^ 31
    → parse_arg (front ++ (encode_arg arg ++ rest)) (length front)
      ≡ some (arg, length (front ++ encode_arg arg))
parse_arg-encode_arg front arg rest line fits =
    let number = decimal 10 (length arg) in
    let tail : Bytes = arg ++ (13 ∷ 10 ∷ rest) in
    let head : Bytes = front ++ ((36 ∷ number) ++ (13 ∷ 10 ∷ [])) in
    let regroup : front ++ (36 ∷ (number ++ (13 ∷ 10 ∷ tail))) ≡ head ++ tail =
      ap (front ++◌) (ap (◌∷◌ 36) (sym (append_assoc number (13 ∷ 10 ∷ []) tail)))
      ∙ sym (append_assoc front ((36 ∷ number) ++ (13 ∷ 10 ∷ [])) tail) in
    let size_head : length front + length (36 ∷ number) + 2 ≡ length head = omega (
      arith,
      length-append {0} front ((36 ∷ number) ++ (13 ∷ 10 ∷ [])),
      length-append {0} (36 ∷ number) (13 ∷ 10 ∷ []),
    ) in
    let size_all : length head + length arg + 2 ≡ length (front ++ encode_arg arg) = omega (
      arith,
      length-append {0} front ((36 ∷ number) ++ (13 ∷ 10 ∷ [])),
      length-append {0} (36 ∷ number) (13 ∷ 10 ∷ []),
      length-append {0} front (encode_arg arg),
      length-append {0} number (13 ∷ 10 ∷ (arg ++ (13 ∷ 10 ∷ []))),
      length-append {0} arg (13 ∷ 10 ∷ []),
    ) in
    rw (encode_arg-rest arg rest) (
      parse_arg_lem (front ++ (36 ∷ (number ++ (13 ∷ 10 ∷ tail)))) (number ++ (13 ∷ 10 ∷ tail)) arg
        (length front) (length head) (length (front ++ encode_arg arg)) (pos (length arg))
        (drop-append (length front) front _ refl) (stoi-decimal (length arg) (10 ∷ tail) fits)
        (next_line-line front (36 ∷ number) tail (omega arith, decimal-IsLine 10 (length arg))
          ∙ size_head)
        (rw regroup (substr-inside head arg (13 ∷ 10 ∷ rest)))
        (rw regroup (next_line-line head arg rest line ∙ size_all)))

parse_args_more :
    (count : ℕ) (request : Bytes) (at after : ℕ) (arg : Bytes)
    → parse_arg request at ≡ some (arg, after)
    → parse_args (suc count) request at ≡ arg ∷ parse_args count request after
unfolding parse_args
parse_args_more count request at after arg h = rw (h, parse_args) refl

-- An argument that a client can send.
abbrev pub IsArg : Bytes → Type 0
IsArg arg = IsLine arg × (length arg < 2 ^ 31)

parse_args-encode_args :
    (front : Bytes) (args : List Bytes)
    → All IsArg args
    → parse_args (length args) (front ++ encode_args args) (length front) ≡ args
unfolding encode_args
parse_args-encode_args front [] h = unfold parse_args in refl
parse_args-encode_args front (arg ∷ args) ((line, fits), h) =
    parse_args_more (length args) _ (length front) (length (front ++ encode_arg arg)) arg
      (parse_arg-encode_arg front arg (encode_args args) line fits)
    ∙ ap (◌∷◌ arg) (
        rw (← append_assoc front (encode_arg arg) (encode_args args))
          (parse_args-encode_args (front ++ encode_arg arg) args h))

parse_resp_lem :
    (text : Bytes) (count line : ℕ)
    → stoi text ≡ some (pos count)
    → next_line (42 ∷ text) 0 ≡ line
    → parse_resp (42 ∷ text) ≡ parse_args count (42 ∷ text) line
unfolding parse_resp
parse_resp_lem text count line number first = rw (number, first) refl

-- A request as a client encodes it, of fewer than 2 ^ 31 arguments, each of fewer than 2 ^ 31 bytes and
-- with no newline, is parsed to its arguments.
pub parse_resp-encode :
    (args : List Bytes) → All IsArg args → length args < 2 ^ 31 → parse_resp (encode args) ≡ args
unfolding encode
parse_resp-encode args h few =
    let number = decimal 10 (length args) in
    let head : Bytes = (42 ∷ number) ++ (13 ∷ 10 ∷ []) in
    parse_resp_lem (number ++ (13 ∷ 10 ∷ encode_args args)) (length args) (length head)
      (stoi-decimal (length args) (10 ∷ encode_args args) few)
      (next_line-line [] (42 ∷ number) (encode_args args)
          (omega arith, decimal-IsLine 10 (length args))
        ∙ omega (arith, length-append {0} (42 ∷ number) (13 ∷ 10 ∷ [])))
    ∙ rw (← append_assoc (42 ∷ number) (13 ∷ 10 ∷ []) (encode_args args))
        (parse_args-encode_args head args h)
