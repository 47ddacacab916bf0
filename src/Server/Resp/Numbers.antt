-- ===== src/Server/Resp/Numbers.antt =====
-- A number that is written in digits is read back: `std::stoi` in src/server/server.cpp.
use tiny_db.Prelude.{
  ℕ, zero, suc, ◌+◌, ◌-◌, ◌*◌, ◌/◌, ◌%◌, ◌^◌, ◌≤◌, ◌<◌, ◌≡◌, refl, ap, ◌∙◌, ◌⊎◌, some, [], ◌∷◌,
  ◌++◌, Bytes, append_assoc, ltb, if◌then◌else◌, arith, inl, inr, Bool-cases, ltb→lt,
}
use tiny_db.Prelude.Int.{pos}
use tiny_db.Db.{decimal}
use tiny_db.Server.Resp.{digits, stoi}

digits-digit :
    (v c : ℕ) (rest : Bytes)
    → 48 ≤ c
    → c ≤ 57
    → digits v (c ∷ rest) ≡ digits (10 * v + (c - 48)) rest
unfolding digits
digits-digit v c rest low high = ground arith

-- The digits of a number, in front of more text, are read as the number.
pub digits-decimal :
    (f n : ℕ) (rest : Bytes) → n < 10 ^ f → digits 0 (decimal f n ++ rest) ≡ digits n rest
unfolding decimal
digits-decimal zero n rest h = let e : n ≡ 0 = omega arith in rw e refl
digits-decimal (suc f) n rest h = elim (Bool-cases (ltb n 10)) [
  | inl small ↦
      let low : n < 10 = ltb→lt _ _ small in
      rw small (
        digits-digit 0 (48 + n) rest (omega arith) (omega arith)
        ∙ ap (λ v. digits v rest) (omega arith))
  | inr large ↦
      let less : n / 10 < 10 ^ f = omega arith in
      rw large (
        ap (digits 0) (append_assoc (decimal f (n / 10)) ((48 + n % 10) ∷ []) rest)
        ∙ digits-decimal f (n / 10) ((48 + n % 10) ∷ rest) less
        ∙ digits-digit (n / 10) (48 + n % 10) rest (omega arith) (omega arith)
        ∙ ap (λ v. digits v rest) (omega arith))
]

abbrev Starts : Bytes → Type 0
Starts bytes = (c : ℕ) × (text : Bytes) × (bytes ≡ c ∷ text) × (48 ≤ c) × (c ≤ 57)

Starts-append : (xs ys : Bytes) → Starts xs → Starts (xs ++ ys)
Starts-append xs ys (c, text, e, low, high) = (c, text ++ ys, rw e, low, high)

-- The last digit, behind digits or behind nothing.
last-Starts :
    (n : ℕ) (front : Bytes)
    → ((front ≡ []) ⊎ Starts front)
    → Starts (if ltb n 10 then (48 + n) ∷ [] else front ++ ((48 + n % 10) ∷ []))
last-Starts n front h = elim (Bool-cases (ltb n 10)) [
  | inl small ↦
      let low : n < 10 = ltb→lt _ _ small in rw small (48 + n, [], refl, omega arith, omega arith)
  | inr large ↦ rw large (elim h [
    | inl e ↦ rw e (48 + n % 10, [], refl, omega arith, omega arith)
    | inr s ↦ Starts-append front ((48 + n % 10) ∷ []) s
  ])
]

decimal-Starts : (f n : ℕ) → Starts (decimal (suc f) n)
unfolding decimal
decimal-Starts zero n = last-Starts n [] (inl refl)
decimal-Starts (suc f) n =
    last-Starts n (decimal (suc f) (n / 10)) (inr (decimal-Starts f (n / 10)))

stoi-digits :
    (c : ℕ) (text : Bytes) (n : ℕ)
    → 48 ≤ c
    → c ≤ 57
    → digits 0 (c ∷ text) ≡ n
    → n < 2 ^ 31
    → stoi (c ∷ text) ≡ some (pos n)
unfolding stoi digits
stoi-digits c text n low high e fits = ground arith

stop : (n : ℕ) (rest : Bytes) → digits n (13 ∷ rest) ≡ n
unfolding digits
stop n rest = refl

-- A number in front of a carriage return is read whole.
pub stoi-decimal :
    (n : ℕ) (rest : Bytes) → n < 2 ^ 31 → stoi (decimal 10 n ++ (13 ∷ rest)) ≡ some (pos n)
stoi-decimal n rest fits =
    let (c, text, e, low, high) = decimal-Starts 9 n in
    let read : digits 0 (decimal 10 n ++ (13 ∷ rest)) ≡ n =
      digits-decimal 10 n (13 ∷ rest) (omega arith) ∙ stop n rest in
    rw e (stoi-digits c (text ++ (13 ∷ rest)) n low high (rw e at read) fits)
