-- ===== src/Prelude/Bits.antt =====
-- Masks and disjoint fields as arithmetic, from the recursion on binary digits that the native
-- operations stand for.
use Prim.Native.Nat.{
  ℕ, zero, suc, ◌+◌, ◌*◌, ◌/◌, ◌%◌, ◌^◌, ◌≤◌, ◌<◌, min, max, bit_and, bit_or, digits,
}
use Prim.Native.Nat.{bit_and-bitwise, bit_or-bitwise}
use mathlib.Core.Path.{◌≡◌, refl, ap, ◌∙◌}
use native.Mathlib.Nat.{pow-suc}
use native.Mathlib.Omega.{arith}

module _ (z : ℕ → ℕ) (op : ℕ → ℕ → ℕ) where
  -- The fuel of the digit recursion does not matter, once it is enough.
  fuel_irrelevant : (n m a b : ℕ) → a ≤ n → a ≤ m → digits z op n a b ≡ digits z op m a b
  fuel_irrelevant zero zero a b p q = refl
  fuel_irrelevant zero (suc m) zero b p q = refl
  fuel_irrelevant zero (suc m) (suc a) b p q = absurd (omega arith)
  fuel_irrelevant (suc n) zero zero b p q = refl
  fuel_irrelevant (suc n) zero (suc a) b p q = absurd (omega arith)
  fuel_irrelevant (suc n) (suc m) zero b p q = refl
  fuel_irrelevant (suc n) (suc m) (suc a) b p q =
      rw (fuel_irrelevant n m (suc a / 2) (b / 2) (omega arith) (omega arith))

or_digit : (a b : ℕ) → bit_or a b ≡ bit_or (a / 2) (b / 2) * 2 + max (a % 2) (b % 2)
or_digit zero b = simp bit_or-bitwise (omega arith)
or_digit (suc a) b = simp bit_or-bitwise (
    omega (
      arith,
      fuel_irrelevant (λ y. y) max a (suc a / 2) (suc a / 2) (b / 2) (omega arith) (omega arith),
    ))

and_digit : (a b : ℕ) → bit_and a b ≡ bit_and (a / 2) (b / 2) * 2 + min (a % 2) (b % 2)
and_digit zero b = simp bit_and-bitwise (omega arith)
and_digit (suc a) b = simp bit_and-bitwise (
    omega (
      arith,
      fuel_irrelevant (λ y. 0) min a (suc a / 2) (suc a / 2) (b / 2) (omega arith) (omega arith),
    ))

zero-or : (b : ℕ) → bit_or 0 b ≡ b
zero-or b = simp bit_or-bitwise

-- A field above bit `k` joins what stands below that bit by a sum.
pub or_field : (k r q : ℕ) → r < 2 ^ k → bit_or r (q * 2 ^ k) ≡ r + q * 2 ^ k
or_field zero r q h = let e : r ≡ 0 = omega arith in rw (e, zero-or) (omega arith)
or_field (suc k) r q h = ground (
  arith,
  or_digit r (q * 2 ^ suc k),
  ap (λ (t : ℕ). q * t) (pow-suc 2 k),
  pow-suc 2 k,
  or_field k (r / 2) q (omega arith),
)

and-zero : (n a : ℕ) → a ≤ n → bit_and a 0 ≡ 0
and-zero n zero h = refl
and-zero zero (suc a) h = absurd (omega arith)
and-zero (suc n) (suc a) h =
    omega (arith, and_digit (suc a) 0, and-zero n (suc a / 2) (omega arith))

-- One more digit of a mask of ones.
and_ones : (a m : ℕ) → bit_and a (m * 2 + 1) ≡ bit_and (a / 2) m * 2 + a % 2
and_ones a m =
    let half : (m * 2 + 1) / 2 ≡ m = omega arith in
    let digit : min (a % 2) ((m * 2 + 1) % 2) ≡ a % 2 = omega arith in
    and_digit a (m * 2 + 1) ∙ rw (half, digit)

-- `& 0xff` keeps the low byte.
pub and_byte : (a : ℕ) → bit_and a 0xff ≡ a % 256
and_byte a =
    let top = a / 2 / 2 / 2 / 2 / 2 / 2 / 2 / 2 in
    omega (
      arith,
      and_ones a 0x7f,
      and_ones (a / 2) 0x3f,
      and_ones (a / 2 / 2) 0x1f,
      and_ones (a / 2 / 2 / 2) 0xf,
      and_ones (a / 2 / 2 / 2 / 2) 7,
      and_ones (a / 2 / 2 / 2 / 2 / 2) 3,
      and_ones (a / 2 / 2 / 2 / 2 / 2 / 2) 1,
      and_ones (a / 2 / 2 / 2 / 2 / 2 / 2 / 2) 0,
      and-zero top top (omega arith),
    )

-- `|` clears no bit that a mask selects, and sets those of its second argument.
or_keeps : (n a b c : ℕ) → c ≤ n → bit_and a c ≤ bit_and (bit_or a b) c
or_keeps zero a b c h =
    let e : c ≡ 0 = omega arith in
    rw e (omega (arith, and-zero a a, and-zero (bit_or a b) (bit_or a b)))
or_keeps (suc n) a b zero h = omega (arith, and-zero a a)
or_keeps (suc n) a b (suc c) h = ground (
  arith,
  and_digit a (suc c),
  and_digit (bit_or a b) (suc c),
  or_digit a b,
  or_keeps n (a / 2) (b / 2) (suc c / 2) (omega arith),
)

pub bit_kept : (a b c : ℕ) → bit_and a c ≤ bit_and (bit_or a b) c
bit_kept a b c = or_keeps c a b c (omega arith)

or_sets : (n a c : ℕ) → c ≤ n → c ≤ bit_and (bit_or a c) c
or_sets zero a c h = omega arith
or_sets (suc n) a zero h = omega arith
or_sets (suc n) a (suc c) h = ground (
  arith,
  and_digit (bit_or a (suc c)) (suc c),
  or_digit a (suc c),
  or_sets n (a / 2) (suc c / 2) (omega arith),
)

pub bit_set : (a c : ℕ) → c ≤ bit_and (bit_or a c) c
bit_set a c = or_sets c a c (omega arith)
