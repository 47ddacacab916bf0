-- ===== src/Order/ByteString.antt =====
-- `operator==` and `operator<` of `std::string`: lexicographic on unsigned bytes.
use tiny_db.Prelude.{
  ◌≡◌, refl, Bool, true, false, ◌&&◌, [], ◌∷◌, Bytes, ltb, ◌==◌, if◌then◌else◌, arith,
}
use tiny_db.Order.{KeyOrder}

abbrev pub bytes_same : Bytes → Bytes → Bool
bytes_same [] [] = true
bytes_same [] (b ∷ bs) = false
bytes_same (a ∷ as') [] = false
bytes_same (a ∷ as') (b ∷ bs) = (a == b) && bytes_same as' bs

abbrev pub bytes_less : Bytes → Bytes → Bool
bytes_less _ [] = false
bytes_less [] (b ∷ bs) = true
bytes_less (a ∷ as') (b ∷ bs) =
    if ltb a b then true else if a == b then bytes_less as' bs else false

pub same→eq : (a b : Bytes) → bytes_same a b ≡ true → a ≡ b
same→eq [] [] h = refl
same→eq [] (b ∷ bs) h = ground arith
same→eq (a ∷ as') [] h = ground arith
same→eq (a ∷ as') (b ∷ bs) h = ground (arith, same→eq as' bs)

same_refl : (a : Bytes) → bytes_same a a ≡ true
same_refl [] = refl
same_refl (a ∷ as') = ground (arith, same_refl as')

pub eq→same : (a b : Bytes) → a ≡ b → bytes_same a b ≡ true
eq→same a b e = ground (arith, same_refl a)

pub irrefl : (a : Bytes) → bytes_less a a ≡ false
irrefl [] = refl
irrefl (a ∷ as') = ground (arith, irrefl as')

pub trans : (a b c : Bytes) → bytes_less a b ≡ true → bytes_less b c ≡ true → bytes_less a c ≡ true
trans a b [] p q = ground arith
trans [] b (c ∷ cs) p q = refl
trans (a ∷ as') [] (c ∷ cs) p q = ground arith
trans (a ∷ as') (b ∷ bs) (c ∷ cs) p q = ground (arith, trans as' bs cs)

pub total : (a b : Bytes) → bytes_same a b ≡ false → bytes_less a b ≡ false → bytes_less b a ≡ true
total [] [] p q = ground arith
total [] (b ∷ bs) p q = ground arith
total (a ∷ as') [] p q = refl
total (a ∷ as') (b ∷ bs) p q = ground (arith, total as' bs)

-- `std::string` keys.
abbrev pub byte_string : KeyOrder Bytes
byte_string = record {
  same = bytes_same;
  less = bytes_less;
  same_iff = λ a b. (same→eq a b, eq→same a b);
  less_irrefl = irrefl;
  less_trans = trans;
  less_total = total;
}
