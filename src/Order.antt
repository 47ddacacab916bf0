-- ===== src/Order.antt =====
-- The order of keys that the containers are generic in: `==` and `<` of the C++ key type.
use tiny_db.Prelude.{◌≡◌, ◌↔◌, ◌⊎◌, Bool, true, false, arith}
pub mod ByteString

pub record KeyOrder {ℓ} (K : Type ℓ) : Type ℓ where
  pub same : K → K → Bool
  pub less : K → K → Bool
  pub same_iff : (a b : K) → (same a b ≡ true) ↔ (a ≡ b)
  pub less_irrefl : (a : K) → less a a ≡ false
  pub less_trans : (a b c : K) → less a b ≡ true → less b c ≡ true → less a c ≡ true
  pub less_total : (a b : K) → same a b ≡ false → less a b ≡ false → less b a ≡ true

module _ {ℓ} {K : Type ℓ} (o : KeyOrder K) where
  open o use {same, less}

  pub less-ne : (a b : K) → less a b ≡ true → same a b ≡ false
  less-ne a b h = ground (arith, o.same_iff a b, o.less_irrefl a)

  pub less-ne_flip : (a b : K) → less a b ≡ true → same b a ≡ false
  less-ne_flip a b h = ground (arith, o.same_iff b a, o.less_irrefl a)

  pub less_asym : (a b : K) → less a b ≡ true → less b a ≡ false
  less_asym a b h = ground (arith, o.less_trans a b a, o.less_irrefl a)
