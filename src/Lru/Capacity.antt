-- ===== src/Lru/Capacity.antt =====
-- No operation of src/cache/lru.h changes the capacity of a shard.
use tiny_db.Prelude.{
  ℕ, ◌≡◌, refl, Bool, false, Option, some, none, ◌∷◌, ◌>>=◌, if◌then◌else◌, true, ltb, length,
  arith, Option-cases, Bool-cases, inl, inr,
}
use tiny_db.Order.{KeyOrder}
use tiny_db.Lru.{
  Lru, insert, erase, get, push_front, phantom_erase_node, unref, ref, splice, with_new_node, last,
  has,
}

-- The capacity, where there was no fault.
abbrev pub cap_or : {K P : Type 0} → ℕ → Option (Lru K P) → ℕ
cap_or n none = n
cap_or n (some c) = c.cap

module _ {K P : Type 0} (o : KeyOrder K) (n : ℕ) where
  -- The capacity is kept, or there is a fault.
  abbrev pub Keeps : Option (Lru K P) → Type 0
  Keeps x = cap_or n x ≡ n

  if-Keeps : (b : Bool) (x y : Option (Lru K P)) → Keeps x → Keeps y → Keeps (if b then x else y)
  if-Keeps true x y hx hy = hx
  if-Keeps false x y hx hy = hy

  bind-Keeps :
      {A : Type 0} (x : Option A) (f : A → Option (Lru K P))
      → ((a : A) → Keeps (f a))
      → Keeps (x >>= f)
  bind-Keeps none f h = refl
  bind-Keeps (some a) f h = h a

  found-Keeps :
      (x : Option ℕ) (y : Option (Lru K P)) (f : ℕ → Option (Lru K P))
      → Keeps y
      → ((a : ℕ) → Keeps (f a))
      → Keeps (elim x [ none ↦ y | some a ↦ f a ])
  found-Keeps none y f h hs = h
  found-Keeps (some a) y f h hs = hs a

  unref-Keeps : (c : Lru K P) (a : ℕ) → c.cap ≡ n → Keeps (unref o c a)
  unfolding unref
  unref-Keeps c a e = ground arith

  ref-Keeps : (c : Lru K P) (a : ℕ) → c.cap ≡ n → Keeps (ref c a)
  unfolding ref
  ref-Keeps c a e = ground arith

  phantom_erase_node-Keeps : (c : Lru K P) (a : ℕ) → c.cap ≡ n → Keeps (phantom_erase_node o c a)
  unfolding phantom_erase_node
  phantom_erase_node-Keeps c a e = if-Keeps (c.freed a) none _ refl (
      bind-Keeps (c.index (c.heap a).key) _
        (λ cell. if-Keeps (has cell c.nodes) _ none (unref-Keeps _ a e) refl))

  splice-Keeps : (c : Lru K P) (key : K) (a : ℕ) → c.cap ≡ n → Keeps (splice o c key a)
  unfolding splice
  splice-Keeps c key a e = if-Keeps (has a c.nodes) _ none e refl

  push_front-Keeps : (c : Lru K P) (key : K) (a : ℕ) → c.cap ≡ n → Keeps (push_front o c key a)
  unfolding push_front
  push_front-Keeps c key a e =
      if-Keeps (ltb c.cap (length (a ∷ c.nodes))) _ _
        (phantom_erase_node-Keeps _ (last a c.nodes) e) e

  pub insert-Keeps :
      (hash now : ℕ) (key : K) (val : P) (c : Lru K P)
      → c.cap ≡ n
      → Keeps (insert o hash now key val c)
  unfolding insert
  insert-Keeps hash now key val c e =
      let c' = with_new_node o hash now key val c in
      found-Keeps (c.index key) _ _ (push_front-Keeps c' key c.allocated e)
        (λ a. splice-Keeps c' key a e)

  pub erase-Keeps : (c : Lru K P) (key : K) → c.cap ≡ n → Keeps (erase o c key)
  unfolding erase
  erase-Keeps c key e = found-Keeps (c.index key) _ _ e (λ a. phantom_erase_node-Keeps c a e)

  pub get-Keeps : (c : Lru K P) (key : K) → c.cap ≡ n → Keeps (get o c key >>= λ r. some r.0)
  unfolding get splice ref
  get-Keeps c key e = elim (Option-cases (c.index key)) [
    | inl absent ↦ rw (absent, get) e
    | inr (a, there) ↦
        rw (there, get)
          (elim (Bool-cases (has a c.nodes)) [
            | inr out ↦ rw (out, splice) refl
            | inl listed ↦
                rw (listed, splice)
                  (elim (Bool-cases (c.freed a)) [
                    | inl deleted ↦ rw (deleted, ref) refl
                    | inr live ↦ rw (live, ref) e
                  ])
          ])
  ]
