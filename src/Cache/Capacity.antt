-- ===== src/Cache/Capacity.antt =====
-- No operation of src/cache/cache.h changes the capacity of a shard.
use tiny_db.Prelude.{
  ℕ, ◌%◌, ◌^◌, ◌≡◌, refl, sym, ap, ◌∙◌, Option, none, some, ◌==◌, ==_iff, Bool-cases, inl, inr,
  ◌>>=◌,
}
use tiny_db.Order.{KeyOrder}
use tiny_db.Lru.{Lru}
use tiny_db.Lru.Capacity.{cap_or, insert-Keeps, erase-Keeps, get-Keeps}
use tiny_db.Cache.{Cache, with_shard, sharding_index, insert, erase, get}

-- The shards have the capacities that they had.
abbrev pub SameCaps : {K P : Type 0} → Cache K P → Cache K P → Type 0
SameCaps c c' = (i : ℕ) → (c' i).cap ≡ (c i).cap

with_shard-SameCaps :
    {K P : Type 0} (c : Cache K P) (s : ℕ) (l : Lru K P)
    → l.cap ≡ (c s).cap
    → SameCaps c (with_shard c s l)
with_shard-SameCaps c s l kept i = elim (Bool-cases (i == s)) [
  | inl same ↦ rw same (kept ∙ ap (λ j. (c j).cap) (sym ((==_iff i s).0 same)))
  | inr other ↦ rw other refl
]

abbrev answer : {K P A : Type 0} → Cache K P → ℕ → Lru K P × A → Option (Cache K P × A)
answer c s r = some (with_shard c s r.0, r.1)

-- The same where a shard is put back, with or without an answer.
put_back :
    {K P A : Type 0} (c c' : Cache K P) (s : ℕ) (x : Option (Lru K P × A)) (a : A)
    → cap_or (c s).cap (x >>= λ r. some r.0) ≡ (c s).cap
    → (x >>= answer c s) ≡ some (c', a)
    → SameCaps c c'
put_back {K} {P} {A} c c' s none a kept e i = absurd (cc e)
put_back {K} {P} {A} c c' s (some (l, b)) a kept e i =
    ap (λ x. (at x).cap) (sym e) ∙ with_shard-SameCaps c s l kept i
  where
    at : Option (Cache K P × A) → Lru K P
    at none = c i
    at (some r) = r.0 i

put_back_only :
    {K P : Type 0} (c c' : Cache K P) (s : ℕ) (x : Option (Lru K P))
    → cap_or (c s).cap x ≡ (c s).cap
    → (x >>= λ l. some (with_shard c s l)) ≡ some c'
    → SameCaps c c'
put_back_only {K} {P} c c' s none kept e i = absurd (cc e)
put_back_only {K} {P} c c' s (some l) kept e i =
    ap (λ x. (at x).cap) (sym e) ∙ with_shard-SameCaps c s l kept i
  where
    at : Option (Cache K P) → Lru K P
    at none = c i
    at (some d) = d i

module _ {K P : Type 0} (o : KeyOrder K) (hash_fn : K → ℕ) (c c' : Cache K P) (key : K) where
  pub insert-SameCaps :
      (now : ℕ) (val : P) → insert o hash_fn now key val c ≡ some c' → SameCaps c c'
  unfolding insert
  insert-SameCaps now val =
      let s = sharding_index hash_fn key in
      put_back_only c c' s _
        (insert-Keeps o (c s).cap (hash_fn key % 2 ^ 32) now key val (c s) refl)

  pub erase-SameCaps : erase o hash_fn c key ≡ some c' → SameCaps c c'
  unfolding erase
  erase-SameCaps =
      let s = sharding_index hash_fn key in
      put_back_only c c' s _ (erase-Keeps o (c s).cap (c s) key refl)

  pub get-SameCaps : (got : Option ℕ) → get o hash_fn c key ≡ some (c', got) → SameCaps c c'
  unfolding get
  get-SameCaps got =
      let s = sharding_index hash_fn key in
      put_back c c' s _ got (get-Keeps o (c s).cap (c s) key refl)
