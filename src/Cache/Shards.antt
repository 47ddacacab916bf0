-- ===== src/Cache/Shards.antt =====
-- The shards against one list of entries each.
use tiny_db.Prelude.{
  ℕ, ◌%◌, ◌^◌, ◌≡◌, refl, sym, ap, subst, ◌∙◌, true, false, Option, some, is_some, List, ◌==◌,
  ==_iff, if◌then◌else◌, Bool-cases, Option-cases, inl, inr,
}
use tiny_db.Order.{KeyOrder}
use tiny_db.Assoc
use tiny_db.Lru.{Lru}
use tiny_db.Lru.Refine.{
  Represents, touch, admit, value_at, erase-Represents, erase_lem, lookup-none, lookup-some,
}
use tiny_db.Lru.Use.{get-Represents}
use tiny_db.Lru.Admit.{insert-Represents}
use tiny_db.Cache.{Cache, with_shard, sharding_index, insert, erase, get, contains}

-- Each shard holds its entries.
abbrev pub Holds {ℓ} : {K P : Type ℓ} → Cache K P → (ℕ → List (K × P)) → Type ℓ
Holds c ms = (i : ℕ) → Represents (c i) (ms i)

-- The lists after a change in the shard `s`.
abbrev pub in_shard {ℓ} : {A : Type ℓ} → ℕ → (List A → List A) → (ℕ → List A) → ℕ → List A
in_shard s f ms i = if i == s then f (ms i) else ms i

with_shard-Holds {ℓ} :
    {K P : Type ℓ} (c : Cache K P) (ms : ℕ → List (K × P)) (s : ℕ) (l : Lru K P)
    (f : List (K × P) → List (K × P))
    → Holds c ms
    → Represents l (f (ms s))
    → Holds (with_shard c s l) (in_shard s f ms)
with_shard-Holds c ms s l f h r i = elim (Bool-cases (i == s)) [
  | inl same ↦ rw same (subst (λ j. Represents l (f (ms j))) (sym ((==_iff i s).0 same)) r)
  | inr other ↦ rw other (h i)
]

module _ {ℓ} {K P : Type ℓ} (o : KeyOrder K) (hash_fn : K → ℕ) (c : Cache K P)
    (ms : ℕ → List (K × P)) (h : Holds c ms) (key : K) where
  abbrev pub shard : ℕ
  shard = sharding_index hash_fn key

  -- Where each shard holds its entries, `insert` does not fault, and changes the shard of the key as
  -- `LRU::insert` does and no other.
  pub insert-Holds :
      (now : ℕ) (val : P)
      → (c' : Cache K P) × (insert o hash_fn now key val c ≡ some c')
        × Holds c' (in_shard shard (admit o (c shard).cap key val) ms)
  unfolding insert
  insert-Holds now val =
      let (l, run, r) =
        insert-Represents o (hash_fn key % 2 ^ 32) now key val (c shard) (ms shard) (h shard) in
      (
        with_shard c shard l,
        rw run,
        with_shard-Holds c ms shard l (admit o (c shard).cap key val) h r,
      )

  pub erase-Holds :
      (c' : Cache K P) × (erase o hash_fn c key ≡ some c')
      × Holds c' (in_shard shard (Assoc.remove o key) ms)
  unfolding erase
  erase-Holds =
      let (l, run, r) = erase-Represents o (c shard) (ms shard) (h shard) key in
      (with_shard c shard l, rw run, with_shard-Holds c ms shard l (Assoc.remove o key) h r)

  -- An erased key is not contained.
  pub erase_gone :
      (c' : Cache K P) × (erase o hash_fn c key ≡ some c') × (contains o hash_fn c' key ≡ false)
  unfolding erase
  erase_gone =
      let (l, run, r, gone) = erase_lem o (c shard) (ms shard) (h shard) key in
      let self : (shard == shard) ≡ true = (==_iff shard shard).1 refl in
      (with_shard c shard l, rw run, rw (self, gone) refl)

  -- Where each shard holds its entries, `get` does not fault; the node that it returns has the value
  -- that the key's shard holds for it, and there is none if there is no value.
  pub get-Holds :
      (c' : Cache K P) × (got : Option ℕ) × (get o hash_fn c key ≡ some (c', got))
      × (value_at (c' shard) got ≡ Assoc.lookup o key (ms shard))
      × Holds c' (in_shard shard (touch o key) ms)
  unfolding get
  get-Holds =
      let (l, got, run, value, r) = get-Represents o (c shard) (ms shard) (h shard) key in
      let self : (shard == shard) ≡ true = (==_iff shard shard).1 refl in
      (
        with_shard c shard l,
        got,
        rw run,
        rw self value,
        with_shard-Holds c ms shard l (touch o key) h r,
      )

  pub contains-Holds : contains o hash_fn c key ≡ is_some (Assoc.lookup o key (ms shard))
  contains-Holds = elim (Option-cases ((c shard).index key)) [
    | inl e ↦
        let absent = lookup-none o (c shard) (ms shard) (h shard) key e in
        ap is_some e ∙ sym (ap is_some absent)
    | inr (a, e) ↦
        let there = lookup-some o (c shard) (ms shard) (h shard) key a e in
        ap is_some e ∙ sym (ap is_some there)
  ]
