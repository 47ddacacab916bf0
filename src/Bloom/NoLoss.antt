-- ===== src/Bloom/NoLoss.antt =====
-- A key that the filter was given is found: bits are set and never cleared.
use tiny_db.Prelude.{
  ℕ, zero, suc, ◌*◌, ◌%◌, ◌^◌, ◌≡◌, refl, sym, ap, ◌∙◌, some, List, [], ◌∷◌, Bytes, All, length,
  ◌==◌, ltb, arith, Bool-cases, inl, inr, ◌≢◌,
}
use tiny_db.Bloom.{
  Filter, delta, bits_size, set_bits, set_key, create_filter, add, exists, murmur_hash2,
}
use tiny_db.Bloom.Bits.{Keeps, Keeps-trans, set_bits-Keeps, test_bits_mono, test-set_bits}

-- The filter `g` has the rounds of `f` and at least its bits.
pub record Grows (f g : Filter) : Type 0 where
  pub same_rounds : g.hash_func_num ≡ f.hash_func_num
  pub keeps : Keeps f.bits_array g.bits_array

Grows-trans : (f g h : Filter) → Grows f g → Grows g h → Grows f h
Grows-trans f g h p q = record {
  same_rounds = q.same_rounds ∙ p.same_rounds;
  keeps = Keeps-trans f.bits_array g.bits_array h.bits_array p.keeps q.keeps;
}

abbrev pub IsFound : Filter → Bytes → Type 0
IsFound f key = exists f key ≡ some (ltb 0 (length key))

same_size : (f g : Filter) → Grows f g → bits_size g.bits_array ≡ bits_size f.bits_array
same_size f g p = ap (λ n. n * 8 % 2 ^ 32) p.keeps.same_length

IsFound-Grows :
    (f g : Filter) (key : Bytes)
    → bits_size f.bits_array ≢ 0
    → Grows f g
    → IsFound f key
    → IsFound g key
unfolding exists
IsFound-Grows f g [] sized p e = refl
IsFound-Grows f g (b ∷ key) sized p e =
    let h = murmur_hash2 (b ∷ key) in
    rw (p.same_rounds, same_size f g p)
      (ground (
        arith,
        sized,
        test_bits_mono f.hash_func_num (bits_size f.bits_array) h (delta h) f.bits_array
            g.bits_array p.keeps,
      ))

-- The filter with the bits of the key.
abbrev with_key : Filter → Bytes → Filter
with_key f key =
    let h = murmur_hash2 key in
    record f {
      bits_array = set_bits f.hash_func_num (bits_size f.bits_array) h (delta h) f.bits_array;
    }

with_key-Grows : (f : Filter) (key : Bytes) → Grows f (with_key f key)
with_key-Grows f key = record {
  same_rounds = refl;
  keeps = set_bits-Keeps f.hash_func_num (bits_size f.bits_array) (murmur_hash2 key) _ f.bits_array;
}

IsFound-with_key :
    (f : Filter) (key : Bytes) → bits_size f.bits_array ≢ 0 → IsFound (with_key f key) key
unfolding exists
IsFound-with_key f [] sized = refl
IsFound-with_key f (b ∷ key) sized =
    let h = murmur_hash2 (b ∷ key) in
    rw (same_size f (with_key f (b ∷ key)) (with_key-Grows f (b ∷ key))) (
      ground (
        arith,
        sized,
        test-set_bits f.hash_func_num (bits_size f.bits_array) h (delta h) f.bits_array,
      ))

-- With no rounds there is nothing to set, and every key is found.
no_rounds : (rounds size h d : ℕ) (bits : Bytes) → rounds ≡ 0 → set_bits rounds size h d bits ≡ bits
unfolding set_bits
no_rounds zero size h d bits e = refl
no_rounds (suc rounds) size h d bits e = absurd (omega arith)

set_key_runs :
    (f : Filter) (key : Bytes) → bits_size f.bits_array ≢ 0 → set_key f key ≡ some (with_key f key)
unfolding set_key
set_key_runs f key sized = elim (Bool-cases (f.hash_func_num == 0)) [
  | inl e ↦
      let same =
        no_rounds f.hash_func_num (bits_size f.bits_array) (murmur_hash2 key) _ f.bits_array
          (ground arith) in
      rw e (ap (λ bits. some (record f { bits_array = bits })) (sym same))
  | inr e ↦ rw e (ground (arith, sized))
]

pub create_filter_lem :
    (f : Filter) (keys : List Bytes)
    → bits_size f.bits_array ≢ 0
    → (g : Filter) × (create_filter f keys ≡ some g) × Grows f g × All (IsFound g) keys
unfolding create_filter
create_filter_lem f [] sized = (
  f,
  refl,
  record {
    same_rounds = refl;
    keeps = record { same_length = refl; kept = λ i mask. omega arith };
  },
  tt,
)
create_filter_lem f (key ∷ keys) sized =
    let grows = with_key-Grows f key in
    let sized' : bits_size (with_key f key).bits_array ≢ 0 =
      λ e. sized (sym (same_size f _ grows) ∙ e) in
    let (g, run, grows', all) = create_filter_lem (with_key f key) keys sized' in
    (
      g,
      rw (set_key_runs f key sized) run,
      Grows-trans f (with_key f key) g grows grows',
      (IsFound-Grows (with_key f key) g key sized' grows' (IsFound-with_key f key sized), all),
    )

-- Where the array has bits, `create_filter` of any keys does not divide by 0, and afterwards `exists`
-- answers true for each of them that is not empty, and false for the empty one.
pub exists-create_filter :
    (f : Filter) (keys : List Bytes)
    → bits_size f.bits_array ≢ 0
    → (g : Filter) × (create_filter f keys ≡ some g)
      × All (λ key. exists g key ≡ some (ltb 0 (length key))) keys
exists-create_filter f keys sized =
    let (g, run, grows, all) = create_filter_lem f keys sized in (g, run, all)

-- `add`, where the array has bits, does not divide by 0; the key is found if it is not empty, and so
-- is each key that was found before.
pub exists-add :
    (f : Filter) (key other : Bytes)
    → bits_size f.bits_array ≢ 0
    → exists f other ≡ some (ltb 0 (length other))
    → (g : Filter) × (add f key ≡ some g)
      × (exists g key ≡ some (ltb 0 (length key)))
      × (exists g other ≡ some (ltb 0 (length other)))
unfolding add
exists-add f [] other sized e = (f, refl, unfold exists in refl, e)
exists-add f (b ∷ key) other sized e =
    let k : Bytes = b ∷ key in
    (
      with_key f k,
      set_key_runs f k sized,
      IsFound-with_key f k sized,
      IsFound-Grows f (with_key f k) other sized (with_key-Grows f k) e,
    )
