-- ===== src/Bloom/Tests.antt =====
-- The Bloom filter of src/filter/bloom_filter.cpp at concrete keys.
use tiny_db.Prelude.{
  ℕ, ◌+◌, ◌*◌, ◌/◌, ◌≤◌, ◌≡◌, refl, none, some, List, [], ◌∷◌, Bytes, All, length, ltb, arith,
}
use tiny_db.Prelude.Int.{ℤ, pos, negsuc}
use tiny_db.Bloom.{Filter, Formulas, new_filter, array_size, bits_per_key, create_filter, exists}
use tiny_db.Bloom.Sizing.{new_filter-exists}

-- Ten bits for each key, and seven tenths of a function for each bit.
abbrev tens : Formulas ℕ
tens = record {
  bits_num =
      λ false_positive keys_num. elim keys_num [ pos n ↦ pos (n * 10) | negsuc n ↦ negsuc n ];
  hash_num = λ per_key. elim per_key [ pos n ↦ pos (n * 7 / 10) | negsuc n ↦ negsuc n ];
}

abbrev three_keys : List Bytes
three_keys = (104 ∷ 101 ∷ 108 ∷ 108 ∷ 111 ∷ []) ∷ [] ∷ (49 ∷ []) ∷ []

new_filter-exists_example :
    (f : Filter) × (g : Filter) × (new_filter tens (pos 3) 1 ≡ some f)
    × (30 ≤ length f.bits_array * 8)
    × (1 ≤ f.hash_func_num)
    × (f.hash_func_num ≤ 32)
    × (create_filter f three_keys ≡ some g)
    × All (λ key. exists g key ≡ some (ltb 0 (length key))) three_keys
new_filter-exists_example = new_filter-exists tens 2 29 1 refl (omega arith) three_keys

-- No keys are expected: a division by 0.
no_keys : new_filter tens (pos 0) 1 ≡ none
unfolding new_filter
no_keys = refl

negative_bits : array_size (negsuc 13) ≡ some 0
negative_bits = refl

negative_keys : bits_per_key 20 (negsuc 2) ≡ some (negsuc 5)
unfolding tiny_db.Prelude.Int.◌-ℤ◌
negative_keys = refl
