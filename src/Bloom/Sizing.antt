-- ===== src/Bloom/Sizing.antt =====
-- The filter that the constructor of src/filter/bloom_filter.cpp makes.
use tiny_db.Prelude.{
  ℕ, zero, suc, ◌+◌, ◌*◌, ◌/◌, ◌^◌, ◌≤◌, ◌<◌, ◌≡◌, refl, ap, some, List, Bytes, All, length, ltb,
  lt→ltb, arith,
}
use tiny_db.Prelude.Int.{ℤ, pos}
use tiny_db.Bloom.{Filter, Formulas, new_filter, zeros, in_range, create_filter, exists}
use tiny_db.Bloom.NoLoss.{exists-create_filter}

length-zeros : (n : ℕ) → length (zeros n) ≡ n
length-zeros zero = refl
length-zeros (suc n) = ap suc (length-zeros n)

in_range_bounds : (n : ℤ) → (1 ≤ in_range n) × (in_range n ≤ 32)
in_range_bounds n = ground arith

-- For a positive number of keys, and where the formula for the number of bits gives a positive number
-- below 2 ^ 31 - 7: the constructor divides by no 0 and throws nothing, the array has at least that
-- many bits, there are from 1 to 32 hash functions whatever the formula for them gives, and after
-- `create_filter` of any keys `exists` answers true for each of them that is not empty.
pub new_filter-exists :
    {F : Type 0} (formulas : Formulas F) (k n : ℕ) (false_positive : F)
    → formulas.bits_num false_positive (pos (suc k)) ≡ pos (suc n)
    → suc n + 7 < 2 ^ 31
    → (keys : List Bytes)
    → (f : Filter) × (g : Filter) × (new_filter formulas (pos (suc k)) false_positive ≡ some f)
      × (suc n ≤ length f.bits_array * 8)
      × (1 ≤ f.hash_func_num)
      × (f.hash_func_num ≤ 32)
      × (create_filter f keys ≡ some g)
      × All (λ key. exists g key ≡ some (ltb 0 (length key))) keys
unfolding new_filter
new_filter-exists formulas k n fp bits small keys =
    let size = (suc n + 7) / 8 in
    let f : Filter = record {
      hash_func_num = in_range (formulas.hash_num (pos (size * 8 / suc k)));
      bits_array = zeros size;
    } in
    let (g, run, found) = exists-create_filter f keys (omega (arith, length-zeros size)) in
    let (low, high) = in_range_bounds (formulas.hash_num (pos (size * 8 / suc k))) in
    (
      f,
      g,
      rw (bits, lt→ltb _ _ small) refl,
      omega (arith, length-zeros size),
      low,
      high,
      run,
      found,
    )
