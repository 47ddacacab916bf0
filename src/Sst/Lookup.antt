-- ===== src/Sst/Lookup.antt =====
-- How src/sstparser/sst_parser.cpp looks a key up, and the keys of the index that
-- src/table/sstable_builder.cpp writes.
use tiny_db.Prelude.{
  ℕ, zero, suc, ◌+◌, ◌%◌, ◌<◌, ◌≡◌, ◌≢◌, refl, ap, subst, ◌∙◌, ◌⊎◌, true, false, none, some, List,
  [], ◌∷◌, Bytes, All, length, take, ltb, ◌==◌, arith, Bool-cases, Option-cases, inl, inr,
}
use tiny_db.Order.ByteString.{bytes_less}
use tiny_db.Sst.Builder.{bump_last, same_positions, find_shortest_key}
use tiny_db.Sst.Parser.{IndexBlock, find_key_db_index, block_at}

-- No key of the index is above the key.
abbrev pub NoneAbove : Bytes → List IndexBlock → Type 0
NoneAbove key = All (λ (b : IndexBlock). bytes_less key b.shortest_key ≡ false)

-- `FindKeyDBIndex` answers the number of the first block whose key in the index is above the key, and
-- -1 exactly if there is none.
pub find_key_db_index_lem :
    (key : Bytes) (blocks : List IndexBlock)
    → ((find_key_db_index key blocks ≡ none) × NoneAbove key blocks)
      ⊎ ((i : ℕ) × (block : IndexBlock) × (find_key_db_index key blocks ≡ some i)
          × (block_at blocks i ≡ some block)
          × (bytes_less key block.shortest_key ≡ true)
          × NoneAbove key (take i blocks))
unfolding find_key_db_index
find_key_db_index_lem key [] = inl (refl, tt)
find_key_db_index_lem key (b ∷ blocks) = elim (Bool-cases (bytes_less key b.shortest_key)) [
  | inl e ↦ inr (0, b, rw e refl, refl, e, tt)
  | inr e ↦ elim (find_key_db_index_lem key blocks) [
    | inl (run, h) ↦ inl (rw (e, run) refl, (e, h))
    | inr (i, block, run, at, above, h) ↦ inr (suc i, block, rw (e, run) refl, at, above, (e, h))
  ]
]

-- Bytes that a bump does not wrap.
abbrev pub HasRoom : Bytes → Type 0
HasRoom = All (λ (b : ℕ). b < 255)

bump_last-one : (a : ℕ) → a < 255 → bump_last (a ∷ []) ≡ some (suc a ∷ [])
unfolding bump_last
bump_last-one a h = let e : (a + 1) % 256 ≡ suc a = omega arith in rw e refl

bump_last-more :
    (a c : ℕ) (k s : Bytes)
    → bump_last (a ∷ c ∷ k) ≡ some s
    → (t : Bytes) × (bump_last (c ∷ k) ≡ some t) × (s ≡ a ∷ t)
unfolding bump_last
bump_last-more a c k s e = elim (Option-cases (bump_last (c ∷ k))) [
  | inl stuck ↦ absurd (cc (rw stuck at e))
  | inr (t, run) ↦ (t, run, cc (rw run at e))
]

above_suc : (a : ℕ) (k : Bytes) → bytes_less (a ∷ k) (suc a ∷ []) ≡ true
above_suc a k = ground arith

same_head : (a : ℕ) (k s : Bytes) → bytes_less (a ∷ k) (a ∷ s) ≡ bytes_less k s
same_head a k s = ground arith

one_above :
    (a : ℕ) (k s : Bytes) → a < 255 → bump_last (a ∷ []) ≡ some s → bytes_less (a ∷ k) s ≡ true
one_above a k s small e =
    let same : suc a ∷ [] ≡ s = cc (bump_last-one a small) in
    subst (λ (t : Bytes). bytes_less (a ∷ k) t ≡ true) same (above_suc a k)

-- A bumped front of a key is above the key.
bump_last-above :
    (n : ℕ) (k s : Bytes) → HasRoom k → bump_last (take (suc n) k) ≡ some s → bytes_less k s ≡ true
bump_last-above n [] s room e = absurd (unfold bump_last in cc)
bump_last-above zero (a ∷ k) s (small, room) e = one_above a k s small e
bump_last-above (suc n) (a ∷ []) s (small, room) e = one_above a [] s small e
bump_last-above (suc n) (a ∷ c ∷ k) s (small, room) e =
    let (t, run, same) = bump_last-more a c (take n k) s e in
    rw same (same_head a (c ∷ k) t ∙ bump_last-above n (c ∷ k) t room run)

one_not_below :
    (a b : ℕ) (key2 s : Bytes)
    → a < b
    → a < 255
    → bump_last (a ∷ []) ≡ some s
    → bytes_less (b ∷ key2) s ≡ false
one_not_below a b key2 s less small e =
    let same : suc a ∷ [] ≡ s = cc (bump_last-one a small) in
    subst (λ (t : Bytes). bytes_less (b ∷ key2) t ≡ false) same (above key2)
  where
    above : (key2 : Bytes) → bytes_less (b ∷ key2) (suc a ∷ []) ≡ false
    above [] = ground arith
    above (c ∷ key2) = ground arith

-- Where the first bytes differ.
differ_lem :
    (a b m : ℕ) (key1 key2 s : Bytes)
    → a < b
    → a < 255
    → bump_last (take (suc m) (a ∷ key1)) ≡ some s
    → bytes_less (b ∷ key2) s ≡ false
differ_lem a b zero key1 key2 s less small e = one_not_below a b key2 s less small e
differ_lem a b (suc m) [] key2 s less small e = one_not_below a b key2 s less small e
differ_lem a b (suc m) (c ∷ k) key2 s less small e =
    let (t, run, same) = bump_last-more a c (take m k) s e in
    let other : (b == a) ≡ false = ground arith in
    let above : ltb b a ≡ false = ground arith in rw same (rw (above, other) refl)

-- Of a key that is bumped behind the place where it falls below another, the other is not below it.
not_below :
    (key1 key2 s : Bytes)
    → bytes_less key1 key2 ≡ true
    → same_positions key1 key2 ≢ length key1
    → HasRoom key1
    → bump_last (take (suc (same_positions key1 key2)) key1) ≡ some s
    → bytes_less key2 s ≡ false
unfolding same_positions
not_below [] key2 s less short room e = absurd (short refl)
not_below (a ∷ key1) [] s less short room e = absurd (ground arith)
not_below (a ∷ []) (b ∷ key2) s less short (small, room) e = elim (Bool-cases (a == b)) [
  | inl same ↦ absurd (short (rw same refl))
  | inr differ ↦ differ_lem a b 0 [] key2 s (ground arith) small (rw differ at e)
]
not_below (a ∷ c ∷ k) (b ∷ key2) s less short (small, room) e = elim (Bool-cases (a == b)) [
  | inl same ↦
      let m = same_positions (c ∷ k) key2 in
      let (t, run, head) = bump_last-more a c (take m k) s (rw same at e) in
      let less' : bytes_less (c ∷ k) key2 ≡ true = ground arith in
      let ih = not_below (c ∷ k) key2 t less' (λ h. short (rw same (ap suc h))) room run in
      rw head (ground (arith, ih))
  | inr differ ↦
      differ_lem a b (same_positions (c ∷ k) key2) (c ∷ k) key2 s (ground arith) small
        (rw differ at e)
]

-- The key that `find_shortest_key` gives for two keys, where not as many positions agree as the first key
-- has bytes, and the first has no byte 255, is above the first key, and the second is not below it.
pub find_shortest_key_lem :
    (key1 key2 s : Bytes)
    → find_shortest_key key1 key2 ≡ some s
    → same_positions key1 key2 ≢ length key1
    → HasRoom key1
    → (bytes_less key1 s ≡ true) × (bytes_less key2 s ≡ false)
unfolding find_shortest_key
find_shortest_key_lem [] key2 s e short room = absurd (cc)
find_shortest_key_lem (a ∷ key1) [] s e short room = absurd (cc)
find_shortest_key_lem (a ∷ key1) (b ∷ key2) s e short room =
    elim (Bool-cases (bytes_less (a ∷ key1) (b ∷ key2))) [
      | inr wrong ↦ absurd (cc (rw wrong at e))
      | inl less ↦
          let part : (length (a ∷ key1) == same_positions (a ∷ key1) (b ∷ key2)) ≡ false =
            ground (arith, short) in
          let run = rw (less, part) at e in
          (
            bump_last-above (same_positions (a ∷ key1) (b ∷ key2)) (a ∷ key1) s room run,
            not_below (a ∷ key1) (b ∷ key2) s less short room run,
          )
    ]
