-- ===== src/Db/Workload/Main.antt =====
-- The keys and values of src/main.cpp, and what its threads find out.
use tiny_db.Prelude.{
  ℕ, zero, suc, ◌+◌, ◌*◌, ◌/◌, ◌%◌, ◌^◌, ◌<◌, ◌≤◌, ◌≡◌, ◌≢◌, refl, sym, ap, ◌∙◌, Bool, true, false,
  Option, none, some, List, [], ◌∷◌, ◌++◌, Bytes, length, length-append, map, All, ltb, arith,
  Bool-cases, inl, inr, drop, ◌⊎◌,
}
use tiny_db.Order.ByteString.{bytes_same, same→eq, eq→same}
use tiny_db.MemTable.{c_str}
use tiny_db.Db.{decimal}
use tiny_db.Db.Workload.{IsPlain, Put, Get, put_calls, get_calls, IsWorkload, total, last_value}
use tiny_db.Db.Workload.Run.{answer_all-put_calls}
use tiny_db.Status.{Status}
use tiny_db.Wal.{Checksum}
use tiny_db.File.{System, WritesAll}
use tiny_db.Lru.{Node}
use tiny_db.Db.{Db, Tables, Options, new_db}
use tiny_db.Db.Calls.{answer_all}
use tiny_db.Db.Spec.{TablesSpec}
use tiny_db.Db.Refine.{IsFaithful}
use tiny_db.Server.Resp.{digits}
use tiny_db.Server.Resp.Numbers.{digits-decimal}

-- `"key" + std::to_string(i)` and `"value" + std::to_string(i)`
abbrev pub key_of : ℕ → Bytes
key_of i = 107 ∷ 101 ∷ 121 ∷ decimal 10 i

abbrev pub value_of : ℕ → Bytes
value_of i = 118 ∷ 97 ∷ 108 ∷ 117 ∷ 101 ∷ decimal 10 i

-- A turn of a thread that writes, and one of a thread that reads, with an empty `value`.
abbrev pub write_item : List Bool × ℕ × ℕ → Put
write_item (bits, now, i) = record { bits = bits; now = now; key = key_of i; value = value_of i }

abbrev pub read_item : ℕ × ℕ → Get
read_item (now, i) = record { now = now; key = key_of i; ret = []; value = value_of i }

c_str-append :
    (front : Bytes) (d : ℕ)
    → c_str front ≡ front
    → d ≢ 0
    → c_str (front ++ (d ∷ [])) ≡ front ++ (d ∷ [])
c_str-append [] d h ne = ground arith
c_str-append (b ∷ front) d h ne = ground (arith, c_str-append front d)

c_str-decimal : (f n : ℕ) → c_str (decimal f n) ≡ decimal f n
unfolding decimal
c_str-decimal zero n = refl
c_str-decimal (suc f) n = elim (Bool-cases (ltb n 10)) [
  | inl short ↦ rw short (ground arith)
  | inr long ↦
      rw long
        (c_str-append (decimal f (n / 10)) (48 + n % 10) (c_str-decimal f (n / 10)) (omega arith))
]

length-decimal : (f n : ℕ) → length (decimal f n) ≤ f
unfolding decimal
length-decimal zero n = omega arith
length-decimal (suc f) n = elim (Bool-cases (ltb n 10)) [
  | inl short ↦ rw short (omega arith)
  | inr long ↦ rw long (
      omega
        (arith, length-decimal f (n / 10), length-append (decimal f (n / 10)) ((48 + n % 10) ∷ [])))
]

decimal_injective : (a b : ℕ) → a < 10 ^ 10 → b < 10 ^ 10 → decimal 10 a ≡ decimal 10 b → a ≡ b
unfolding digits
decimal_injective a b p q e =
    sym (digits-decimal 10 a [] p) ∙ ap (λ x. digits 0 (x ++ [])) e ∙ digits-decimal 10 b [] q

key_of-IsPlain : (i : ℕ) → IsPlain (key_of i)
key_of-IsPlain i = record {
  filled = refl;
  whole = ap (λ t. 107 ∷ 101 ∷ 121 ∷ t) (c_str-decimal 10 i);
}

value_of-IsPlain : (i : ℕ) → IsPlain (value_of i)
value_of-IsPlain i = record {
  filled = refl;
  whole = ap (λ t. 118 ∷ 97 ∷ 108 ∷ 117 ∷ 101 ∷ t) (c_str-decimal 10 i);
}

keys_differ :
    (i j : ℕ) → i < 10 ^ 10 → j < 10 ^ 10 → i ≢ j → bytes_same (key_of i) (key_of j) ≡ false
keys_differ i j p q ne = elim (Bool-cases (bytes_same (key_of i) (key_of j))) [
  | inl same ↦
      absurd (ne (decimal_injective i j p q (ap (drop 3) (same→eq (key_of i) (key_of j) same))))
  | inr other ↦ other
]

-- The numbers that the threads that write come to, each once.
abbrev pub IsOrder : List (List Bool × ℕ × ℕ) → Type 0
IsOrder [] = Unit
IsOrder ((bits, now, i) ∷ order) = (i < 10 ^ 10) × All (λ x. i ≢ x.2) order × IsOrder order

abbrev pub IsWritten : ℕ → List (List Bool × ℕ × ℕ) → Type 0
IsWritten i [] = ⊥
IsWritten i ((bits, now, j) ∷ order) = (i ≡ j) ⊎ IsWritten i order

others :
    (i : ℕ) (order : List (List Bool × ℕ × ℕ))
    → i < 10 ^ 10
    → All (λ x. i ≢ x.2) order
    → IsOrder order
    → All (λ r. bytes_same (key_of i) r.key ≡ false) (map write_item order)
others i [] p ne h = tt
others i ((bits, now, j) ∷ order) p (ne, rest) (q, _, h) =
    (keys_differ i j p q ne, others i order p rest h)

write_item-IsWorkload :
    (order : List (List Bool × ℕ × ℕ)) → IsOrder order → IsWorkload (map write_item order)
write_item-IsWorkload [] h = tt
write_item-IsWorkload ((bits, now, i) ∷ order) (p, ne, h) = (
  (
    key_of-IsPlain i,
    value_of-IsPlain i,
    omega (arith, length-decimal 10 i),
    omega (arith, length-decimal 10 i),
  ),
  others i order p ne h,
  write_item-IsWorkload order h,
)

total_small : (order : List (List Bool × ℕ × ℕ)) → total (map write_item order) ≤ 28 * length order
total_small [] = omega arith
total_small ((bits, now, i) ∷ order) = omega (arith, length-decimal 10 i, total_small order)

same_value : (i j : ℕ) → bytes_same (key_of j) (key_of i) ≡ true → value_of j ≡ value_of i
same_value i j same =
    ap (λ t. 118 ∷ 97 ∷ 108 ∷ 117 ∷ 101 ∷ drop 3 t) (same→eq (key_of j) (key_of i) same)

-- Whoever writes a key of a number writes its value.
last_value-stays :
    (i : ℕ) (order : List (List Bool × ℕ × ℕ))
    → last_value (key_of i) (map write_item order) (some (value_of i)) ≡ some (value_of i)
last_value-stays i [] = refl
last_value-stays i ((bits, now, j) ∷ order) = elim (Bool-cases (bytes_same (key_of j) (key_of i))) [
  | inl same ↦
      rw (last_value, same)
        (ap (λ v. last_value (key_of i) (map write_item order) (some v)) (same_value i j same)
          ∙ last_value-stays i order)
  | inr other ↦ rw (last_value, other) (last_value-stays i order)
]

last_value-written :
    (i : ℕ) (order : List (List Bool × ℕ × ℕ)) (old : Option Bytes)
    → IsWritten i order
    → last_value (key_of i) (map write_item order) old ≡ some (value_of i)
last_value-written i [] old h = absurd h
last_value-written i ((bits, now, j) ∷ order) old (inl e) =
    rw (last_value, eq→same (key_of j) (key_of i) (ap key_of (sym e)))
      (ap (λ x. last_value (key_of i) (map write_item order) (some (value_of x))) (sym e)
        ∙ last_value-stays i order)
last_value-written i ((bits, now, j) ∷ order) old (inr h) = last_value-written i order _ h

reads_written :
    (order : List (List Bool × ℕ × ℕ)) (reads : List (ℕ × ℕ))
    → All (λ x. IsWritten x.1 order) reads
    → All
        (λ g. IsPlain g.key × (last_value g.key (map write_item order) none ≡ some g.value))
        (map read_item reads)
reads_written order [] h = tt
reads_written order ((now, i) ∷ reads) (w, h) =
    ((key_of-IsPlain i, last_value-written i order none w), reads_written order reads h)

module _ {F : Type 0} (crc : Checksum) (hash_fn : Bytes → ℕ) (spec : TablesSpec F)
    (options : Options) (capacity : ℕ) where
  -- If the threads of main that write come to at most 50000 numbers below 10 ^ 10, each once, in
  -- whatever order they get the lock, and those that read come to numbers that were written, one
  -- after the other in whatever order, then, on a system whose writes take all bytes, where what a
  -- table is converted to depends on its entries alone, and with a memtable of at least 1400000
  -- and fewer than 2 ^ 64 bytes, on a new database every Put answers Success, and every Get
  -- answers Success with the value of its number.
  pub answer_all-read_item :
      (os : System)
      → WritesAll os
      → (tables : Tables F) → IsFaithful tables spec
      → 1400000 ≤ options.mem_table_max_size
      → options.mem_table_max_size < 2 ^ 64
      → (order : List (List Bool × ℕ × ℕ)) → IsOrder order
      → length order ≤ 50000
      → (reads : List (ℕ × ℕ)) → All (λ x. IsWritten x.1 order) reads
      → (wal_file : Bytes) (node : Node Bytes Bytes) (files : F)
      → (d1 : Db F) × (d2 : Db F) × (answer_all os crc hash_fn tables options
            (put_calls (map write_item order))
            (new_db capacity 0 wal_file node files)
          ≡ some (d1, map (λ p. (Status.success, [])) (map write_item order)))
        × (answer_all os crc hash_fn tables options (get_calls (map read_item reads)) d1
            ≡ some (d2, map (λ g. (Status.success, g.value)) (map read_item reads)))
  answer_all-read_item os all tables faithful room bound order once few reads written wal_file node
        files =
      answer_all-put_calls crc hash_fn spec options capacity os all tables faithful
        (map write_item order) (map read_item reads) (write_item-IsWorkload order once)
        (omega (arith, total_small order)) bound (reads_written order reads written) 0 wal_file node
        files
