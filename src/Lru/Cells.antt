-- ===== src/Lru/Cells.antt =====
-- The cells of `nodes` and what they hold.
use tiny_db.Prelude.{
  ℕ, zero, suc, ◌<◌, ◌≡◌, refl, ap, sym, ◌∙◌, subst, true, false, Option, none, some, List, [], ◌∷◌,
  length, take, ◌==◌, ==_iff, All, arith, Bool-cases, inl, inr,
}
use tiny_db.Prelude.Int.{pos}
use tiny_db.Order.{KeyOrder}
use tiny_db.Assoc
use tiny_db.Lru.{Node, Lru, has, without, last, with_node}

-- What the cells of a list hold.
abbrev pub entries {ℓ} : {K P : Type ℓ} → (ℕ → Node K P) → List ℕ → List (K × P)
entries heap [] = []
entries heap (a ∷ l) = ((heap a).key, (heap a).val) ∷ entries heap l

abbrev pub Distinct : List ℕ → Type 0
Distinct [] = Unit
Distinct (a ∷ l) = All (λ b. (a == b) ≡ false) l × Distinct l

-- A node of the cache.
pub record IsCached {ℓ} {K P : Type ℓ} (c : Lru K P) (a : ℕ) : Type ℓ where
  pub alive : c.freed a ≡ false
  pub indexed : c.index (c.heap a).key ≡ some a
  pub marked : (c.heap a).in_cache ≡ true
  pub held : (n : ℕ) × ((c.heap a).ref_cnt ≡ pos (suc n))
  pub old : a < c.allocated

-- List, index and heap agree.
pub record IsLinked {ℓ} {K P : Type ℓ} (c : Lru K P) : Type ℓ where
  pub cached : All (IsCached c) c.nodes
  pub listed : (k : K) (a : ℕ) → c.index k ≡ some a → (has a c.nodes ≡ true) × ((c.heap a).key ≡ k)
  pub distinct : Distinct c.nodes
  pub handle : c.has_destructor ≡ true

pub All-has {ℓ} : (C : ℕ → Type ℓ) (a : ℕ) (l : List ℕ) → All C l → has a l ≡ true → C a
All-has C a [] h e = cc
All-has C a (b ∷ l) h e = elim (Bool-cases (b == a)) [
  | inl same ↦ subst C ((==_iff b a).0 same) h.0
  | inr other ↦ All-has C a l h.1 (rw other at e)
]

pub All-map {ℓ κ μ} :
    (C : ℕ → Type ℓ) (D : ℕ → Type κ) (E : ℕ → Type μ) (l : List ℕ)
    → ((a : ℕ) → C a → D a → E a)
    → All C l
    → All D l
    → All E l
All-map C D E [] f h k = tt
All-map C D E (a ∷ l) f h k = (f a h.0 k.0, All-map C D E l f h.1 k.1)

pub All-without {ℓ} : (C : ℕ → Type ℓ) (a : ℕ) (l : List ℕ) → All C l → All C (without a l)
All-without C a [] h = tt
All-without C a (b ∷ l) h = elim (Bool-cases (b == a)) [
  | inl same ↦ rw same h.1
  | inr other ↦ rw other (h.0, All-without C a l h.1)
]

pub Distinct-without : (a : ℕ) (l : List ℕ) → Distinct l → Distinct (without a l)
Distinct-without a [] d = tt
Distinct-without a (b ∷ l) d = elim (Bool-cases (b == a)) [
  | inl same ↦ rw same d.1
  | inr other ↦ rw other (All-without (λ x. (b == x) ≡ false) a l d.0, Distinct-without a l d.1)
]

-- What is taken out is not there any more.
pub without-apart : (a : ℕ) (l : List ℕ) → Distinct l → All (λ b. (a == b) ≡ false) (without a l)
without-apart a [] d = tt
without-apart a (b ∷ l) d = elim (Bool-cases (b == a)) [
  | inl same ↦ rw same (subst (λ x. All (λ b. (x == b) ≡ false) l) ((==_iff b a).0 same) d.0)
  | inr other ↦ rw other (ground arith, without-apart a l d.1)
]

pub has-without :
    (a b : ℕ) (l : List ℕ) → (a == b) ≡ false → has b l ≡ true → has b (without a l) ≡ true
has-without a b [] e h = cc
has-without a b (x ∷ l) e h = ground (arith, has-without a b l)

pub has-last : (a : ℕ) (l : List ℕ) → has (last a l) (a ∷ l) ≡ true
has-last a [] = ground arith
has-last a (b ∷ l) = ground (arith, has-last b l)

-- Without its last cell the list is one shorter.
pub without-last :
    (a : ℕ) (l : List ℕ) → Distinct (a ∷ l) → without (last a l) (a ∷ l) ≡ take (length l) (a ∷ l)
without-last a [] d = ground arith
without-last a (b ∷ l) d =
    let apart = All-has (λ x. (a == x) ≡ false) (last b l) (b ∷ l) d.0 (has-last b l) in
    rw (apart, without-last b l d.1)

module _ {ℓ} {K P : Type ℓ} where
  pub entries-take :
      (heap : ℕ → Node K P) (n : ℕ) (l : List ℕ) → entries heap (take n l) ≡ take n (entries heap l)
  entries-take heap zero l = refl
  entries-take heap (suc n) [] = refl
  entries-take heap (suc n) (a ∷ l) = rw (entries-take heap n l)

  pub length-entries : (heap : ℕ → Node K P) (l : List ℕ) → length (entries heap l) ≡ length l
  length-entries heap [] = refl
  length-entries heap (a ∷ l) = omega (arith, length-entries heap l)

  -- A write to a node that is not in the list.
  pub entries-with_node :
      (heap : ℕ → Node K P) (a : ℕ) (node : Node K P) (l : List ℕ)
      → All (λ b. (a == b) ≡ false) l
      → entries (with_node heap a node) l ≡ entries heap l
  entries-with_node heap a node [] h = refl
  entries-with_node heap a node (b ∷ l) h =
      let flip : (b == a) ≡ false = ground (arith, h.0) in
      rw (flip, entries-with_node heap a node l h.1)

  -- A write that keeps key and value.
  pub entries-same :
      (heap heap' : ℕ → Node K P) (l : List ℕ)
      → ((a : ℕ) → (heap' a).key ≡ (heap a).key)
      → ((a : ℕ) → (heap' a).val ≡ (heap a).val)
      → entries heap' l ≡ entries heap l
  entries-same heap heap' [] hk hv = refl
  entries-same heap heap' (a ∷ l) hk hv = rw (hk a, hv a, entries-same heap heap' l hk hv)

  module _ (o : KeyOrder K) (heap : ℕ → Node K P) (index : K → Option ℕ) where
    pub lookup-absent :
        (k : K) (l : List ℕ)
        → All (λ a. index (heap a).key ≡ some a) l
        → index k ≡ none
        → Assoc.lookup o k (entries heap l) ≡ none
    lookup-absent k [] h e = refl
    lookup-absent k (a ∷ l) h e = elim (Bool-cases (o.same (heap a).key k)) [
      | inl same ↦ let eq = (o.same_iff (heap a).key k).0 same in absurd (cc)
      | inr other ↦ rw other (lookup-absent k l h.1 e)
    ]

    same_cell :
        (k : K) (a b : ℕ)
        → index (heap b).key ≡ some b
        → index k ≡ some a
        → (heap a).key ≡ k
        → o.same (heap b).key k ≡ (b == a)
    same_cell k a b at_b at_k key = elim (Bool-cases (b == a)) [
      | inl e ↦
          let eq : b ≡ a = (==_iff b a).0 e in
          let keys : (heap b).key ≡ k = ap (λ x. (heap x).key) eq ∙ key in
          (o.same_iff (heap b).key k).1 keys ∙ sym e
      | inr e ↦ elim (Bool-cases (o.same (heap b).key k)) [
        | inl same ↦
            let keys = (o.same_iff (heap b).key k).0 same in
            let cells : some b ≡ some a = sym at_b ∙ ap index keys ∙ at_k in ground (arith, cells)
        | inr other ↦ other ∙ sym e
      ]
    ]

    pub lookup-present :
        (k : K) (a : ℕ) (l : List ℕ)
        → All (λ b. index (heap b).key ≡ some b) l
        → index k ≡ some a
        → (heap a).key ≡ k
        → has a l ≡ true
        → Assoc.lookup o k (entries heap l) ≡ some (heap a).val
    lookup-present k a [] h e same there = cc
    lookup-present k a (b ∷ l) h e key there = elim (Bool-cases (b == a)) [
      | inl hit ↦
          let eq : b ≡ a = (==_iff b a).0 hit in
          rw (same_cell k a b h.0 e key, hit) (ap (λ x. some (heap x).val) eq)
      | inr miss ↦
          rw (same_cell k a b h.0 e key, miss) (lookup-present k a l h.1 e key (rw miss at there))
    ]

    pub remove-entries :
        (k : K) (a : ℕ) (l : List ℕ)
        → All (λ b. index (heap b).key ≡ some b) l
        → index k ≡ some a
        → (heap a).key ≡ k
        → Assoc.remove o k (entries heap l) ≡ entries heap (without a l)
    remove-entries k a [] h e key = refl
    remove-entries k a (b ∷ l) h e key = elim (Bool-cases (b == a)) [
      | inl hit ↦ rw (same_cell k a b h.0 e key, hit)
      | inr miss ↦ rw (same_cell k a b h.0 e key, miss, remove-entries k a l h.1 e key)
    ]
