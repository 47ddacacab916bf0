-- ===== src/Lru/Refine.antt =====
-- The shard against a list of keys and values, the one used last in front.
use tiny_db.Prelude.{
  ℕ, zero, suc, ◌≤◌, ◌≡◌, refl, ap, sym, ◌∙◌, subst, true, Option, none, some, List, [], ◌∷◌,
  length, take, ◌==◌, All, arith, Bool-cases, Option-cases, inl, inr,
}
use tiny_db.Prelude.Int.{pos}
use tiny_db.Order.{KeyOrder}
use tiny_db.Assoc
use tiny_db.Assoc.{remove-absent}
use tiny_db.Lru.{Node, Lru, new_lru, register_clean_handle, has, without, assign, splice, erase}
use tiny_db.Lru.Cells.{
  entries, IsCached, IsLinked, All-map, All-without, Distinct-without, without-apart, has-without,
  entries-same, lookup-absent, lookup-present, remove-entries,
}
use tiny_db.Lru.Evict.{self, phantom_erase_node_lem, left-IsLinked, left-entries}

-- The cache holds these entries, the one used last in front, and not more than it may.
pub record Represents {ℓ} {K P : Type ℓ} (c : Lru K P) (m : List (K × P)) : Type ℓ where
  pub linked : IsLinked c
  pub stored : entries c.heap c.nodes ≡ m
  pub within : length c.nodes ≤ c.cap

-- The node that a reader gets, by its value.
abbrev pub value_at {ℓ} : {K P : Type ℓ} → Lru K P → Option ℕ → Option P
value_at c none = none
value_at c (some a) = some (c.heap a).val

-- The entry of the key, if there is one, goes to the front.
abbrev pub touch {ℓ} : {K P : Type ℓ} → KeyOrder K → K → List (K × P) → List (K × P)
touch o k m = elim (Assoc.lookup o k m) [ none ↦ m | some v ↦ (k, v) ∷ Assoc.remove o k m ]

-- A key that is there keeps its value; of the others, with the new one, `cap` stay.
abbrev pub admit {ℓ} : {K P : Type ℓ} → KeyOrder K → ℕ → K → P → List (K × P) → List (K × P)
admit o cap k v m = elim (Assoc.lookup o k m) [
  | none ↦ take cap ((k, v) ∷ m)
  | some w ↦ (k, w) ∷ Assoc.remove o k m
]

length-without : (a : ℕ) (l : List ℕ) → length (without a l) ≤ length l
length-without a [] = omega arith
length-without a (b ∷ l) = ground (arith, length-without a l)

length-without-has : (a : ℕ) (l : List ℕ) → has a l ≡ true → suc (length (without a l)) ≡ length l
length-without-has a [] h = cc
length-without-has a (b ∷ l) h = ground (arith, length-without-has a l)

pub take_all {ℓ} : {A : Type ℓ} (n : ℕ) (xs : List A) → length xs ≤ n → take n xs ≡ xs
take_all zero [] h = refl
take_all zero (x ∷ xs) h = absurd (omega arith)
take_all (suc n) [] h = refl
take_all (suc n) (x ∷ xs) h = rw (take_all n xs (omega arith))

module _ {ℓ} {K P : Type ℓ} (o : KeyOrder K) (c : Lru K P) (m : List (K × P)) (r : Represents c m)
    (key : K) where
  indexed-All : All (λ b. c.index (c.heap b).key ≡ some b) c.nodes
  indexed-All =
      All-map (IsCached c) (IsCached c) (λ b. c.index (c.heap b).key ≡ some b) c.nodes
        (λ b v w. v.indexed) r.linked.cached r.linked.cached

  pub lookup-none : c.index key ≡ none → Assoc.lookup o key m ≡ none
  lookup-none e =
      ap (Assoc.lookup o key) (sym r.stored)
      ∙ lookup-absent o c.heap c.index key c.nodes indexed-All e

  pub lookup-some : (a : ℕ) → c.index key ≡ some a → Assoc.lookup o key m ≡ some (c.heap a).val
  lookup-some a e =
      let at = r.linked.listed key a e in
      ap (Assoc.lookup o key) (sym r.stored)
      ∙ lookup-present o c.heap c.index key a c.nodes indexed-All e at.1 at.0

  remove_cell :
      (a : ℕ) → c.index key ≡ some a → entries c.heap (without a c.nodes) ≡ Assoc.remove o key m
  remove_cell a e =
      sym (remove-entries o c.heap c.index key a c.nodes indexed-All e (r.linked.listed key a e).1)
      ∙ ap (Assoc.remove o key) r.stored

  pub erase_lem :
      (c' : Lru K P) × (erase o c key ≡ some c')
      × Represents c' (Assoc.remove o key m)
      × (c'.index key ≡ none)
  unfolding erase
  erase_lem = elim (Option-cases (c.index key)) [
    | inl e ↦
        (c, rw (e, erase), subst (Represents c) (sym (remove-absent o key m (lookup-none e))) r, e)
    | inr (a, e) ↦
        let (there, is_key) = r.linked.listed key a e in
        let (c', run, l) = phantom_erase_node_lem o c a r.linked there in
        let same : o.same (c.heap a).key key ≡ true = (o.same_iff (c.heap a).key key).1 is_key in
        (
          c',
          rw (e, erase) run,
          record {
            linked = left-IsLinked o c a r.linked there c' l;
            stored = left-entries o c a r.linked there c' l ∙ remove_cell a e;
            within = omega (
              arith,
              r.within,
              ap (λ (x : List ℕ). length x) l.nodes,
              l.cap,
              length-without a c.nodes,
            );
          },
          ap (λ t. t key) l.index ∙ rw same refl,
        )
  ]

  -- In a cache with these entries `erase` of a key ends without a fault, whether the key is there or
  -- not and whether its node is still held or not, at a cache with the other entries, in their order.
  pub erase-Represents :
      (c' : Lru K P) × (erase o c key ≡ some c') × Represents c' (Assoc.remove o key m)
  erase-Represents = let (c', run, r', gone) = erase_lem in (c', run, r')

  -- The cache with the cell in front.
  abbrev pub fronted : ℕ → Lru K P
  fronted a = record c { nodes = a ∷ without a c.nodes }

  assign_same : (a : ℕ) → c.index key ≡ some a → assign o key (some a) c.index ≡ c.index
  assign_same a e = λ i q. at q i
    where
      at : (q : K) → assign o key (some a) c.index q ≡ c.index q
      at q = elim (Bool-cases (o.same key q)) [
        | inl same ↦ rw same (sym e ∙ ap c.index ((o.same_iff key q).0 same))
        | inr other ↦ rw other
      ]

  pub splice_lem : (a : ℕ) → c.index key ≡ some a → splice o c key a ≡ some (fronted a)
  unfolding splice
  splice_lem a e =
      rw ((r.linked.listed key a e).0)
        (ap (λ t. some (record c { nodes = a ∷ without a c.nodes; index = t })) (assign_same a e))

  pub fronted-Represents :
      (a : ℕ)
      → c.index key ≡ some a
      → Represents (fronted a) ((key, (c.heap a).val) ∷ Assoc.remove o key m)
  fronted-Represents a e = record {
    linked = record {
      cached = (
        moved a (self o c a r.linked there),
        All-map (IsCached c) (IsCached c) (IsCached (fronted a)) (without a c.nodes)
            (λ b v w. moved b v) (All-without (IsCached c) a c.nodes r.linked.cached)
            (All-without (IsCached c) a c.nodes r.linked.cached),
      );
      listed = λ k b at_k. (still b (r.linked.listed k b at_k).0, (r.linked.listed k b at_k).1);
      distinct =
          (without-apart a c.nodes r.linked.distinct, Distinct-without a c.nodes r.linked.distinct);
      handle = r.linked.handle;
    };
    stored = rw (at_key, remove_cell a e);
    within = omega (arith, r.within, length-without-has a c.nodes there);
  }
    where
      there : has a c.nodes ≡ true
      there = (r.linked.listed key a e).0

      at_key : (c.heap a).key ≡ key
      at_key = (r.linked.listed key a e).1

      moved : (b : ℕ) → IsCached c b → IsCached (fronted a) b
      moved b v = record {
        alive = v.alive;
        indexed = v.indexed;
        marked = v.marked;
        held = v.held;
        old = v.old;
      }

      still : (b : ℕ) → has b c.nodes ≡ true → has b (a ∷ without a c.nodes) ≡ true
      still b h = elim (Bool-cases (a == b)) [
        | inl same ↦ rw same
        | inr other ↦ rw other (has-without a b c.nodes other h)
      ]

-- Other reference counts, as long as none of a cached node falls to 0.
module _ {ℓ} {K P : Type ℓ} (c : Lru K P) (m : List (K × P)) (r : Represents c m)
    (heap' : ℕ → Node K P) (keys : (b : ℕ) → (heap' b).key ≡ (c.heap b).key)
    (vals : (b : ℕ) → (heap' b).val ≡ (c.heap b).val)
    (marks : (b : ℕ) → (heap' b).in_cache ≡ (c.heap b).in_cache)
    (holds : (b : ℕ) → IsCached c b → (n : ℕ) × ((heap' b).ref_cnt ≡ pos (suc n))) where
  pub recounted-Represents : Represents (record c { heap = heap' }) m
  recounted-Represents = record {
    linked = record {
      cached =
          All-map (IsCached c) (IsCached c) (IsCached (record c { heap = heap' })) c.nodes
            (λ b v w. record {
              alive = v.alive;
              indexed = rw (keys b) v.indexed;
              marked = marks b ∙ v.marked;
              held = holds b v;
              old = v.old;
            })
            r.linked.cached r.linked.cached;
      listed = λ k b at_k. ((r.linked.listed k b at_k).0, keys b ∙ (r.linked.listed k b at_k).1);
      distinct = r.linked.distinct;
      handle = r.linked.handle;
    };
    stored = entries-same c.heap heap' c.nodes keys vals ∙ r.stored;
    within = r.within;
  }

-- A new cache whose destructor is registered is empty.
pub new_lru-Represents {ℓ} :
    {K P : Type ℓ} (cap : ℕ) (node : Node K P)
    → Represents (register_clean_handle (new_lru cap node)) []
new_lru-Represents cap node = record {
  linked = record { cached = tt; listed = λ k a e. cc; distinct = tt; handle = refl };
  stored = refl;
  within = omega arith;
}
