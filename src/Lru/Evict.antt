-- ===== src/Lru/Evict.antt =====
-- A node leaves the cache: `phantom_erase_node`.
use tiny_db.Prelude.{
  ℕ, ◌≡◌, refl, ap, sym, ◌∙◌, subst, true, false, none, some, List, [], ◌∷◌, ◌==◌, ==_iff,
  if◌then◌else◌, All, arith, Bool-cases, inl, inr,
}
use tiny_db.Prelude.Int.{pos, ◌-ℤ◌}
use tiny_db.Order.{KeyOrder}
use tiny_db.Lru.{
  Node, Lru, has, without, last, not_held, assign, with_node, unref, phantom_erase_node,
}
use tiny_db.Lru.Cells.{
  entries, Distinct, IsCached, IsLinked, All-has, All-map, All-without, Distinct-without,
  without-apart, has-without,
}

-- The second cache differs from the first in the node `a`, the garbage and what was destroyed.
pub record Leaves {ℓ} {K P : Type ℓ} (c : Lru K P) (a : ℕ) (c' : Lru K P) : Type ℓ where
  pub cap : c'.cap ≡ c.cap
  pub nodes : c'.nodes ≡ c.nodes
  pub index : c'.index ≡ c.index
  has_destructor : c'.has_destructor ≡ c.has_destructor
  allocated : c'.allocated ≡ c.allocated
  heap : (b : ℕ) → (a == b) ≡ false → c'.heap b ≡ c.heap b
  freed : (b : ℕ) → (a == b) ≡ false → c'.freed b ≡ c.freed b

module _ {ℓ} {K P : Type ℓ} (o : KeyOrder K) where
  unref_lem :
      (c : Lru K P) (a : ℕ)
      → c.freed a ≡ false
      → c.has_destructor ≡ true
      → (c' : Lru K P) × (unref o c a ≡ some c') × Leaves c a c'
  unfolding unref
  unref_lem c a alive handle =
      let count = (c.heap a).ref_cnt -ℤ pos 1 in
      let heap = with_node c.heap a (record (c.heap a) { ref_cnt = count }) in
      elim (Bool-cases (not_held count)) [
        | inl last ↦ (
          record c {
            heap = heap;
            garbage_station = assign o (c.heap a).key none c.garbage_station;
            freed = λ b. if b == a then true else c.freed b;
            destroyed = ((c.heap a).key, (c.heap a).val) ∷ c.destroyed;
          },
          rw (alive, last, handle),
          record {
            cap = refl;
            nodes = refl;
            index = refl;
            has_destructor = refl;
            allocated = refl;
            heap = λ b e. ground (arith, e);
            freed = λ b e. ground (arith, e);
          },
        )
        | inr more ↦ (
          record c { heap = heap },
          rw (alive, more),
          record {
            cap = refl;
            nodes = refl;
            index = refl;
            has_destructor = refl;
            allocated = refl;
            heap = λ b e. ground (arith, e);
            freed = λ b e. refl;
          },
        )
      ]

  module _ (c : Lru K P) (a : ℕ) (linked : IsLinked c) (there : has a c.nodes ≡ true) where
    abbrev pub taken_out : Lru K P
    taken_out = record c {
      heap = with_node c.heap a (record (c.heap a) { in_cache = false });
      nodes = without a c.nodes;
      index = assign o (c.heap a).key none c.index;
      garbage_station = assign o (c.heap a).key (some a) c.garbage_station;
    }

    pub self : IsCached c a
    self = All-has (IsCached c) a c.nodes linked.cached there

    pub phantom_erase_node_lem :
        (c' : Lru K P) × (phantom_erase_node o c a ≡ some c') × Leaves taken_out a c'
    unfolding phantom_erase_node
    phantom_erase_node_lem =
        let (c', run, l) = unref_lem taken_out a self.alive linked.handle in
        (c', rw (self.alive, self.indexed, there) run, l)

    -- Another node of the cache has another key.
    other_key :
        (b : ℕ) → IsCached c b → (a == b) ≡ false → o.same (c.heap a).key (c.heap b).key ≡ false
    other_key b v apart = elim (Bool-cases (o.same (c.heap a).key (c.heap b).key)) [
      | inl same ↦
          let keys = (o.same_iff (c.heap a).key (c.heap b).key).0 same in
          let cells : some a ≡ some b = sym self.indexed ∙ ap c.index keys ∙ v.indexed in
          ground (arith, cells)
      | inr other ↦ other
    ]

    key_apart :
        (k : K) (b : ℕ) → (c.heap b).key ≡ k → o.same (c.heap a).key k ≡ false → (a == b) ≡ false
    key_apart k b at_b other = elim (Bool-cases (a == b)) [
      | inl e ↦
          let keys : (c.heap a).key ≡ k = ap (λ x. (c.heap x).key) ((==_iff a b).0 e) ∙ at_b in
          let same = (o.same_iff (c.heap a).key k).1 keys in absurd (ground (arith, same, other))
      | inr e ↦ e
    ]

    module _ (c' : Lru K P) (l : Leaves taken_out a c') where
      heap_same : (b : ℕ) → (a == b) ≡ false → c'.heap b ≡ c.heap b
      heap_same b apart =
          let flip : (b == a) ≡ false = ground (arith, apart) in l.heap b apart ∙ rw flip

      left-IsCached : (b : ℕ) → IsCached c b → (a == b) ≡ false → IsCached c' b
      left-IsCached b v apart =
          let same = heap_same b apart in
          record {
            alive = l.freed b apart ∙ v.alive;
            indexed = rw (l.index, same, other_key b v apart) v.indexed;
            marked = rw same v.marked;
            held = rw same v.held;
            old = rw l.allocated v.old;
          }

      pub left-IsLinked : IsLinked c'
      left-IsLinked =
          let rest = without a c.nodes in
          let apart = without-apart a c.nodes linked.distinct in
          record {
            cached = subst (All (IsCached c')) (sym l.nodes) (
                All-map (IsCached c) (λ b. (a == b) ≡ false) (IsCached c') rest left-IsCached
                  (All-without (IsCached c) a c.nodes linked.cached) apart);
            listed = λ k b e. still_listed k b (ap (λ x. x k) (sym l.index) ∙ e);
            distinct = subst Distinct (sym l.nodes) (Distinct-without a c.nodes linked.distinct);
            handle = l.has_destructor ∙ linked.handle;
          }
        where
          still_listed :
              (k : K) (b : ℕ)
              → (if o.same (c.heap a).key k then none else c.index k) ≡ some b
              → (has b c'.nodes ≡ true) × ((c'.heap b).key ≡ k)
          still_listed k b e = elim (Bool-cases (o.same (c.heap a).key k)) [
            | inl same ↦ absurd (ground (arith, e, same))
            | inr other ↦
                let at_k : c.index k ≡ some b = rw other at e in
                let was = linked.listed k b at_k in
                let apart : (a == b) ≡ false = key_apart k b was.1 other in
                (
                  rw l.nodes (has-without a b c.nodes apart was.0),
                  ap (λ (n : Node K P). n.key) (heap_same b apart) ∙ was.1,
                )
          ]

      -- What the cells hold that stay.
      pub left-entries : entries c'.heap c'.nodes ≡ entries c.heap (without a c.nodes)
      left-entries =
          ap (entries c'.heap) l.nodes
          ∙ entries-apart (without a c.nodes) (without-apart a c.nodes linked.distinct)
        where
          entries-apart :
              (r : List ℕ) → All (λ b. (a == b) ≡ false) r → entries c'.heap r ≡ entries c.heap r
          entries-apart [] h = refl
          entries-apart (b ∷ r) h = rw (heap_same b h.0, entries-apart r h.1)
