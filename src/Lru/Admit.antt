-- ===== src/Lru/Admit.antt =====
-- `insert`, with the eviction of the entry used longest ago.
use tiny_db.Prelude.{
  ℕ, suc, ◌≤◌, ◌≡◌, refl, ap, sym, ◌∙◌, subst, true, false, Option, none, some, List, ◌∷◌, length,
  take, length-take, ltb, ltb→lt, ◌==◌, ==_iff, if◌then◌else◌, All, arith, Bool-cases, Option-cases,
  inl, inr,
}
use tiny_db.Order.{KeyOrder}
use tiny_db.Assoc
use tiny_db.Lru.{Lru, has, last, assign, with_new_node, push_front, insert, get}
use tiny_db.Lru.Cells.{
  entries, IsCached, IsLinked, All-map, has-last, without-last, entries-take, length-entries,
  entries-with_node, All-has,
}
use tiny_db.Lru.Use.{get-Represents}
use tiny_db.Lru.Evict.{phantom_erase_node_lem, left-IsLinked, left-entries}
use tiny_db.Lru.Refine.{
  Represents, value_at, admit, lookup-none, lookup-some, fronted, splice_lem, fronted-Represents,
  take_all,
}

module _ {ℓ} {K P : Type ℓ} (o : KeyOrder K) (hash now : ℕ) (key : K) (val : P) (c : Lru K P)
    (m : List (K × P)) (r : Represents c m) where
  abbrev grown : Lru K P
  grown = with_new_node o hash now key val c

  -- The nodes of the cache are older than the new one.
  older : (b : ℕ) → IsCached c b → (c.allocated == b) ≡ false
  older b v = ground (arith, v.old)

  newer : (b : ℕ) → IsCached c b → (b == c.allocated) ≡ false
  newer b v = ground (arith, v.old)

  kept-IsCached : (b : ℕ) → IsCached c b → IsCached grown b
  kept-IsCached b v =
      let other = newer b v in
      record {
        alive = rw other v.alive;
        indexed = rw other v.indexed;
        marked = rw other v.marked;
        held = rw other v.held;
        old = omega (arith, v.old);
      }

  apart : All (λ b. (c.allocated == b) ≡ false) c.nodes
  apart =
      All-map (IsCached c) (IsCached c) (λ b. (c.allocated == b) ≡ false) c.nodes
        (λ b v w. older b v) r.linked.cached r.linked.cached

  grown-Represents : Represents grown m
  grown-Represents = record {
    linked = record {
      cached =
          All-map (IsCached c) (IsCached c) (IsCached grown) c.nodes (λ b v w. kept-IsCached b v)
            r.linked.cached r.linked.cached;
      listed = λ k b at_k.
          let was = r.linked.listed k b at_k in
          (was.0, rw (newer b (All-has (IsCached c) b c.nodes r.linked.cached was.0)) was.1);
      distinct = r.linked.distinct;
      handle = r.linked.handle;
    };
    stored = entries-with_node c.heap c.allocated _ c.nodes apart ∙ r.stored;
    within = r.within;
  }

  -- The cache with the new node in front, before the eviction.
  abbrev pushed : Lru K P
  pushed = record grown {
    nodes = c.allocated ∷ c.nodes;
    index = assign o key (some c.allocated) c.index;
  }

  self_eq : (c.allocated == c.allocated) ≡ true
  self_eq = (==_iff c.allocated c.allocated).1 refl

  new-IsCached : IsCached pushed c.allocated
  new-IsCached =
      let same : o.same key key ≡ true = (o.same_iff key key).1 refl in
      record {
        alive = rw self_eq;
        indexed = rw (self_eq, same);
        marked = rw self_eq;
        held = (0, rw self_eq);
        old = omega arith;
      }

  pushed-entries : entries pushed.heap pushed.nodes ≡ (key, val) ∷ m
  pushed-entries = rw (self_eq, grown-Represents.stored)

  module _ (absent : c.index key ≡ none) where
    other_key : (k : K) (b : ℕ) → c.index k ≡ some b → o.same key k ≡ false
    other_key k b e = elim (Bool-cases (o.same key k)) [
      | inl same ↦
          let wrong : none ≡ some b = sym absent ∙ ap c.index ((o.same_iff key k).0 same) ∙ e in
          absurd (cc)
      | inr other ↦ other
    ]

    behind-IsCached : (b : ℕ) → IsCached c b → IsCached pushed b
    behind-IsCached b v =
        let w = kept-IsCached b v in
        record {
          alive = w.alive;
          indexed = rw (newer b v, other_key (c.heap b).key b v.indexed) v.indexed;
          marked = w.marked;
          held = w.held;
          old = w.old;
        }

    pushed-IsLinked : IsLinked pushed
    pushed-IsLinked = record {
      cached = (
        new-IsCached,
        All-map (IsCached c) (IsCached c) (IsCached pushed) c.nodes (λ b v w. behind-IsCached b v)
            r.linked.cached r.linked.cached,
      );
      listed = found;
      distinct = (apart, r.linked.distinct);
      handle = r.linked.handle;
    }
      where
        found :
            (k : K) (b : ℕ)
            → (if o.same key k then some c.allocated else c.index k) ≡ some b
            → (has b (c.allocated ∷ c.nodes) ≡ true) × ((pushed.heap b).key ≡ k)
        found k b e = elim (Bool-cases (o.same key k)) [
          | inl same ↦
              let at : some c.allocated ≡ some b = rw same at e in
              let eq : b ≡ c.allocated = ground (arith, at) in
              (ground (arith, eq), rw ((==_iff b c.allocated).1 eq) ((o.same_iff key k).0 same))
          | inr other ↦
              let was = r.linked.listed k b (rw other at e) in
              let fresh = newer b (All-has (IsCached c) b c.nodes r.linked.cached was.0) in
              (ground (arith, was.0), rw fresh was.1)
        ]

    -- The new entry in front, and the last one gone if there is no room.
    push_front_lem :
        (c' : Lru K P) × (push_front o grown key c.allocated ≡ some c')
        × Represents c' (take c.cap ((key, val) ∷ m))
    unfolding push_front
    push_front_lem = elim (Bool-cases (ltb c.cap (suc (length c.nodes)))) [
      | inl full ↦
          let n = length c.nodes in
          let old = last c.allocated c.nodes in
          let there = has-last c.allocated c.nodes in
          let (c', run, l) = phantom_erase_node_lem o pushed old pushed-IsLinked there in
          let cells = without-last c.allocated c.nodes pushed-IsLinked.distinct in
          let room : n ≡ c.cap = omega (arith, ltb→lt _ _ full, r.within) in
          (
            c',
            rw full run,
            record {
              linked = left-IsLinked o pushed old pushed-IsLinked there c' l;
              stored =
                  left-entries o pushed old pushed-IsLinked there c' l
                  ∙ ap (entries pushed.heap) cells
                  ∙ entries-take pushed.heap n (c.allocated ∷ c.nodes)
                  ∙ rw (pushed-entries, room);
              within = omega (
                arith,
                l.cap,
                ap (λ (x : List ℕ). length x) l.nodes,
                ap (λ (x : List ℕ). length x) cells,
                length-take n (c.allocated ∷ c.nodes),
                room,
              );
            },
          )
      | inr room ↦
          let fits : suc (length c.nodes) ≤ c.cap = ground (arith, room) in
          let same = length-entries c.heap c.nodes in
          let len : length m ≡ length c.nodes =
            ap (λ (x : List (K × P)). length x) (sym r.stored) ∙ same in
          (
            pushed,
            rw room,
            record {
              linked = pushed-IsLinked;
              stored = pushed-entries ∙ sym (take_all c.cap ((key, val) ∷ m) (omega (arith, len)));
              within = fits;
            },
          )
    ]

  admit_absent : Assoc.lookup o key m ≡ none → admit o c.cap key val m ≡ take c.cap ((key, val) ∷ m)
  admit_absent e = rw (e, admit)

  admit_stored :
      (w : P)
      → Assoc.lookup o key m ≡ some w
      → admit o c.cap key val m ≡ (key, w) ∷ Assoc.remove o key m
  admit_stored w e = rw (e, admit)

  -- In a cache with these entries `insert` ends without a fault. A new key goes in front, and if the
  -- cache is over its capacity the entry used longest ago goes. A key that is there goes in front with
  -- the value that it had: the new value is not stored.
  pub insert-Represents :
      (c' : Lru K P) × (insert o hash now key val c ≡ some c')
      × Represents c' (admit o c.cap key val m)
  unfolding insert
  insert-Represents = elim (Option-cases (c.index key)) [
    | inl e ↦
        let (c', run, r') = push_front_lem e in
        (
          c',
          rw (e, insert) run,
          subst (Represents c') (sym (admit_absent (lookup-none o c m r key e))) r',
        )
    | inr (a, e) ↦
        let front = fronted-Represents o grown m grown-Represents key a e in
        let there = lookup-some o grown m grown-Represents key a e in
        (
          fronted o grown m grown-Represents key a,
          rw (e, insert) (splice_lem o grown m grown-Represents key a e),
          subst (Represents _) (sym (admit_stored (grown.heap a).val there)) front,
        )
  ]

-- After `insert` of a key that is there, `get` still returns its old value, whatever value was given.
pub insert-get_stored {ℓ} :
    {K P : Type ℓ} (o : KeyOrder K) (hash now : ℕ) (key : K) (val old : P) (c : Lru K P)
    (m : List (K × P))
    → Represents c m
    → Assoc.lookup o key m ≡ some old
    → (c1 c2 : Lru K P) × (got : Option ℕ) × (insert o hash now key val c ≡ some c1)
      × (get o c1 key ≡ some (c2, got))
      × (value_at c2 got ≡ some old)
insert-get_stored o hash now key val old c m r there =
    let (c1, run1, r1) = insert-Represents o hash now key val c m r in
    let (c2, got, run2, value, r2) = get-Represents o c1 (admit o c.cap key val m) r1 key in
    let same : o.same key key ≡ true = (o.same_iff key key).1 refl in
    let front = admit_stored o hash now key val c m r old there in
    (c1, c2, got, run1, run2, value ∙ ap (Assoc.lookup o key) front ∙ rw same)
