-- ===== src/SkipList/Refine.antt =====
-- The operations of the skip list against a sorted association list.
use tiny_db.Prelude.{
  ℕ, zero, suc, ◌+◌, ◌-◌, ◌≤◌, ◌<◌, ◌≡◌, ◌≢◌, refl, ap, sym, Bool, true, false, Option, none, some,
  List, [], ◌∷◌, ◌==◌, if◌then◌else◌, All, arith,
}
use Prim.Native.Nat.{max}
use tiny_db.Prelude.Int.{pos, ◌+ℤ◌, int_laws}
use tiny_db.Order.{KeyOrder}
use tiny_db.Assoc
use tiny_db.SkipList.{
  Node, SkipList, Sizes, weight, head, k_max_height, new_node, fuel, insert, random_level,
  random_level_loop,
}
use tiny_db.SkipList.Linked.{Linked-head, entries, pred}
use tiny_db.SkipList.Search.{Represents, StandsFor, contains-lookup}
use tiny_db.SkipList.Prev.{
  find_prev_node-Found, Found, pred-lt-level, pred-lt, pred_high, first_high,
}
use tiny_db.SkipList.Link.{target, Relinked, link-Relinked}
use tiny_db.SkipList.Insert.{place, Inserted, Walk, Linked-place, entries-place}
use tiny_db.SkipList.Insert.Sorted.{Ordered-place, place-All, length-place}

random_level_loop_bounds :
    (rounds : ℕ) (bits : List Bool) (level : ℕ)
    → (level ≤ random_level_loop rounds bits level)
      × (random_level_loop rounds bits level ≤ level + rounds)
unfolding random_level_loop
random_level_loop_bounds zero bits level = (omega arith, omega arith)
random_level_loop_bounds (suc rounds) [] level = (omega arith, omega arith)
random_level_loop_bounds (suc rounds) (false ∷ bits) level = (omega arith, omega arith)
random_level_loop_bounds (suc rounds) (true ∷ bits) level =
    let h = random_level_loop_bounds rounds bits (level + 1) in
    (omega (arith, h.0), omega (arith, h.1))

pos-add : (a b : ℕ) → pos a +ℤ pos b ≡ pos (a + b)
pos-add a b = omega int_laws

pub weight-insert {ℓ} :
    {K V : Type ℓ} (o : KeyOrder K) (z : Sizes K V) (k : K) (v : V) (m : List (K × V))
    → weight z (Assoc.insert o k v m) ≡ weight z m + z.key_size k + z.value_size v
weight-insert o z k v [] = omega arith
weight-insert o z k v ((j, w) ∷ m) = ground (arith, weight-insert o z k v m)

All-suc : (n : ℕ) (l : List ℕ) → All (λ d. d < n) l → All (λ d. d < n + 1) l
All-suc n [] h = tt
All-suc n (b ∷ l) h = (omega arith, All-suc n l h.1)

-- Whatever `rand()` returns, a new node has between 1 and `kMaxHeight` levels.
pub random_level_bounds :
    (bits : List Bool) → (1 ≤ random_level bits) × (random_level bits ≤ k_max_height)
unfolding random_level
random_level_bounds bits = random_level_loop_bounds 11 bits 1

module _ {ℓ} {K V : Type ℓ} (o : KeyOrder K) (z : Sizes K V) (bits : List Bool) (key : K)
    (value : V) (s : SkipList K V) (l : List ℕ) (r : Represents o z s l) where
  -- `Insert` of a key that is stored, in a well-formed list, changes nothing.
  pub insert_duplicate :
      (v : V)
      → Assoc.lookup o key (entries s.nodes l) ≡ some v
      → insert o z bits key value s ≡ some s
  unfolding insert
  insert_duplicate v h = rw (contains-lookup o z s l r key, h)

  -- The heap with the new node on it, before it is linked.
  abbrev with_new : ℕ → Node K V
  with_new a = if a == s.allocated then new_node key (random_level bits) value else s.nodes a

  after-pred :
      (p : ℕ → Option ℕ)
      → Found o s.nodes s.max_level key (s.max_level - 1) head l (λ _. none) p
      → (j : ℕ) → target (p j) ≡ pred o s.nodes key j head l
  after-pred p f j =
      ground
        (arith, f.below j, f.above j, pred_high o s.nodes s.max_level key j head l r.ordered, r.low)

  linked_in :
      (p : ℕ → Option ℕ) (nodes' : ℕ → Node K V)
      → Found o s.nodes s.max_level key (s.max_level - 1) head l (λ _. none) p
      → Relinked with_new p s.allocated (random_level bits) nodes'
      → Inserted s.nodes nodes' s.allocated (random_level bits) key value (λ j. target (p j))
  linked_in p nodes' f q = record {
    old_key = λ a u. ground (arith, q.same.key a);
    old_value = λ a u. ground (arith, q.same.value a);
    old_level = λ a u. ground (arith, q.same.level a);
    old_next = λ a j u. ground (arith, q.next a j);
    new_key = ground (arith, q.same.key s.allocated);
    new_value = ground (arith, q.same.value s.allocated);
    new_level = ground (arith, q.same.level s.allocated);
    new_next = λ j u. ground (
      arith,
      q.next s.allocated j,
      f.below j,
      f.above j,
      pred-lt o s.nodes s.max_level key s.allocated j head l (omega (arith, r.room)) r.old,
      Linked-head s.nodes head l r.linked j,
      first_high o s.nodes s.max_level key j l r.ordered,
      r.tall,
      random_level_bounds bits,
    );
  }

  in_bounds :
      (p : ℕ → Option ℕ)
      → Found o s.nodes s.max_level key (s.max_level - 1) head l (λ _. none) p
      → (j : ℕ) → j < random_level bits
      → (j < (with_new (target (p j))).level) × (target (p j) ≢ s.allocated)
  in_bounds p f j u =
      let lt =
        pred-lt o s.nodes s.max_level key s.allocated j head l (omega (arith, r.room)) r.old in
      let tall =
        pred-lt-level o s.nodes s.max_level key j head l
          (omega (arith, r.tall, random_level_bounds bits)) in
      (ground (arith, after-pred p f j, lt, tall), omega (arith, after-pred p f j, lt))

  Walk-start :
      (p : ℕ → Option ℕ) (nodes' : ℕ → Node K V)
      (f : Found o s.nodes s.max_level key (s.max_level - 1) head l (λ _. none) p)
      (q : Inserted s.nodes nodes' s.allocated (random_level bits) key value (λ j. target (p j)))
      → Walk o s.nodes nodes' s.allocated
          (random_level bits)
          key
          value
          _
          q
          s.max_level
          head
          l
          (λ _. head)
  Walk-start p nodes' f q = record {
    linked = r.linked;
    ordered = r.ordered;
    old = omega (arith, r.room);
    all_old = r.old;
    after_pred = after-pred p f;
    at_self = λ j u. refl;
    apart = λ j. r.apart;
    self_apart = r.apart;
    reaches = λ j u.
        Linked-head s.nodes head l r.linked j (omega (arith, r.tall, random_level_bounds bits));
  }

  -- `Insert` of a key that is not stored, in a well-formed list, ends without a fault, whatever
  -- `rand()` returns, at a well-formed list that stands for the entries of before and the new one,
  -- in the order of their keys, and counts its size and bytes.
  pub insert_new :
      Assoc.lookup o key (entries s.nodes l) ≡ none
      → (s' : SkipList K V) × (l' : List ℕ) × (insert o z bits key value s ≡ some s')
        × StandsFor o z (Assoc.insert o key value (entries s.nodes l)) s' l'
  unfolding insert
  insert_new absent =
      let (p, found, f) =
        find_prev_node-Found o s.nodes s.max_level key (fuel s) (s.max_level - 1) head l (λ _. none)
          r.linked r.ordered (omega (arith, r.tall, r.low, r.high))
          (omega (arith, r.room, r.high)) in
      let (nodes', linked, q) =
        link-Relinked with_new p s.allocated (random_level bits) (ground arith) (in_bounds p f) in
      let i = linked_in p nodes' f q in
      let start = Walk-start p nodes' f i in
      let stored =
        entries-place o s.nodes nodes' s.allocated (random_level bits) key value _ i l r.old in
      (
        record {
          nodes = nodes';
          allocated = s.allocated + 1;
          max_level = max (random_level bits) s.max_level;
          size = s.size +ℤ pos 1;
          mem_usage = s.mem_usage +ℤ pos (z.key_size key) +ℤ pos (z.value_size value);
        },
        place o s.nodes key s.allocated l,
        rw (contains-lookup o z s l r key, absent) (rw found (rw linked)),
        record {
          represents = record {
            linked =
                Linked-place o s.nodes nodes' s.allocated (random_level bits) key value _ i
                  s.max_level head l _ start;
            ordered =
                Ordered-place o s.nodes nodes' s.allocated (random_level bits) key value _ i
                  s.max_level (max (random_level bits) s.max_level) l (omega arith)
                  (random_level_bounds bits).0 (omega arith) r.old absent r.ordered;
            old =
                place-All o s.nodes nodes' s.allocated (random_level bits) key value _ i
                  (λ d. d < s.allocated + 1) l (omega arith) (All-suc s.allocated l r.old);
            apart =
                place-All o s.nodes nodes' s.allocated (random_level bits) key value _ i
                  (λ d. (head == d) ≡ false) l (ground (arith, r.room)) r.apart;
            tall = ground (arith, i.old_level head, r.tall, r.room);
            low = omega (arith, r.low);
            high = omega (arith, r.high, random_level_bounds bits);
            counted =
                rw (r.counted, pos-add)
                  (ap pos (
                    sym (
                      length-place o s.nodes nodes' s.allocated (random_level bits) key value _ i
                        l)));
            weighed =
                rw (r.weighed, pos-add, pos-add, stored)
                  (ap pos (sym (weight-insert o z key value (entries s.nodes l))));
            room = omega (
              arith,
              r.room,
              length-place o s.nodes nodes' s.allocated (random_level bits) key value _ i l,
            );
          };
          stored = stored;
        },
      )
