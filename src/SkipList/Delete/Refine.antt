-- ===== src/SkipList/Delete/Refine.antt =====
-- `Delete` against the sorted association list.
use tiny_db.Prelude.{
  ℕ, ◌+◌, ◌-◌, ◌<◌, ◌≡◌, refl, ap, sym, true, false, Option, none, some, List, ◌==◌, arith, ◌∙◌,
  is_some,
}
use tiny_db.Prelude.Int.{ℤ, pos, negsuc, pos_part, ◌-ℤ◌, int_laws}
use tiny_db.Order.{KeyOrder}
use tiny_db.Assoc
use tiny_db.SkipList.{
  Node, SkipList, Sizes, weight, head, fuel, contains, read_next, read_node, find_target, unlink,
  delete,
}
use tiny_db.SkipList.Linked.{Linked-head, entries, pred, locate, locate_level}
use tiny_db.SkipList.Search.{Represents, StandsFor, contains-lookup}
use tiny_db.SkipList.Prev.{pred-lt-level}
use tiny_db.SkipList.Target.{Aimed, find_target-Aimed, locate-All, locate-key, pred-points, pred-ne}
use tiny_db.SkipList.Delete.{Unlinked, Points, unlink-Unlinked, omit, Stroll, Linked-omit}
use tiny_db.SkipList.Delete.Sorted.{
  entries-omit, omit-All, Ordered-omit, length-omit, weight-remove, locate-lookup,
}

pos-sub : (a b : ℕ) → pos (a + b) -ℤ pos b ≡ pos a
pos-sub a b = omega int_laws

module _ {ℓ} {K V : Type ℓ} (o : KeyOrder K) (z : Sizes K V) (key : K) (s : SkipList K V)
    (l : List ℕ) (r : Represents o z s l) where
  -- `Delete` of a key that is not stored, in a well-formed list, changes nothing.
  pub delete_absent : Assoc.lookup o key (entries s.nodes l) ≡ none → delete o z key s ≡ some s
  unfolding delete
  delete_absent h = rw (contains-lookup o z s l r key, h)

  module _ (t : ℕ) (at_t : locate o s.nodes key l ≡ some t) where
    abbrev before : ℕ → ℕ
    before j = pred o s.nodes key j head l

    points :
        (p : ℕ → Option ℕ) (found : ℤ)
        → Aimed o s.nodes s.max_level key t (s.max_level - 1) head l (λ _. none) p found
        → Points s.nodes before t (s.nodes t).level p
    points p found a j u =
        let within = locate_level o s.nodes s.max_level key t l r.ordered at_t in
        (
          a.below j (omega (arith, within, r.low)) u,
          pred-lt-level o s.nodes s.max_level key j head l (omega (arith, within, r.tall, r.high)),
          u,
          pred-points o s.nodes key t s.max_level j head head l r.linked r.ordered at_t u
              (Linked-head s.nodes head l r.linked j (omega (arith, within, r.tall, r.high))),
          pred-ne o s.nodes key t j head l (locate-key o s.nodes key t l at_t) (
              ground (arith, locate-All o s.nodes key t (λ d. (head == d) ≡ false) l r.apart at_t)),
        )

    Stroll-start :
        (nodes' : ℕ → Node K V) (q : Unlinked s.nodes before t (s.nodes t).level nodes')
        → Stroll o s.nodes nodes' key before t q s.max_level head l (λ _. head)
    Stroll-start nodes' q = record {
      linked = r.linked;
      ordered = r.ordered;
      located = at_t;
      before_pred = λ j. refl;
      at_self = λ j u. refl;
      apart = λ j. r.apart;
      self_apart = r.apart;
    }

    without :
        (nodes' : ℕ → Node K V) → Unlinked s.nodes before t (s.nodes t).level nodes' → SkipList K V
    without nodes' q = record s {
      nodes = nodes';
      size = s.size -ℤ pos 1;
      mem_usage = s.mem_usage -ℤ pos (z.key_size key) -ℤ pos (z.value_size (s.nodes t).value);
    }

    without-Represents :
        (nodes' : ℕ → Node K V) (q : Unlinked s.nodes before t (s.nodes t).level nodes')
        → Represents o z (without nodes' q) (omit o s.nodes key l)
    unfolding without
    without-Represents nodes' q = record {
      linked =
          Linked-omit o s.nodes nodes' key before t q s.max_level head l _ (Stroll-start nodes' q);
      ordered = Ordered-omit o s.nodes nodes' key q.same s.max_level l r.ordered;
      old = omit-All o s.nodes nodes' key q.same (λ d. d < s.allocated) l r.old;
      apart = omit-All o s.nodes nodes' key q.same (λ d. (head == d) ≡ false) l r.apart;
      tall = q.same.level head ∙ r.tall;
      low = r.low;
      high = r.high;
      counted = rw (r.counted, ← length-omit o z s.nodes key t l at_t) (pos-sub _ 1);
      weighed =
          rw (r.weighed, weight-remove o z s.nodes key t l at_t, pos-sub, pos-sub)
            (ap (λ m. pos (weight z m)) (sym (entries-omit o s.nodes nodes' key q.same l)));
      room = omega (arith, r.room, length-omit o z s.nodes key t l at_t);
    }

  read_bottom :
      (a t : ℕ)
      → 0 < (s.nodes a).level
      → (s.nodes a).next 0 ≡ some t
      → read_node s.nodes (some a) 0 ≡ some t
  unfolding read_node read_next
  read_bottom a t h e = ground arith

  delete_runs :
      (p : ℕ → Option ℕ) (found : ℤ) (t : ℕ) (nodes' : ℕ → Node K V)
      → contains o s key ≡ some true
      → find_target o (fuel s) s.nodes key (s.max_level - 1) head (λ _. none) (negsuc 0)
        ≡ some (p, found)
      → read_node s.nodes (p 0) 0 ≡ some t
      → unlink (pos_part found) s.nodes p ≡ some nodes'
      → delete o z key s
        ≡ some (record s {
          nodes = nodes';
          size = s.size -ℤ pos 1;
          mem_usage = s.mem_usage -ℤ pos (z.key_size key) -ℤ pos (z.value_size (s.nodes t).value);
        })
  unfolding delete
  delete_runs p found t nodes' there run read out = rw (there, run, read, out)

  -- `Delete` of a key that is stored, in a well-formed list, ends without a fault, at a well-
  -- formed list that stands for the entries of before without that of the key, and counts its size
  -- and bytes down.
  pub delete_stored :
      (v : V)
      → Assoc.lookup o key (entries s.nodes l) ≡ some v
      → (s' : SkipList K V) × (l' : List ℕ) × (delete o z key s ≡ some s')
        × StandsFor o z (Assoc.remove o key (entries s.nodes l)) s' l'
  unfolding without
  delete_stored v there =
      let (t, at_t, value) = locate-lookup o z s.nodes key 0 l v there in
      let (p, found, run, a) =
        find_target-Aimed o s.nodes s.max_level key (fuel s) t (s.max_level - 1) head l (λ _. none)
          (negsuc 0) r.linked r.ordered at_t (omega (arith, r.tall, r.low, r.high))
          (omega (arith, r.room, r.high)) in
      let w = points t at_t p found a in
      let (nodes', unlinked, q) = unlink-Unlinked s.nodes (before t at_t) t (s.nodes t).level p w in
      let bottom = w 0 (omega (arith, locate_level o s.nodes s.max_level key t l r.ordered at_t)) in
      (
        without t at_t nodes' q,
        omit o s.nodes key l,
        delete_runs p found t nodes'
            (contains-lookup o z s l r key ∙ ap (λ x. some (is_some x)) there) run
            (ap (λ x. read_node s.nodes x 0) bottom.0 ∙ read_bottom _ t bottom.1 bottom.3)
            (ap (λ x. unlink (pos_part x) s.nodes p) a.hit ∙ unlinked),
        record {
          represents = without-Represents t at_t nodes' q;
          stored = entries-omit o s.nodes nodes' key q.same l;
        },
      )
