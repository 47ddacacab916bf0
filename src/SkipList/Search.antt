-- ===== src/SkipList/Search.antt =====
-- Search on a linked list of nodes answers what the entries hold, with no fault and enough fuel.
use tiny_db.Prelude.{
  ℕ, zero, suc, ◌+◌, ◌-◌, ◌≤◌, ◌<◌, ◌≡◌, refl, false, some, List, [], ◌==◌, lt→ltb, length, arith,
  Option-cases, inl, inr, is_some, Read-cases, All, ◌>>=◌, ◌∙◌,
}
use tiny_db.Order.{KeyOrder}
use tiny_db.Assoc.{lookup}
use tiny_db.Prelude.Int.{pos}
use tiny_db.SkipList.{
  empty, Node, Sizes, weight, SkipList, head, k_max_height, read_next, search, get, contains,
  contains_loop, fuel,
}
use tiny_db.SkipList.Linked.{
  first, Linked, Linked-head, Ordered, entries, behind, bottom_none, bottom_larger,
}

module _ {ℓ} {K V : Type ℓ} (o : KeyOrder K) (nodes : ℕ → Node K V) (top : ℕ) (key : K) where
  open o use {same, less}

  pub read_first :
      (a j : ℕ) (s : List ℕ)
      → Linked nodes a s
      → j < (nodes a).level
      → read_next nodes a j ≡ some (first nodes j s)
  unfolding read_next
  read_first a j s l h = rw (lt→ltb j (nodes a).level h, Linked-head nodes a s l j h)

  pub search-lookup :
      (f level cur : ℕ) (s : List ℕ)
      → Linked nodes cur s
      → Ordered o nodes top s
      → level < (nodes cur).level
      → length s + level < f
      → search o f nodes key level cur ≡ some (lookup o key (entries nodes s))
  unfolding search
  search-lookup zero level cur s l d h m = absurd (omega arith)
  search-lookup (suc f) zero cur s l d h m = elim (Option-cases (first nodes 0 s)) [
    | inl e ↦ ground (arith, read_first cur 0 s l h, bottom_none o nodes top key s d e)
    | inr (n, e) ↦
        let (t, b) = behind o nodes top key 0 n cur s l d e in
        ground (
          arith,
          read_first cur 0 s l h,
          b.shorter,
          b.passed,
          b.hit,
          bottom_larger o nodes top key n s d e,
          o.less_total (nodes n).key key,
          search-lookup f 0 n t b.linked b.ordered b.high,
        )
  ]
  search-lookup (suc f) (suc level) cur s l d h m =
      let down = search-lookup f level cur s l d (omega arith) (omega arith) in
      elim (Option-cases (first nodes (suc level) s)) [
        | inl e ↦ ground (arith, read_first cur (suc level) s l h, down)
        | inr (n, e) ↦
            let (t, b) = behind o nodes top key (suc level) n cur s l d e in
            ground (
              arith,
              read_first cur (suc level) s l h,
              b.shorter,
              b.passed,
              b.hit,
              down,
              o.less_total (nodes n).key key,
              search-lookup f (suc level) n t b.linked b.ordered b.high,
            )
      ]

  -- The two loops turn alike.
  contains_loop-search :
      (f level cur : ℕ)
      → contains_loop o f nodes key level cur
        ≡ (search o f nodes key level cur >>= λ v. some (is_some v))
  unfolding search contains_loop
  contains_loop-search zero level cur = refl
  contains_loop-search (suc f) zero cur = elim (Read-cases (read_next nodes cur 0)) [
    | inl e ↦ ground arith
    | inr (inl e) ↦ ground arith
    | inr (inr (n, e)) ↦ ground (arith, contains_loop-search f 0 n, contains_loop-search f 0 cur)
  ]
  contains_loop-search (suc f) (suc level) cur =
      elim (Read-cases (read_next nodes cur (suc level))) [
        | inl e ↦ ground arith
        | inr (inl e) ↦ ground (arith, contains_loop-search f level cur)
        | inr (inr (n, e)) ↦ ground (
          arith,
          contains_loop-search f (suc level) n,
          contains_loop-search f level cur,
          contains_loop-search f (suc level) cur,
        )
      ]

-- The nodes `l`, from the head on, and the entries that they hold.
module _ {ℓ} {K V : Type ℓ} (o : KeyOrder K) (z : Sizes K V) where
  pub record Represents (s : SkipList K V) (l : List ℕ) : Type ℓ where
    pub linked : Linked s.nodes head l
    pub ordered : Ordered o s.nodes s.max_level l
    pub old : All (λ a. a < s.allocated) l
    pub apart : All (λ a. (head == a) ≡ false) l
    pub tall : (s.nodes head).level ≡ k_max_height
    pub low : 1 ≤ s.max_level
    pub high : s.max_level ≤ k_max_height
    pub counted : s.size ≡ pos (length l)
    pub weighed : s.mem_usage ≡ pos (weight z (entries s.nodes l))
    pub room : length l < s.allocated

  -- ... and they hold the entries `m`.
  pub record StandsFor (m : List (K × V)) (s : SkipList K V) (l : List ℕ) : Type ℓ where
    pub represents : Represents s l
    pub stored : entries s.nodes l ≡ m

  module _ (s : SkipList K V) (l : List ℕ) (r : Represents s l) (key : K) where
    -- `Get` on a well-formed list reads no missing pointer, ends, and returns the value stored
    -- under the key, if any.
    pub get-lookup : get o s key ≡ some (lookup o key (entries s.nodes l))
    unfolding get
    get-lookup =
        search-lookup o s.nodes s.max_level key (fuel s) (s.max_level - 1) head l r.linked r.ordered
          (omega (arith, r.tall, r.low, r.high)) (omega (arith, r.room, r.high))

    -- `Contains` on a well-formed list reads no missing pointer, ends, and answers whether the key
    -- is stored.
    pub contains-lookup : contains o s key ≡ some (is_some (lookup o key (entries s.nodes l)))
    unfolding contains get
    contains-lookup =
        contains_loop-search o s.nodes s.max_level key (fuel s) (s.max_level - 1) head
        ∙ rw get-lookup

  -- A new list holds nothing.
  pub empty-Represents : (key : K) (value : V) → Represents (empty key value) []
  unfolding empty
  empty-Represents key value = record {
    linked = λ j u. refl;
    ordered = tt;
    old = tt;
    apart = tt;
    tall = refl;
    low = omega arith;
    high = omega arith;
    counted = refl;
    weighed = refl;
    room = omega arith;
  }
