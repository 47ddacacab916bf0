-- ===== src/SkipList.antt =====
-- The skip list of src/memtable/skiplist.h on an explicit heap.
use tiny_db.Prelude.{
  ℕ, zero, suc, ◌+◌, ◌≡◌, Bool, true, false, ◌||◌, Option, none, some, not, ◌-◌, ltb, ◌==◌, ◌>>=◌,
  if◌then◌else◌, List, [], ◌∷◌,
}
pub mod Linked
pub mod Search
pub mod Prev
pub mod Link
pub mod Insert
pub mod Refine
pub mod Target
pub mod Delete
pub mod Iterate
mod Tests
use Prim.Native.Nat.{max}
use tiny_db.Prelude.Int.{ℤ, pos, negsuc, pos_part, ◌+ℤ◌, ◌-ℤ◌}
use tiny_db.Order.{KeyOrder}

-- `SkipList::Node`. `level` is `next.size()`, and `next i` is `next[i]` for `i < level`.
pub record Node {ℓ} (K V : Type ℓ) : Type ℓ where
  pub key : K
  pub value : V
  pub level : ℕ
  pub next : ℕ → Option ℕ

-- Nodes are named by the order of their allocation, and none is ever freed; node 0 is `head_`.
pub record SkipList {ℓ} (K V : Type ℓ) : Type ℓ where
  pub nodes : ℕ → Node K V
  pub allocated : ℕ
  pub max_level : ℕ
  pub size : ℤ
  pub mem_usage : ℤ

abbrev pub head : ℕ
head = 0

abbrev pub k_max_height : ℕ
k_max_height = 12

-- `v.size()` of a key or a value, or `sizeof`.
pub record Sizes {ℓ} (K V : Type ℓ) : Type ℓ where
  pub key_size : K → ℕ
  pub value_size : V → ℕ

-- The bytes that `mem_usage` counts for these entries.
abbrev pub weight {ℓ} : {K V : Type ℓ} → Sizes K V → List (K × V) → ℕ
weight z [] = 0
weight z ((k, v) ∷ m) = z.key_size k + z.value_size v + weight z m

-- `RandomLevel`: `rand() & 1` is the next of the given bits; past their end it is 0.
unfoldable pub random_level_loop : ℕ → List Bool → ℕ → ℕ
random_level_loop zero bits level = level
random_level_loop (suc rounds) [] level = level
random_level_loop (suc rounds) (false ∷ bits) level = level
random_level_loop (suc rounds) (true ∷ bits) level = random_level_loop rounds bits (level + 1)

-- `kMaxHeight - 1` rounds at most.
unfoldable pub random_level : List Bool → ℕ
unfolding random_level_loop
random_level bits = random_level_loop 11 bits 1

module _ {ℓ} {K V : Type ℓ} where
  -- `a->next[i]`; `none` is a read outside the vector.
  unfoldable pub read_next : (ℕ → Node K V) → ℕ → ℕ → Option (Option ℕ)
  read_next nodes a i = if ltb i (nodes a).level then some ((nodes a).next i) else none

  -- The heap after `a->next[i] = p`.
  abbrev pub with_next : (ℕ → Node K V) → ℕ → ℕ → Option ℕ → ℕ → Node K V
  with_next nodes a i p b =
      if b == a
      then record (nodes a) { next = λ j. if j == i then p else (nodes a).next j }
      else nodes b

  -- `a->next[i] = p`; `none` is a write outside the vector.
  unfoldable pub write_next : (ℕ → Node K V) → ℕ → ℕ → Option ℕ → Option (ℕ → Node K V)
  write_next nodes a i p = if ltb i (nodes a).level then some (with_next nodes a i p) else none

  abbrev pub new_node : K → ℕ → V → Node K V
  new_node key level value = record { key = key; value = value; level = level; next = λ _. none }

  -- The constructor; the default key and value stand in the head.
  unfoldable pub empty : K → V → SkipList K V
  empty key value = record {
    nodes = λ _. new_node key k_max_height value;
    allocated = 1;
    max_level = 1;
    size = pos 0;
    mem_usage = pos 0;
  }

  -- Each turn passes a node or goes down a level, so these many turns are enough.
  abbrev pub fuel : SkipList K V → ℕ
  fuel s = s.allocated + k_max_height + 1

  module _ (o : KeyOrder K) where
    open o use {same, less}

    -- The loop of `Get`. `none`: a fault, or the fuel ran out.
    unfoldable pub search : ℕ → (ℕ → Node K V) → K → ℕ → ℕ → Option (Option V)
    search zero nodes key level cur = none
    search (suc f) nodes key level cur = elim (read_next nodes cur level) [
      | none ↦ none
      | some none ↦ elim level [ zero ↦ some none | suc l ↦ search f nodes key l cur ]
      | some (some n) ↦ elim (same (nodes n).key key) [
        | true ↦ some (some (nodes n).value)
        | false ↦ elim (less (nodes n).key key) [
          | true ↦ search f nodes key level n
          | false ↦ elim (less key (nodes n).key) [
            | true ↦ elim level [ zero ↦ some none | suc l ↦ search f nodes key l cur ]
            | false ↦ search f nodes key level cur
          ]
        ]
      ]
    ]

    unfoldable pub get : SkipList K V → K → Option (Option V)
    get s key = search (fuel s) s.nodes key (s.max_level - 1) head

    -- The loop of `Contains`.
    unfoldable pub contains_loop : ℕ → (ℕ → Node K V) → K → ℕ → ℕ → Option Bool
    contains_loop zero nodes key level cur = none
    contains_loop (suc f) nodes key level cur = elim (read_next nodes cur level) [
      | none ↦ none
      | some none ↦ elim level [ zero ↦ some false | suc l ↦ contains_loop f nodes key l cur ]
      | some (some n) ↦ elim (same (nodes n).key key) [
        | true ↦ some true
        | false ↦ elim (less (nodes n).key key) [
          | true ↦ contains_loop f nodes key level n
          | false ↦ elim (less key (nodes n).key) [
            | true ↦ elim level [ zero ↦ some false | suc l ↦ contains_loop f nodes key l cur ]
            | false ↦ contains_loop f nodes key level cur
          ]
        ]
      ]
    ]

    unfoldable pub contains : SkipList K V → K → Option Bool
    contains s key = contains_loop (fuel s) s.nodes key (s.max_level - 1) head

    -- `next_node == nullptr || next_node->key >= key`
    abbrev pub at_end : (ℕ → Node K V) → Option ℕ → K → Bool
    at_end nodes none key = true
    at_end nodes (some n) key = not (less (nodes n).key key)

    -- The loop of `FindPrevNode`; the vector `prev` is a function.
    unfoldable pub find_prev_node :
        ℕ → (ℕ → Node K V) → K → ℕ → ℕ → (ℕ → Option ℕ) → Option (ℕ → Option ℕ)
    find_prev_node zero nodes key level cur prev = none
    find_prev_node (suc f) nodes key level cur prev = read_next nodes cur level >>= λ next_node.
        let prev' : ℕ → Option ℕ = λ j. if j == level then some cur else prev j in
        elim (at_end nodes next_node key) [
          | true ↦ elim level [ zero ↦ some prev' | suc l ↦ find_prev_node f nodes key l cur prev' ]
          | false ↦ elim next_node [
            | none ↦ none
            | some n ↦ find_prev_node f nodes key level n prev
          ]
        ]

  -- One round of the loop that links the new node `n` in.
  unfoldable pub link_level : (ℕ → Node K V) → Option ℕ → ℕ → ℕ → Option (ℕ → Node K V)
  link_level nodes none n i =
      write_next nodes n i none >>= λ nodes'. write_next nodes' head i (some n)
  link_level nodes (some p) n i = read_next nodes p i >>= λ nx.
      write_next nodes n i nx >>= λ nodes'. write_next nodes' p i (some n)

  -- The rounds `0 .. rounds - 1`.
  unfoldable pub link : ℕ → (ℕ → Node K V) → (ℕ → Option ℕ) → ℕ → Option (ℕ → Node K V)
  link zero nodes prev n = some nodes
  link (suc i) nodes prev n = link i nodes prev n >>= λ nodes'. link_level nodes' (prev i) n i

  module _ (o : KeyOrder K) (z : Sizes K V) where
    -- `Insert`, whose `RandomLevel` draws `bits`. A key that is there is left alone.
    unfoldable pub insert : List Bool → K → V → SkipList K V → Option (SkipList K V)
    insert bits key value s = contains o s key >>= λ there.
        if there
        then some s
        else (find_prev_node o (fuel s) s.nodes key (s.max_level - 1) head (λ _. none) >>= λ prev.
            let level_of_new_node = random_level bits in
            let n = s.allocated in
            let nodes : ℕ → Node K V =
              λ a. if a == n then new_node key level_of_new_node value else s.nodes a in
            link level_of_new_node nodes prev n >>= λ nodes'. some (record {
              nodes = nodes';
              allocated = n + 1;
              max_level = max level_of_new_node s.max_level;
              size = s.size +ℤ pos 1;
              mem_usage = s.mem_usage +ℤ pos (z.key_size key) +ℤ pos (z.value_size value);
            }))

  module _ (o : KeyOrder K) where
    open o use {same, less}

    -- The loop of `Delete`: the vector `prev` and `level_of_target_node`, at first -1.
    unfoldable pub find_target :
        ℕ → (ℕ → Node K V) → K → ℕ → ℕ → (ℕ → Option ℕ) → ℤ → Option ((ℕ → Option ℕ) × ℤ)
    find_target zero nodes key level cur prev target_level = none
    find_target (suc f) nodes key level cur prev target_level =
        let prev' : ℕ → Option ℕ = λ j. if j == level then some cur else prev j in
        elim (read_next nodes cur level) [
          | none ↦ none
          | some none ↦ elim level [
            | zero ↦ some (prev, target_level)
            | suc l ↦ find_target f nodes key l cur prev target_level
          ]
          | some (some n) ↦ elim (same (nodes n).key key) [
            | true ↦ elim level [
              | zero ↦ some (prev', pos (nodes n).level)
              | suc l ↦ find_target f nodes key l cur prev' (pos (nodes n).level)
            ]
            | false ↦ elim (less (nodes n).key key) [
              | true ↦ find_target f nodes key level n prev target_level
              | false ↦ elim (less key (nodes n).key) [
                | true ↦ elim level [
                  | zero ↦ some (prev', target_level)
                  | suc l ↦ find_target f nodes key l cur prev' target_level
                ]
                | false ↦ find_target f nodes key level cur prev target_level
              ]
            ]
          ]
        ]

  -- `p->next[i]` as a node; `none` is a null pointer followed.
  unfoldable pub read_node : (ℕ → Node K V) → Option ℕ → ℕ → Option ℕ
  read_node nodes none i = none
  read_node nodes (some p) i = read_next nodes p i >>= λ t. t

  -- One round of the loop that takes the node out.
  unfoldable pub unlink_level : (ℕ → Node K V) → Option ℕ → ℕ → Option (ℕ → Node K V)
  unlink_level nodes none i = some nodes
  unlink_level nodes (some p) i =
      read_node nodes (some p) i >>= λ t. read_next nodes t i >>= λ nx. write_next nodes p i nx

  unfoldable pub unlink : ℕ → (ℕ → Node K V) → (ℕ → Option ℕ) → Option (ℕ → Node K V)
  unlink zero nodes prev = some nodes
  unlink (suc i) nodes prev = unlink i nodes prev >>= λ nodes'. unlink_level nodes' (prev i) i

  module _ (o : KeyOrder K) (z : Sizes K V) where
    -- `Delete`. A key that is not there is left alone, and the node taken out is not freed.
    unfoldable pub delete : K → SkipList K V → Option (SkipList K V)
    delete key s = contains o s key >>= λ there.
        if not there
        then some s
        else (find_target o (fuel s) s.nodes key (s.max_level - 1) head (λ _. none) (negsuc 0)
            >>= λ found. read_node s.nodes (found.0 0) 0 >>= λ t.
                unlink (pos_part found.1) s.nodes found.0 >>= λ nodes'. some (record s {
                  nodes = nodes';
                  size = s.size -ℤ pos 1;
                  mem_usage =
                      s.mem_usage -ℤ pos (z.key_size key) -ℤ pos (z.value_size (s.nodes t).value);
                }))
