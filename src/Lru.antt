-- ===== src/Lru.antt =====
-- One shard of the cache: src/cache/lru.h, with src/cache/node.h and src/cache/cache_policy.h.
pub mod Cells
pub mod Evict
pub mod Refine
pub mod Use
pub mod Admit
pub mod Capacity
pub mod Shared
pub mod Tests
use tiny_db.Prelude.{
  ℕ, zero, suc, ◌+◌, Bool, true, false, ◌||◌, Option, none, some, is_some, List, [], ◌∷◌, length,
  ltb, ◌==◌, ◌>>=◌, if◌then◌else◌,
}
use tiny_db.Prelude.Int.{ℤ, pos, negsuc, ◌+ℤ◌, ◌-ℤ◌}
use tiny_db.Order.{KeyOrder}

-- `Node`; a pointer `V *` is an element of `P`.
pub record Node {ℓ} (K P : Type ℓ) : Type ℓ where
  pub key : K
  pub val : P
  pub ref_cnt : ℤ
  pub hash_val : ℕ
  pub in_cache : Bool
  pub last_access_time : ℕ

-- `LRU`. A node is named by the order of its allocation, and so is the cell of `nodes` that it was
-- pushed into, to which `index` points. `freed` says which nodes were deleted, `destroyed` with what
-- the destructor was called, the latest first.
pub record Lru {ℓ} (K P : Type ℓ) : Type ℓ where
  pub cap : ℕ
  pub nodes : List ℕ
  pub index : K → Option ℕ
  pub garbage_station : K → Option ℕ
  pub has_destructor : Bool
  pub heap : ℕ → Node K P
  pub freed : ℕ → Bool
  pub allocated : ℕ
  pub destroyed : List (K × P)

-- Whether a cell is in the list.
abbrev pub has : ℕ → List ℕ → Bool
has a [] = false
has a (b ∷ l) = if b == a then true else has a l

-- `nodes.erase`
abbrev pub without : ℕ → List ℕ → List ℕ
without a [] = []
without a (b ∷ l) = if b == a then l else b ∷ without a l

-- `nodes.back()` of `a ∷ l`
abbrev pub last : ℕ → List ℕ → ℕ
last a [] = a
last a (b ∷ l) = last b l

-- `ref_cnt <= 0`
abbrev pub not_held : ℤ → Bool
not_held (pos zero) = true
not_held (pos (suc n)) = false
not_held (negsuc n) = true

-- A map after `map[k] = v`, and, for `none`, after `map.erase(k)`.
abbrev pub assign {ℓ} : {K : Type ℓ} → KeyOrder K → K → Option ℕ → (K → Option ℕ) → K → Option ℕ
assign o k v table q = if o.same k q then v else table q

module _ {ℓ} {K P : Type ℓ} where
  abbrev pub new_lru : ℕ → Node K P → Lru K P
  new_lru cap node = record {
    cap = cap;
    nodes = [];
    index = λ _. none;
    garbage_station = λ _. none;
    has_destructor = false;
    heap = λ _. node;
    freed = λ _. false;
    allocated = 0;
    destroyed = [];
  }

  abbrev pub register_clean_handle : Lru K P → Lru K P
  register_clean_handle c = record c { has_destructor = true }

  -- The heap after a write to the node `a`.
  abbrev pub with_node : (ℕ → Node K P) → ℕ → Node K P → ℕ → Node K P
  with_node heap a node b = if b == a then node else heap b

  -- `none` is a fault, here and below: a use of a deleted node, of an iterator that points nowhere, or
  -- of an empty `std::function`.
  unfoldable pub ref : Lru K P → ℕ → Option (Lru K P)
  ref c a =
      if c.freed a
      then none
      else some (record c {
        heap = with_node c.heap a (record (c.heap a) { ref_cnt = (c.heap a).ref_cnt +ℤ pos 1 });
      })

  module _ (o : KeyOrder K) where
    unfoldable pub unref : Lru K P → ℕ → Option (Lru K P)
    unref c a =
        let node = c.heap a in
        let count = node.ref_cnt -ℤ pos 1 in
        let heap = with_node c.heap a (record node { ref_cnt = count }) in
        if c.freed a
        then none
        else if not_held count
        then (if c.has_destructor
            then some (record c {
              heap = heap;
              garbage_station = assign o node.key none c.garbage_station;
              freed = λ b. if b == a then true else c.freed b;
              destroyed = (node.key, node.val) ∷ c.destroyed;
            })
            else none)
        else some (record c { heap = heap })

    unfoldable pub phantom_erase_node : Lru K P → ℕ → Option (Lru K P)
    phantom_erase_node c a =
        let node = c.heap a in
        if c.freed a
        then none
        else (c.index node.key >>= λ cell.
            if has cell c.nodes
            then unref
                (record c {
                  heap = with_node c.heap a (record node { in_cache = false });
                  nodes = without cell c.nodes;
                  index = assign o node.key none c.index;
                  garbage_station = assign o node.key (some a) c.garbage_station;
                })
                a
            else none)

    -- `nodes.splice(nodes.begin(), nodes, cell)` and `index[key] = nodes.begin()`.
    unfoldable pub splice : Lru K P → K → ℕ → Option (Lru K P)
    splice c key cell =
        if has cell c.nodes
        then some (record c {
          nodes = cell ∷ without cell c.nodes;
          index = assign o key (some cell) c.index;
        })
        else none

    -- The cache and its new node, before it is looked up.
    abbrev pub with_new_node : ℕ → ℕ → K → P → Lru K P → Lru K P
    with_new_node hash now key val c = record c {
      heap = with_node c.heap c.allocated (record {
        key = key;
        val = val;
        ref_cnt = pos 1;
        hash_val = hash;
        in_cache = true;
        last_access_time = now;
      });
      freed = λ b. if b == c.allocated then false else c.freed b;
      allocated = c.allocated + 1;
    }

    -- A node that is new to the index, and the eviction.
    unfoldable pub push_front : Lru K P → K → ℕ → Option (Lru K P)
    push_front c key a =
        let c' = record c { nodes = a ∷ c.nodes; index = assign o key (some a) c.index } in
        if ltb c.cap (length c'.nodes) then phantom_erase_node c' (last a c.nodes) else some c'

    -- `insert`; `hash` is `hash_fn(key)` and `now` is `time(0)`.
    unfoldable pub insert : ℕ → ℕ → K → P → Lru K P → Option (Lru K P)
    insert hash now key val c =
        let c' = with_new_node hash now key val c in
        elim (c.index key) [ none ↦ push_front c' key c.allocated | some cell ↦ splice c' key cell ]

    unfoldable pub erase : Lru K P → K → Option (Lru K P)
    erase c key = elim (c.index key) [ none ↦ some c | some a ↦ phantom_erase_node c a ]

    -- `get`; a node in place of the pointer to it, `none` for `nullptr`.
    unfoldable pub get : Lru K P → K → Option (Lru K P × Option ℕ)
    get c key = elim (c.index key) [
      | none ↦ some (c, none)
      | some a ↦ splice c key a >>= λ c1. ref c1 a >>= λ c2. some (c2, some a)
    ]

    abbrev pub contains : Lru K P → K → Bool
    contains c key = is_some (c.index key)

    -- `release`. Of a key that is not there `index[key]` makes an iterator that points nowhere.
    unfoldable pub release : Lru K P → K → Option (Lru K P)
    release c key = elim (c.index key) [ none ↦ none | some a ↦ unref c a ]
