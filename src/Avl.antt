-- ===== src/Avl.antt =====
-- The tree of src/memtable/avl_tree.h and its iterator.
pub mod InOrder
pub mod Seek
pub mod Destroy
mod Tests
use tiny_db.Prelude.{
  ℕ, zero, suc, Bool, true, false, not, Option, none, some, List, [], ◌∷◌, ◌++◌, ◌>>=◌,
  if◌then◌else◌,
}
use tiny_db.Prelude.Int.{ℤ, pos, ◌-ℤ◌, ltb_ℤ}
use tiny_db.Order.{KeyOrder}

-- A node and what hangs below it; `leaf` is `nullptr`.
pub data Tree {ℓ} (K V : Type ℓ) : Type ℓ where
  leaf : Tree K V
  node : Tree K V → K → V → ℤ → Tree K V → Tree K V

pub record AvlTree {ℓ} (K V : Type ℓ) : Type ℓ where
  pub root : Tree K V
  pub size : ℤ
  pub mem_usage : ℤ

-- The iterator's `current_node_` and `path_stack_`, the top first.
pub record Iter {ℓ} (K V : Type ℓ) : Type ℓ where
  pub current_node : Tree K V
  pub path_stack : List (Tree K V)

module _ {ℓ} {K V : Type ℓ} where
  abbrev pub get_height : Tree K V → ℤ
  get_height Tree.leaf = pos 0
  get_height (Tree.node l k v h r) = h

  unfoldable pub get_balance : Tree K V → ℤ
  get_balance Tree.leaf = pos 0
  get_balance (Tree.node l k v h r) = get_height l -ℤ get_height r

  abbrev pub is_null : Tree K V → Bool
  is_null Tree.leaf = true
  is_null (Tree.node l k v h r) = false

  module _ (o : KeyOrder K) where
    unfoldable pub search_node : K → Tree K V → Tree K V
    search_node key Tree.leaf = Tree.leaf
    search_node key (Tree.node l k v h r) = elim (o.less key k) [
      | true ↦ search_node key l
      | false ↦ elim (o.less k key) [ true ↦ search_node key r | false ↦ Tree.node l k v h r ]
    ]

    -- The result, and what `value_ptr` points to, which was `old`.
    unfoldable pub search : K → V → AvlTree K V → Bool × V
    search key old t = elim (search_node key t.root) [
      | Tree.leaf ↦ (false, old)
      | Tree.node l k v h r ↦ (true, v)
    ]

  -- `AVLTree()`, with `sizeof(AVLTree)`.
  abbrev pub new_tree : ℤ → AvlTree K V
  new_tree object_size = record { root = Tree.leaf; size = pos 0; mem_usage = object_size }

  -- `destroyTree(node)`: the nodes in the order in which they are deleted.
  unfoldable pub destroy_tree : Tree K V → List (Tree K V)
  destroy_tree Tree.leaf = []
  destroy_tree (Tree.node l k v h r) =
      destroy_tree l ++ (destroy_tree r ++ (Tree.node l k v h r ∷ []))

  -- `~AVLTree()`.
  unfoldable pub destroy : AvlTree K V → List (Tree K V)
  destroy t = destroy_tree t.root

  -- `insertNode` and `deleteNode`, which the file declares and does not define, change the root, the
  -- size and the count of bytes.
  unfoldable pub insert :
      (K → V → AvlTree K V → AvlTree K V) → K → V → AvlTree K V → AvlTree K V × Bool
  insert insert_node key value t = let t' = insert_node key value t in (t', ltb_ℤ t.size t'.size)

  unfoldable pub delete : (K → AvlTree K V → AvlTree K V) → K → AvlTree K V → AvlTree K V × Bool
  delete delete_node key t = let t' = delete_node key t in (t', ltb_ℤ t'.size t.size)

  abbrev pub top : List (Tree K V) → Tree K V
  top [] = Tree.leaf
  top (n ∷ path) = n

  abbrev pub at_top : List (Tree K V) → Iter K V
  at_top path = record { current_node = top path; path_stack = path }

  unfoldable pub push_left_path : Tree K V → List (Tree K V) → List (Tree K V)
  push_left_path Tree.leaf path = path
  push_left_path (Tree.node l k v h r) path = push_left_path l (Tree.node l k v h r ∷ path)

  unfoldable pub find_first : AvlTree K V → Iter K V
  find_first t = at_top (push_left_path t.root [])

  -- `none` is a null pointer that is followed, here and below.
  unfoldable pub find_next : Iter K V → Option (Iter K V)
  find_next it = elim it.path_stack [
    | [] ↦ some (record it { current_node = Tree.leaf })
    | n ∷ path ↦ elim n [
      | Tree.leaf ↦ none
      | Tree.node l k v h r ↦ some (at_top (if is_null r then path else push_left_path r path))
    ]
  ]

  abbrev pub valid : Iter K V → Bool
  valid it = not (is_null it.current_node)

  abbrev pub key : Iter K V → Option K
  key it = elim it.current_node [ Tree.leaf ↦ none | Tree.node l k v h r ↦ some k ]

  abbrev pub value : Iter K V → Option V
  value it = elim it.current_node [ Tree.leaf ↦ none | Tree.node l k v h r ↦ some v ]

  -- The loop of `Seek`.
  unfoldable pub seek_path : KeyOrder K → K → Tree K V → List (Tree K V) → List (Tree K V)
  seek_path o target Tree.leaf path = path
  seek_path o target (Tree.node l k v h r) path = elim (o.less k target) [
    | false ↦ seek_path o target l (Tree.node l k v h r ∷ path)
    | true ↦ seek_path o target r path
  ]

  unfoldable pub seek : KeyOrder K → K → AvlTree K V → Iter K V
  seek o target t = at_top (seek_path o target t.root [])

  -- `for (; it.Valid(); it.Next())`: the keys and values.
  unfoldable pub collect : ℕ → Iter K V → Option (List (K × V))
  collect zero it = none
  collect (suc f) it = elim (valid it) [
    | false ↦ some []
    | true ↦ key it >>= λ k.
        value it >>= λ v. find_next it >>= λ next. collect f next >>= λ m. some ((k, v) ∷ m)
  ]
