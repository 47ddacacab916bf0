-- ===== src/Avl/Destroy.antt =====
-- The destructor of src/memtable/avl_tree.h deletes each node once.
use tiny_db.Prelude.{List, [], ◌∷◌, ◌++◌}
use mathlib.Core.List.{Perm, perm_append_singleton}
use mathlib.Core.List.Perm
use tiny_db.Avl.{Tree, AvlTree, destroy_tree, destroy}

module _ {ℓ} {K V : Type ℓ} where
  -- The nodes of a tree in order.
  abbrev pub nodes : Tree K V → List (Tree K V)
  nodes Tree.leaf = []
  nodes (Tree.node l k v h r) = nodes l ++ (Tree.node l k v h r ∷ nodes r)

  destroy_tree-nodes : (t : Tree K V) → Perm (destroy_tree t) (nodes t)
  unfolding destroy_tree
  destroy_tree-nodes Tree.leaf = Perm.nil
  destroy_tree-nodes (Tree.node l k v h r) =
      let n = Tree.node l k v h r in
      Perm.append (destroy_tree-nodes l)
        (Perm.trans (perm_append_singleton n (destroy_tree r)) (Perm.cons n (destroy_tree-nodes r)))

  -- The destructor deletes every node of the tree, and each of them once.
  pub destroy-nodes : (t : AvlTree K V) → Perm (destroy t) (nodes t.root)
  unfolding destroy
  destroy-nodes t = destroy_tree-nodes t.root
