-- ===== src/Avl/Tests.antt =====
-- The properties of src/memtable/avl_tree.h at concrete trees.
use mathlib.Core.List.{Perm}
use tiny_db.Prelude.{ℕ, zero, suc, ◌≡◌, refl, true, some, List, [], ◌∷◌, Bytes, arith, length}
use tiny_db.Prelude.Int.{pos, negsuc}
use tiny_db.Order.ByteString.{byte_string}
use tiny_db.Avl.{Tree, AvlTree, destroy, collect, find_first, seek, search, get_balance}
use tiny_db.Avl.Destroy.{nodes, destroy-nodes}
use tiny_db.Avl.InOrder.{collect-find_first}
use tiny_db.Avl.Seek.{search-lookup, collect-seek}

abbrev right_child : Tree Bytes ℕ
right_child =
    Tree.node (Tree.node Tree.leaf (4 ∷ []) 40 (pos 1) Tree.leaf) (6 ∷ []) 60 (pos 2) Tree.leaf

-- The keys 2, 4 and 6.
abbrev three : AvlTree Bytes ℕ
three = record {
  root = Tree.node Tree.leaf (2 ∷ []) 20 (pos 3) right_child;
  size = pos 3;
  mem_usage = pos 100;
}

balance_runs : get_balance three.root ≡ negsuc 1
unfolding get_balance tiny_db.Prelude.Int.◌-ℤ◌
balance_runs = refl

collect-find_first_example :
    collect 4 (find_first three) ≡ some (((2 ∷ []), 20) ∷ ((4 ∷ []), 40) ∷ ((6 ∷ []), 60) ∷ [])
collect-find_first_example = collect-find_first three

search-lookup_example : search byte_string (4 ∷ []) 7 three ≡ (true, 40)
search-lookup_example =
    search-lookup byte_string (4 ∷ []) 7 three ((refl, (refl, tt)), ((refl, tt), (tt, tt)))

collect-seek_example :
    collect 4 (seek byte_string (3 ∷ []) three) ≡ some (((4 ∷ []), 40) ∷ ((6 ∷ []), 60) ∷ [])
collect-seek_example =
    collect-seek byte_string (3 ∷ []) three ((refl, (refl, tt)), ((refl, tt), (tt, tt)))

destroy-nodes_example : Perm (destroy three) (nodes three.root)
destroy-nodes_example = destroy-nodes three
