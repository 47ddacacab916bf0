-- ===== src/SkipList/Tests.antt =====
-- The properties of src/memtable/skiplist.h at concrete lists.
use tiny_db.Prelude.{
  ℕ, ◌≡◌, refl, ap, true, Option, none, some, List, [], ◌∷◌, Bytes, length, subst, sym,
}
use tiny_db.Order.ByteString.{byte_string}
use tiny_db.Assoc
use tiny_db.Assoc.{lookup}
use tiny_db.SkipList.{SkipList, Sizes, empty, insert, get, contains, delete, random_level}
use tiny_db.SkipList.Linked.{entries}
use tiny_db.SkipList.Search.{Represents, StandsFor, empty-Represents, get-lookup}
use tiny_db.SkipList.Refine.{insert_new}
use tiny_db.SkipList.Delete.Refine.{delete_stored}

abbrev lengths : Sizes Bytes Bytes
lengths = record { key_size = length; value_size = length }

abbrev none_stored : SkipList Bytes Bytes
none_stored = empty [] []

abbrev made : Option (SkipList Bytes Bytes) → SkipList Bytes Bytes
made none = none_stored
made (some s) = s

-- The lists after one insertion and after two, in nodes of two levels and of one.
abbrev one_stored : SkipList Bytes Bytes
one_stored = made (insert byte_string lengths (true ∷ []) (7 ∷ []) (70 ∷ []) none_stored)

abbrev two_stored : SkipList Bytes Bytes
two_stored = made (insert byte_string lengths [] (3 ∷ []) (30 ∷ 31 ∷ []) one_stored)

-- Their nodes, by the theorem on `Insert`.
first_insert :
    (s' : SkipList Bytes Bytes) × (l' : List ℕ) × (insert byte_string lengths
        (true ∷ [])
        (7 ∷ [])
        (70 ∷ [])
        none_stored
      ≡ some s')
    × StandsFor byte_string lengths ((7 ∷ [], 70 ∷ []) ∷ []) s' l'
first_insert =
    insert_new byte_string lengths (true ∷ []) (7 ∷ []) (70 ∷ []) none_stored []
      (empty-Represents byte_string lengths [] []) refl

one_stands : StandsFor byte_string lengths ((7 ∷ [], 70 ∷ []) ∷ []) one_stored first_insert.1
one_stands =
    subst (λ s. StandsFor byte_string lengths ((7 ∷ [], 70 ∷ []) ∷ []) s first_insert.1)
      (ap made (sym first_insert.2)) first_insert.3

stored_at :
    (q : Bytes)
    → lookup byte_string q (entries one_stored.nodes first_insert.1)
      ≡ lookup byte_string q ((7 ∷ [], 70 ∷ []) ∷ [])
stored_at q = ap (lookup byte_string q) one_stands.stored

insert_new_example :
    (s' : SkipList Bytes Bytes) × (l' : List ℕ) × (insert byte_string lengths []
        (3 ∷ [])
        (30 ∷ 31 ∷ [])
        one_stored
      ≡ some s')
    × StandsFor byte_string lengths
        (Assoc.insert byte_string (3 ∷ []) (30 ∷ 31 ∷ []) (entries one_stored.nodes first_insert.1))
        s'
        l'
insert_new_example =
    insert_new byte_string lengths [] (3 ∷ []) (30 ∷ 31 ∷ []) one_stored first_insert.1
      one_stands.represents (stored_at (3 ∷ []))

delete_stored_example :
    (s' : SkipList Bytes Bytes) × (l' : List ℕ) × (delete byte_string lengths (7 ∷ []) one_stored
      ≡ some s')
    × StandsFor byte_string lengths
        (Assoc.remove byte_string (7 ∷ []) (entries one_stored.nodes first_insert.1))
        s'
        l'
delete_stored_example =
    delete_stored byte_string lengths (7 ∷ []) one_stored first_insert.1 one_stands.represents
      (70 ∷ []) (stored_at (7 ∷ []))

get-lookup_example :
    get byte_string one_stored (7 ∷ [])
    ≡ some (lookup byte_string (7 ∷ []) (entries one_stored.nodes first_insert.1))
get-lookup_example =
    get-lookup byte_string lengths one_stored first_insert.1 one_stands.represents (7 ∷ [])

empty-Represents_example : Represents byte_string lengths (empty [] []) []
empty-Represents_example = empty-Represents byte_string lengths [] []

delete-insert_runs :
    get byte_string (made (delete byte_string lengths (7 ∷ []) two_stored)) (3 ∷ [])
    ≡ some (some (30 ∷ 31 ∷ []))
unfolding get delete insert empty tiny_db.SkipList.search contains tiny_db.SkipList.contains_loop
    tiny_db.SkipList.read_next tiny_db.SkipList.find_prev_node tiny_db.SkipList.link random_level
    tiny_db.SkipList.link_level tiny_db.SkipList.write_next tiny_db.SkipList.find_target
    tiny_db.SkipList.read_node tiny_db.SkipList.unlink tiny_db.SkipList.unlink_level
delete-insert_runs = refl
