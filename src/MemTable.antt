-- ===== src/MemTable.antt =====
-- The memtable of src/memtable/memtable.h and src/memtable/memtable.cpp over a skip list; its
-- iterator is in Iterator.
pub mod Laws
pub mod Iterator
pub mod Walk
pub mod Tests
use tiny_db.Prelude.{
  ℕ, zero, suc, Bool, true, false, not, Option, none, some, List, [], ◌∷◌, Bytes, length, ◌==◌,
  ◌>>=◌, if◌then◌else◌,
}
use tiny_db.Prelude.Int.{ℤ}
use tiny_db.Order.ByteString.{byte_string}
use tiny_db.SkipList
use tiny_db.SkipList.{SkipList, Sizes}

pub data OpType : Type 0 where
  k_deletion k_add k_update : OpType

abbrev pub Table : Type 0
Table = SkipList Bytes Bytes

abbrev pub sizes : Sizes Bytes Bytes
sizes = record { key_size = length; value_size = length }

-- A `std::string` made from `view.data()`: the bytes in front of the first NUL. The view is one of a
-- string that ends in NUL.
abbrev pub c_str : Bytes → Bytes
c_str [] = []
c_str (b ∷ bs) = if b == 0 then [] else b ∷ c_str bs

unfoldable pub new_table : Table
unfolding SkipList.empty
new_table = SkipList.empty [] []

unfoldable pub contains : Bytes → Table → Option Bool
contains key t = SkipList.contains byte_string t (c_str key)

unfoldable pub get : Bytes → Table → Option (Option Bytes)
get key t = SkipList.get byte_string t (c_str key)

-- `Insert`; `bits` are what `rand() & 1` returns.
unfoldable pub insert : OpType → List Bool → Bytes → Bytes → Table → Option Table
insert OpType.k_add bits key value t =
    SkipList.insert byte_string sizes bits (c_str key) (c_str value) t
insert OpType.k_update bits key value t = SkipList.delete byte_string sizes (c_str key) t >>= λ t'.
    SkipList.insert byte_string sizes bits (c_str key) (c_str value) t'
insert OpType.k_deletion bits key value t = SkipList.contains byte_string t (c_str key) >>= λ there.
    (if there then SkipList.delete byte_string sizes (c_str key) t else some t) >>= λ t'.
    SkipList.insert byte_string sizes bits (c_str key) [] t'

unfoldable pub add : List Bool → Bytes → Bytes → Table → Option Table
unfolding insert
add = insert OpType.k_add

unfoldable pub update : List Bool → Bytes → Bytes → Table → Option Table
unfolding insert
update = insert OpType.k_update

unfoldable pub delete : List Bool → Bytes → Table → Option Table
unfolding insert
delete bits key = insert OpType.k_deletion bits key []

abbrev pub get_mem_usage : Table → ℤ
get_mem_usage t = t.mem_usage

abbrev pub get_size : Table → ℤ
get_size t = t.size
