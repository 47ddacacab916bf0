-- ===== src/Lru/Tests.antt =====
-- The properties of src/cache/lru.h at concrete shards.
use tiny_db.Prelude.{
  Bool, ℕ, ◌≡◌, refl, ap, sym, subst, false, Option, none, some, List, [], ◌∷◌, Bytes,
}
use tiny_db.Prelude.Int.{pos}
use tiny_db.Order.ByteString.{byte_string}
use tiny_db.Lru.{
  Lru, Node, new_lru, register_clean_handle, insert, erase, get, release, phantom_erase_node, unref,
  splice, push_front,
}
use tiny_db.Lru.Refine.{Represents, new_lru-Represents, touch, value_at, erase-Represents}
use tiny_db.Lru.Use.{get-Represents, release-get}
use tiny_db.Lru.Admit.{insert-Represents, insert-get_stored}
use tiny_db.Lru.Shared.{Call, effect, after_all, Runs-after_all}
use tiny_db.Locks.{acquire, construct, destroy, unlock, spin_lock}
use tiny_db.Locks.Exclusion.{spin_lock-IsExcluding}
use tiny_db.Locks.Serial.{Shared, Step, Runs}

abbrev pub no_node : Node Bytes Bytes
no_node = record {
  key = [];
  val = [];
  ref_cnt = pos 0;
  hash_val = 0;
  in_cache = false;
  last_access_time = 0;
}

abbrev none_cached : Lru Bytes Bytes
none_cached = register_clean_handle (new_lru 2 no_node)

abbrev made : Option (Lru Bytes Bytes) → Lru Bytes Bytes
made none = none_cached
made (some c) = c

abbrev one_cached : Lru Bytes Bytes
one_cached = made (insert byte_string 17 1 (1 ∷ []) (10 ∷ []) none_cached)

abbrev pub two_cached : Lru Bytes Bytes
two_cached = made (insert byte_string 18 2 (2 ∷ []) (20 ∷ []) one_cached)

first_insert :
    (c : Lru Bytes Bytes) × (insert byte_string 17 1 (1 ∷ []) (10 ∷ []) none_cached ≡ some c)
    × Represents c ((1 ∷ [], 10 ∷ []) ∷ [])
first_insert =
    insert-Represents byte_string 17 1 (1 ∷ []) (10 ∷ []) none_cached []
      (new_lru-Represents 2 no_node)

one_cached-Represents : Represents one_cached ((1 ∷ [], 10 ∷ []) ∷ [])
one_cached-Represents =
    subst (λ c. Represents c ((1 ∷ [], 10 ∷ []) ∷ [])) (ap made (sym first_insert.1)) first_insert.2

second_insert :
    (c : Lru Bytes Bytes) × (insert byte_string 18 2 (2 ∷ []) (20 ∷ []) one_cached ≡ some c)
    × Represents c ((2 ∷ [], 20 ∷ []) ∷ (1 ∷ [], 10 ∷ []) ∷ [])
unfolding insert push_front phantom_erase_node unref splice
second_insert =
    insert-Represents byte_string 18 2 (2 ∷ []) (20 ∷ []) one_cached ((1 ∷ [], 10 ∷ []) ∷ [])
      one_cached-Represents

abbrev pub two_entries : List (Bytes × Bytes)
two_entries = (2 ∷ [], 20 ∷ []) ∷ (1 ∷ [], 10 ∷ []) ∷ []

pub two_cached-Represents : Represents two_cached two_entries
two_cached-Represents =
    subst (λ c. Represents c two_entries) (ap made (sym second_insert.1)) second_insert.2

-- The shard is full: the entry of key 1 goes.
insert-Represents_example :
    (c : Lru Bytes Bytes) × (insert byte_string 19 3 (3 ∷ []) (30 ∷ []) two_cached ≡ some c)
    × Represents c ((3 ∷ [], 30 ∷ []) ∷ (2 ∷ [], 20 ∷ []) ∷ [])
unfolding insert push_front phantom_erase_node unref splice
insert-Represents_example =
    insert-Represents byte_string 19 3 (3 ∷ []) (30 ∷ []) two_cached two_entries
      two_cached-Represents

erase-Represents_example :
    (c : Lru Bytes Bytes) × (erase byte_string two_cached (2 ∷ []) ≡ some c)
    × Represents c ((1 ∷ [], 10 ∷ []) ∷ [])
unfolding insert push_front phantom_erase_node unref splice
erase-Represents_example =
    erase-Represents byte_string two_cached two_entries two_cached-Represents (2 ∷ [])

get-Represents_example :
    (c : Lru Bytes Bytes) × (got : Option ℕ) × (get byte_string two_cached (1 ∷ []) ≡ some (c, got))
    × (value_at c got ≡ some (10 ∷ []))
    × Represents c ((1 ∷ [], 10 ∷ []) ∷ (2 ∷ [], 20 ∷ []) ∷ [])
unfolding insert push_front phantom_erase_node unref splice
get-Represents_example =
    get-Represents byte_string two_cached two_entries two_cached-Represents (1 ∷ [])

insert-get_stored_example :
    (c1 c2 : Lru Bytes Bytes) × (got : Option ℕ) × (insert byte_string 17 4
        (1 ∷ [])
        (99 ∷ [])
        two_cached
      ≡ some c1)
    × (get byte_string c1 (1 ∷ []) ≡ some (c2, got))
    × (value_at c2 got ≡ some (10 ∷ []))
insert-get_stored_example =
    insert-get_stored byte_string 17 4 (1 ∷ []) (99 ∷ []) (10 ∷ []) two_cached two_entries
      two_cached-Represents refl

release-get_example :
    (c1 c2 : Lru Bytes Bytes) × (get byte_string two_cached (1 ∷ []) ≡ some (c1, some 0))
    × (release byte_string c1 (1 ∷ []) ≡ some c2)
    × ((c2.heap 0).ref_cnt ≡ (two_cached.heap 0).ref_cnt)
    × Represents c2 (touch byte_string (1 ∷ []) two_entries)
unfolding insert push_front phantom_erase_node unref splice
release-get_example =
    release-get byte_string two_cached two_entries two_cached-Represents (1 ∷ []) 0 refl

abbrev small_steps : Call Bytes Bytes → List (Option (Lru Bytes Bytes) → Option (Lru Bytes Bytes))
small_steps call = (λ x. x) ∷ effect byte_string call ∷ []

-- Thread 0 erases key 2, while thread 1 waits to get key 1.
abbrev both_called :
    (s : Shared Bool (Option (Lru Bytes Bytes)) (Call Bytes Bytes)) × Runs spin_lock small_steps
      (some two_cached)
      s
unfolding acquire construct destroy unlock
both_called = (
  _,
  Runs.later
      (Runs.later
        (Runs.later
          (Runs.later
            (Runs.later
              (Runs.later
                (Runs.later
                  (Runs.later
                    (Runs.later
                      (Runs.later
                        (Runs.later (Runs.start (λ i. Call.contains_call []) (λ i. []))
                          (Step.call 0 (Call.erase_call (2 ∷ [])) refl))
                        (Step.take 0 refl refl))
                      (Step.access 0 _ _ refl refl))
                    (Step.call 1 (Call.get_call (1 ∷ [])) refl))
                  (Step.wait 1 refl refl))
                (Step.access 0 _ _ refl refl))
              (Step.leave 0 refl refl))
            (Step.take 1 refl refl))
          (Step.access 1 _ _ refl refl))
        (Step.access 1 _ _ refl refl))
      (Step.leave 1 refl refl),
)

Runs-after_all_example :
    (c : Lru Bytes Bytes) × (both_called.0.value ≡ some c)
    × Represents c (
        after_all byte_string 2
          (Call.get_call (1 ∷ []) ∷ Call.erase_call (2 ∷ []) ∷ [])
          two_entries)
unfolding acquire construct destroy unlock insert push_front phantom_erase_node unref splice
Runs-after_all_example =
    Runs-after_all byte_string small_steps (λ call x. refl) two_cached two_entries
      two_cached-Represents spin_lock spin_lock-IsExcluding both_called.1 refl
