-- ===== src/MemTable/Laws.antt =====
-- What a memtable holds after each operation.
use tiny_db.Prelude.{
  ℕ, ◌≡◌, refl, ap, ◌∙◌, Bool, true, Option, none, some, List, [], ◌∷◌, Bytes, All, arith,
  Option-cases, inl, inr, if◌then◌else◌, is_some, ◌>>=◌, subst, sym,
}
use tiny_db.Order.{KeyOrder}
use tiny_db.Order.ByteString.{byte_string, bytes_same}
use tiny_db.Assoc
use tiny_db.Assoc.{IsAscending, lookup-insert, lookup-remove, remove-absent}
use tiny_db.SkipList
use tiny_db.SkipList.{Node, SkipList, weight}
use tiny_db.Prelude.Int.{pos}
use tiny_db.SkipList.Linked.{Ordered, entries}
use tiny_db.SkipList.Search.{Represents, empty-Represents, get-lookup, contains-lookup}
use tiny_db.SkipList.Refine.{insert_new, insert_duplicate}
use tiny_db.SkipList.Delete.Refine.{delete_stored, delete_absent}
use tiny_db.MemTable.{
  get_mem_usage, Table, sizes, c_str, new_table, contains, get, add, update, delete,
}

-- The table is well formed and holds the entries `m`.
pub record Holds (t : Table) (m : List (Bytes × Bytes)) : Type 0 where
  pub list : List ℕ
  pub represents : Represents byte_string sizes t list
  pub stored : entries t.nodes list ≡ m

abbrev pub lookup : Bytes → List (Bytes × Bytes) → Option Bytes
lookup = Assoc.lookup byte_string

entries-All {ℓ} :
    {K V : Type ℓ} (o : KeyOrder K) (nodes : ℕ → Node K V) (k : K) (s : List ℕ)
    → All (λ c. o.less k (nodes c).key ≡ true) s
    → All (λ e. o.less k e.0 ≡ true) (entries nodes s)
entries-All o nodes k [] h = tt
entries-All o nodes k (b ∷ s) h = (h.0, entries-All o nodes k s h.1)

entries-IsAscending {ℓ} :
    {K V : Type ℓ} (o : KeyOrder K) (nodes : ℕ → Node K V) (top : ℕ) (s : List ℕ)
    → Ordered o nodes top s
    → IsAscending o (entries nodes s)
entries-IsAscending o nodes top [] d = tt
entries-IsAscending o nodes top (b ∷ s) d =
    (entries-All o nodes _ s d.1, entries-IsAscending o nodes top s d.2)

module _ {t : Table} {m : List (Bytes × Bytes)} (h : Holds t m) where
  -- `Get` on a memtable that holds these entries never faults and returns the value of the entry for the
  -- key, up to its first NUL.
  pub get-lookup_lem : (key : Bytes) → get key t ≡ some (lookup (c_str key) m)
  unfolding get
  get-lookup_lem key =
      get-lookup byte_string sizes t h.list h.represents (c_str key)
      ∙ ap (λ x. some (lookup (c_str key) x)) h.stored

  -- `Contains` on a memtable that holds these entries never faults and answers whether there is an entry
  -- for the key, up to its first NUL.
  pub contains-lookup_lem : (key : Bytes) → contains key t ≡ some (is_some (lookup (c_str key) m))
  unfolding contains
  contains-lookup_lem key =
      contains-lookup byte_string sizes t h.list h.represents (c_str key)
      ∙ ap (λ x. some (is_some (lookup (c_str key) x))) h.stored

  pub ascending : IsAscending byte_string m
  ascending =
      subst (IsAscending byte_string) h.stored
        (entries-IsAscending byte_string t.nodes t.max_level h.list h.represents.ordered)

  insert_absent :
      (bits : List Bool) (k v : Bytes)
      → lookup k m ≡ none
      → (t' : Table) × (SkipList.insert byte_string sizes bits k v t ≡ some t')
        × Holds t' (Assoc.insert byte_string k v m)
  insert_absent bits k v absent =
      let (t', l', run, i) =
        insert_new byte_string sizes bits k v t h.list h.represents
          (ap (Assoc.lookup byte_string k) h.stored ∙ absent) in
      (
        t',
        run,
        record {
          list = l';
          represents = i.represents;
          stored = i.stored ∙ ap (Assoc.insert byte_string k v) h.stored;
        },
      )

  -- `Delete` takes the entry of the key out, if there is one.
  remove_any :
      (k : Bytes)
      → (t' : Table) × (m' : List (Bytes × Bytes)) × (SkipList.delete byte_string sizes k t
          ≡ some t')
        × Holds t' m'
        × ((q : Bytes) → lookup q m' ≡ (if bytes_same k q then none else lookup q m))
        × (m' ≡ Assoc.remove byte_string k m)
  remove_any k = elim (Option-cases (lookup k m)) [
    | inl absent ↦ (
      t,
      m,
      delete_absent byte_string sizes k t h.list h.represents
          (ap (Assoc.lookup byte_string k) h.stored ∙ absent),
      h,
      λ q. ground (arith, byte_string.same_iff k q),
      sym (remove-absent byte_string k m absent),
    )
    | inr (v, there) ↦
        let (t', l', run, d) =
          delete_stored byte_string sizes k t h.list h.represents v
            (ap (Assoc.lookup byte_string k) h.stored ∙ there) in
        (
          t',
          Assoc.remove byte_string k m,
          run,
          record {
            list = l';
            represents = d.represents;
            stored = d.stored ∙ ap (Assoc.remove byte_string k) h.stored;
          },
          λ q. lookup-remove byte_string k q m ascending,
          refl,
        )
  ]

same_refl : (k : Bytes) → bytes_same k k ≡ true
same_refl k = (byte_string.same_iff k k).1 refl

-- The table after an operation: every key reads as before, but for `k`, which reads `v`.
pub record Writes (k v : Bytes) (m : List (Bytes × Bytes)) (t' : Table) : Type 0 where
  pub entries_after : List (Bytes × Bytes)
  pub holds : Holds t' entries_after
  pub exact : entries_after ≡ Assoc.insert byte_string k v (Assoc.remove byte_string k m)
  pub reads : (q : Bytes) → lookup q entries_after ≡ (if bytes_same k q then some v else lookup q m)

module _ {t : Table} {m : List (Bytes × Bytes)} (h : Holds t m) where
  -- A deletion in the list, and then an insertion.
  replace :
      (bits : List Bool) (k v : Bytes)
      → (t' : Table) × ((SkipList.delete byte_string sizes k t >>= λ t1.
            SkipList.insert byte_string sizes bits k v t1)
          ≡ some t')
        × Writes k v m t'
  replace bits k v =
      let (t1, m1, run1, h1, reads1, removed) = remove_any h k in
      let gone : lookup k m1 ≡ none = reads1 k ∙ rw (same_refl k) in
      let (t2, run2, h2) = insert_absent h1 bits k v gone in
      (
        t2,
        rw (run1, run2),
        record {
          entries_after = Assoc.insert byte_string k v m1;
          holds = h2;
          exact = ap (Assoc.insert byte_string k v) removed;
          reads = λ q. lookup-insert byte_string k q v m1 gone ∙ ground (arith, reads1 q);
        },
      )

  -- `Update` of a memtable that holds these entries always ends. Afterwards the key, up to its
  -- first NUL, reads the value, up to its first NUL, and every other key reads as before.
  pub update-Writes :
      (bits : List Bool) (key value : Bytes)
      → (t' : Table) × (update bits key value t ≡ some t') × Writes (c_str key) (c_str value) m t'
  unfolding update
  update-Writes bits key value = replace bits (c_str key) (c_str value)

  -- `Delete` of a memtable that holds these entries always ends. Afterwards the key, up to its
  -- first NUL, reads the empty value, the mark of a deleted key, whether or not it was there, and
  -- every other key reads as before.
  pub delete-Writes :
      (bits : List Bool) (key : Bytes)
      → (t' : Table) × (delete bits key t ≡ some t') × Writes (c_str key) [] m t'
  unfolding delete
  delete-Writes bits key =
      let (t', run, w) = replace bits (c_str key) [] in
      let there = contains-lookup byte_string sizes t h.list h.represents (c_str key) in
      (
        t',
        elim (Option-cases (lookup (c_str key) (entries t.nodes h.list))) [
          | inl e ↦
              let stay = delete_absent byte_string sizes (c_str key) t h.list h.represents e in
              rw (there, e) (rw stay at run)
          | inr (v, e) ↦ rw (there, e) run
        ],
        w,
      )

  -- `Add` of a key that a memtable does not hold ends. Afterwards the key reads the value, both up
  -- to their first NUL, and every other key reads as before.
  pub add_new-Writes :
      (bits : List Bool) (key value : Bytes)
      → lookup (c_str key) m ≡ none
      → (t' : Table) × (add bits key value t ≡ some t') × Writes (c_str key) (c_str value) m t'
  unfolding add
  add_new-Writes bits key value absent =
      let (t', run, h') = insert_absent h bits (c_str key) (c_str value) absent in
      (
        t',
        run,
        record {
          entries_after = Assoc.insert byte_string (c_str key) (c_str value) m;
          holds = h';
          exact =
              ap (Assoc.insert byte_string (c_str key) (c_str value))
                (sym (remove-absent byte_string (c_str key) m absent));
          reads = λ q. lookup-insert byte_string (c_str key) q (c_str value) m absent;
        },
      )

  -- `Add` of a key that a memtable holds does nothing.
  pub add_stored :
      (bits : List Bool) (key value v : Bytes)
      → lookup (c_str key) m ≡ some v
      → add bits key value t ≡ some t
  unfolding add
  add_stored bits key value v there =
      insert_duplicate byte_string sizes bits (c_str key) (c_str value) t h.list h.represents v
        (ap (Assoc.lookup byte_string (c_str key)) h.stored ∙ there)

-- A new table is empty.
pub new_table-Holds : Holds new_table []
unfolding new_table
new_table-Holds = record {
  list = [];
  represents = empty-Represents byte_string sizes [] [];
  stored = refl;
}

-- The count of bytes is that of the entries.
pub mem_usage-weight :
    {t : Table} {m : List (Bytes × Bytes)} → Holds t m → get_mem_usage t ≡ pos (weight sizes m)
mem_usage-weight {t} {m} h = h.represents.weighed ∙ ap (λ x. pos (weight sizes x)) h.stored
