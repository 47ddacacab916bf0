-- ===== src/Db/Workload/Run.antt =====
-- The calls of src/main.cpp on the database: all the writes, and then all the reads.
use tiny_db.Prelude.{
  ℕ, ◌+◌, ◌^◌, ◌<◌, ◌≤◌, map, ◌≡◌, refl, sym, ap, ◌∙◌, subst, false, none, some, List, [], ◌∷◌,
  Bytes, All, if◌then◌else◌, arith,
}
use tiny_db.Order.ByteString.{bytes_same}
use tiny_db.SkipList.{weight}
use tiny_db.Status.{Status}
use tiny_db.Wal.{Checksum}
use tiny_db.MemTable.{sizes}
use tiny_db.MemTable.Laws.{lookup}
use tiny_db.Db.{Options}
use tiny_db.Db.Refine.{Fits}
use tiny_db.Db.Spec.{TablesSpec, Spec, answer_all_spec}
use tiny_db.File.{System, WritesAll}
use tiny_db.Lru.{Node}
use tiny_db.Db.{Db, Tables, new_db}
use tiny_db.Db.Calls.{answer_all}
use tiny_db.Db.Refine.{IsFaithful, Agrees}
use tiny_db.Db.Refine.Run.{new_spec, new_db-Refines, answer_all-answer_all_spec}
use tiny_db.Db.Workload.{IsPlain, Put, Get, put_calls, get_calls, IsWorkload, total, last_value}
use tiny_db.Db.Workload.Steps.{IsCoherent, get_stored, put_fresh}

IsWorkload-Fits : (puts : List Put) → IsWorkload puts → All Fits (put_calls puts)
IsWorkload-Fits [] h = tt
IsWorkload-Fits (p ∷ puts) ((k, v, short, fits), other, h) = ((short, fits), IsWorkload-Fits puts h)

Fits-gets : (gets : List Get) → All Fits (get_calls gets)
Fits-gets [] = tt
Fits-gets (g ∷ gets) = (tt, Fits-gets gets)

-- The keys that are left are still new after a write of another one.
still_fresh :
    (k v : Bytes) (m m' : List (Bytes × Bytes)) (puts : List Put)
    → ((q : Bytes) → lookup q m' ≡ (if bytes_same k q then some v else lookup q m))
    → All (λ r. bytes_same k r.key ≡ false) puts
    → All (λ r. lookup r.key m ≡ none) puts
    → All (λ r. lookup r.key m' ≡ none) puts
still_fresh k v m m' [] reads other fresh = tt
still_fresh k v m m' (p ∷ puts) reads (o, other) (f, fresh) =
    (reads p.key ∙ rw o f, still_fresh k v m m' puts reads other fresh)

nothing_yet : (puts : List Put) → All (λ p. lookup p.key [] ≡ none) puts
nothing_yet [] = tt
nothing_yet (p ∷ puts) = (refl, nothing_yet puts)

found_all :
    (puts : List Put) (m : List (Bytes × Bytes)) (gets : List Get)
    → ((q : Bytes) → lookup q m ≡ last_value q puts none)
    → All (λ g. IsPlain g.key × (last_value g.key puts none ≡ some g.value)) gets
    → All (λ g. IsPlain g.key × (lookup g.key m ≡ some g.value)) gets
found_all puts m [] reads h = tt
found_all puts m (g ∷ gets) reads ((k, there), h) =
    ((k, reads g.key ∙ there), found_all puts m gets reads h)

module _ {F : Type 0} (crc : Checksum) (hash_fn : Bytes → ℕ) (spec : TablesSpec F)
    (options : Options) (capacity : ℕ) where
  put_all :
      (puts : List Put) (s : Spec F)
      → IsCoherent crc hash_fn spec options capacity s
      → IsWorkload puts
      → All (λ p. lookup p.key s.table ≡ none) puts
      → weight sizes s.table + total puts ≤ options.mem_table_max_size
      → options.mem_table_max_size < 2 ^ 64
      → (s' : Spec F) × (answer_all_spec crc hash_fn spec options capacity (put_calls puts) s
          ≡ some (s', map (λ p. (Status.success, [])) puts))
        × IsCoherent crc hash_fn spec options capacity s'
        × ((q : Bytes) → lookup q s'.table ≡ last_value q puts (lookup q s.table))
  put_all [] s coherent good fresh small bound = (s, refl, coherent, λ q. refl)
  put_all (p ∷ puts) s coherent ((k, v, short, fits), other, good) (f, fresh) small bound =
      let (s1, run1, coherent1, reads1, heavy1) =
        put_fresh crc hash_fn spec options capacity s p.key p.value coherent k v f (omega arith)
          bound in
      let (s2, run2, coherent2, reads2) =
        put_all puts s1 coherent1 good (still_fresh p.key p.value _ _ puts reads1 other fresh)
          (omega arith) bound in
      (s2, rw run1 (rw run2 refl), coherent2, λ q. reads2 q ∙ ap (last_value q puts) (reads1 q))

  get_all :
      (gets : List Get) (s : Spec F)
      → IsCoherent crc hash_fn spec options capacity s
      → All (λ g. IsPlain g.key × (lookup g.key s.table ≡ some g.value)) gets
      → (s' : Spec F) × (answer_all_spec crc hash_fn spec options capacity (get_calls gets) s
          ≡ some (s', map (λ g. (Status.success, g.value)) gets))
  get_all [] s coherent h = (s, refl)
  get_all (g ∷ gets) s coherent ((k, there), h) =
      let (s1, run1, coherent1, same) =
        get_stored crc hash_fn spec options capacity s g.key g.value g.ret coherent k there in
      let (s2, run2) = get_all gets s1 coherent1 (
        subst (λ m. All (λ g. IsPlain g.key × (lookup g.key m ≡ some g.value)) gets) (sym same)
          h) in
      (s2, rw run1 (rw run2 refl))

  -- On a system whose writes take all bytes, where what a table is converted to depends on its
  -- entries alone: if any number of Puts of keys and values with no NUL, none of them empty, each
  -- key once and of at most 255 bytes, each value of fewer than 2 ^ 32 - 1 bytes, and together of
  -- no more bytes than the memtable may hold, which is fewer than 2 ^ 64, is made on a new
  -- database, and then any Gets of keys that were written, in any order and also repeated, then
  -- every Put answers Success and every Get answers Success with the value written, whatever was
  -- evicted from the cache.
  pub answer_all-put_calls :
      (os : System)
      → WritesAll os
      → (tables : Tables F) → IsFaithful tables spec
      → (puts : List Put) (gets : List Get) → IsWorkload puts
      → total puts ≤ options.mem_table_max_size
      → options.mem_table_max_size < 2 ^ 64
      → All (λ g. IsPlain g.key × (last_value g.key puts none ≡ some g.value)) gets
      → (lisst_num : ℕ) (wal_file : Bytes) (node : Node Bytes Bytes) (files : F)
      → (d1 : Db F) × (d2 : Db F) × (answer_all os crc hash_fn tables options
            (put_calls puts)
            (new_db capacity lisst_num wal_file node files)
          ≡ some (d1, map (λ p. (Status.success, [])) puts))
        × (answer_all os crc hash_fn tables options (get_calls gets) d1
            ≡ some (d2, map (λ g. (Status.success, g.value)) gets))
  answer_all-put_calls os all tables faithful puts gets good small bound read lisst_num wal_file
        node files =
      let s0 = new_spec lisst_num wal_file files in
      let (s1, run1, coherent, reads) =
        put_all puts s0 (λ k v h. absurd (ground (arith, h))) good (nothing_yet puts) (omega arith)
          bound in
      let (d1, ran1, h1) = subst (Agrees capacity _) run1 (
        answer_all-answer_all_spec os all crc hash_fn tables spec faithful options capacity
          (put_calls puts) (IsWorkload-Fits puts good)
          (new_db-Refines capacity lisst_num wal_file node files)) in
      let (s2, run2) = get_all gets s1 coherent (found_all puts _ gets reads read) in
      let (d2, ran2, h2) = subst (Agrees capacity _) run2 (
        answer_all-answer_all_spec os all crc hash_fn tables spec faithful options capacity
          (get_calls gets) (Fits-gets gets) h1) in
      (d1, d2, ran1, ran2)
