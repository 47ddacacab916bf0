-- ===== src/Db/Recovery.antt =====
-- What reading the log back yields after calls of src/db/db.h.
use tiny_db.Prelude.{
  ℕ, suc, ◌+◌, ◌%◌, ◌^◌, ◌<◌, ◌≡◌, refl, sym, ap, ◌∙◌, Bool, true, false, ◌||◌, Option, none, some,
  List, [], ◌∷◌, ◌++◌, Bytes, subst, length, All, append-nil, append_assoc, Bool-cases, inl, inr,
  arith, ltb, leb,
}
use tiny_db.Status.{Status}
use tiny_db.File.{System, WritesAll, ReadsAt}
use tiny_db.Wal.{Checksum, Is32Bit}
use tiny_db.Wal.Records.{log_record}
use tiny_db.Wal.Replay.{records, replay, replay_lem}
use tiny_db.Lru.{Node}
use tiny_db.MemTable.{c_str}
use tiny_db.MemTable.Laws.{lookup}
use tiny_db.Db.{Db, Tables, Options, new_db, is_empty, build_sst_path}
use tiny_db.Db.Logged.{logged, length-logged}
use tiny_db.Db.Calls.{DbCall, Reply, answer_all}
use tiny_db.Db.Spec.{
  TablesSpec, Spec, Entries, after_write, cached, erased, turned, usage, put_spec, delete_spec,
  get_cached, get_tabled, get_filed, answer_spec, answer_all_spec,
}
use tiny_db.Db.Refine.{IsFaithful, Fits, Agrees}
use tiny_db.Db.Refine.Run.{new_spec, new_db-Refines, answer_all-answer_all_spec}

-- What a call writes to the log.
abbrev pub logged_by : DbCall → List Bytes
logged_by (DbCall.put_call bits now key value) = logged key ∷ []
logged_by (DbCall.delete_call bits []) = []
logged_by (DbCall.delete_call bits (b ∷ key)) = logged (b ∷ key) ∷ []
logged_by (DbCall.get_call now key ret) = []
logged_by DbCall.batch_put_call = []
logged_by DbCall.batch_delete_call = []
logged_by DbCall.close_call = []

abbrev pub logged_by_all : List DbCall → List Bytes
logged_by_all [] = []
logged_by_all (call ∷ calls) = logged_by call ++ logged_by_all calls

records-append :
    (crc : Checksum) (xs ys : List Bytes)
    → records crc (xs ++ ys) ≡ records crc xs ++ records crc ys
records-append crc [] ys = refl
records-append crc (x ∷ xs) ys =
    ap (λ b. log_record crc x ++ b) (records-append crc xs ys)
    ∙ sym (append_assoc (log_record crc x) (records crc xs) (records crc ys))

-- The files of tables never fault.
pub record IsTotal {F : Type 0} (spec : TablesSpec F) : Type 0 where
  pub converts : (path : Bytes) (m : Entries) (f : F) → (f' : F) × (spec.convert path m f ≡ some f')
  pub seeks :
      (f : F) (path key : Bytes) → (found : Option Bytes) × (spec.seek f path key ≡ some found)

module _ {F : Type 0} (crc : Checksum) (hash_fn : Bytes → ℕ) (spec : TablesSpec F)
    (total : IsTotal spec) (options : Options) (capacity : ℕ) where
  -- A result, with these records behind those of before.
  abbrev pub Logs : {A : Type 0} → List Bytes → Spec F → Option (Spec F × A) → Type 0
  Logs {A} logs s x =
      (s' : Spec F) × (r : A) × (x ≡ some (s', r)) × (s'.log ≡ s.log ++ records crc logs)

  turned_runs :
      (over : Bool) (s : Spec F)
      → (s' : Spec F) × (turned crc hash_fn spec options capacity over s ≡ some s')
        × (s'.log ≡ s.log)
  turned_runs false s = (s, refl, refl)
  turned_runs true s =
      let path = options.storage_dir ++ (47 ∷ build_sst_path 0 s.l1sst_num) in
      let (files, run) = total.converts path s.table s.files in
      (
        record s { files = files; l1sst_num = (s.l1sst_num + 1) % 2 ^ 32; table = [] },
        rw run refl,
        refl,
      )

  nothing : (s : Spec F) → s.log ≡ s.log ++ records crc []
  nothing s = sym (append-nil s.log)

  one : (s : Spec F) (b : Bytes) → s.log ++ log_record crc b ≡ s.log ++ records crc (b ∷ [])
  one s b = ap (λ x. s.log ++ x) (sym (append-nil (log_record crc b)))

  put_spec-Logs :
      (key value : Bytes) (s : Spec F)
      → Logs (logged key ∷ []) s (put_spec crc hash_fn spec options capacity key value s)
  put_spec-Logs key value s =
      let s1 = after_write crc hash_fn spec options capacity key (c_str value) s in
      elim (Bool-cases (is_empty key || is_empty value)) [
        | inl e ↦ (s1, (Status.invalid_args, []), rw e refl, one s (logged key))
        | inr e ↦
            let over =
              ltb options.mem_table_max_size (usage crc hash_fn spec options capacity s1) in
            let (s2, run, same) =
              turned_runs over (cached crc hash_fn spec options capacity key value s1) in
            (s2, (Status.success, []), rw e (rw run refl), same ∙ one s (logged key))
      ]

  delete_spec-Logs :
      (bits : List Bool) (key : Bytes) (s : Spec F)
      → Logs
          (logged_by (DbCall.delete_call bits key))
          s
          (delete_spec crc hash_fn spec options capacity key s)
  delete_spec-Logs bits [] s = (s, (Status.invalid_args, []), refl, nothing s)
  delete_spec-Logs bits (b ∷ rest) s =
      let key : Bytes = b ∷ rest in
      let s1 = after_write crc hash_fn spec options capacity key [] s in
      let over = leb options.mem_table_max_size (usage crc hash_fn spec options capacity s1) in
      let (s2, run, same) = turned_runs over (erased crc hash_fn spec options capacity key s1) in
      (s2, (Status.success, []), rw run refl, same ∙ one s (logged key))

  get_filed-Logs :
      (key ret : Bytes) (s : Spec F) (found : Option Bytes)
      → Logs [] s (get_filed crc hash_fn spec options capacity key ret s found)
  get_filed-Logs key ret s none = (s, (Status.not_found, ret), refl, nothing s)
  get_filed-Logs key ret s (some v) = (
    cached crc hash_fn spec options capacity (c_str key) v s,
    (Status.success, ret ++ v),
    refl,
    nothing s,
  )

  get_tabled-Logs :
      (key ret : Bytes) (s : Spec F) (found : Option Bytes)
      → Logs [] s (get_tabled crc hash_fn spec options capacity key ret s found)
  get_tabled-Logs key ret s (some v) = (s, (Status.success, v), refl, nothing s)
  get_tabled-Logs key ret s none =
      let path = options.storage_dir ++ build_sst_path 0 0 in
      let (found, run) = total.seeks s.files path key in
      let (s', r, answer, kept) = get_filed-Logs key ret s found in (s', r, rw run answer, kept)

  get_cached-Logs :
      (key ret : Bytes) (s : Spec F) (found : Option Bytes)
      → Logs [] s (get_cached crc hash_fn spec options capacity key ret s found)
  get_cached-Logs key ret s (some v) = (_, (Status.success, v), refl, nothing s)
  get_cached-Logs key ret s none = get_tabled-Logs key ret s (lookup (c_str key) s.table)

  pub answer_spec-Logs :
      (call : DbCall) (s : Spec F)
      → Logs (logged_by call) s (answer_spec crc hash_fn spec options capacity call s)
  answer_spec-Logs (DbCall.put_call bits now key value) s = put_spec-Logs key value s
  answer_spec-Logs (DbCall.delete_call bits key) s = delete_spec-Logs bits key s
  answer_spec-Logs (DbCall.get_call now [] ret) s = (s, (Status.invalid_args, ret), refl, nothing s)
  answer_spec-Logs (DbCall.get_call now (b ∷ rest) ret) s = get_cached-Logs (b ∷ rest) ret s _
  answer_spec-Logs DbCall.batch_put_call s = (s, (Status.not_impl, []), refl, nothing s)
  answer_spec-Logs DbCall.batch_delete_call s = (s, (Status.not_impl, []), refl, nothing s)
  answer_spec-Logs DbCall.close_call s = (s, (Status.success, []), refl, nothing s)

  answer_all_spec-Logs :
      (calls : List DbCall) (s : Spec F)
      → Logs (logged_by_all calls) s (answer_all_spec crc hash_fn spec options capacity calls s)
  answer_all_spec-Logs [] s = (s, [], refl, nothing s)
  answer_all_spec-Logs (call ∷ calls) s =
      let (s1, r, run, log1) = answer_spec-Logs call s in
      let (s2, rs, run2, log2) = answer_all_spec-Logs calls s1 in
      (
        s2,
        r ∷ rs,
        rw run (rw run2 refl),
        log2
            ∙ ap (λ b. b ++ records crc (logged_by_all calls)) log1
            ∙ append_assoc s.log (records crc (logged_by call)) (records crc (logged_by_all calls))
            ∙ ap (λ b. s.log ++ b)
                (sym (records-append crc (logged_by call) (logged_by_all calls))),
      )

logged_small :
    (calls : List DbCall) → All Fits calls → All (λ log. length log < 2 ^ 31) (logged_by_all calls)
logged_small [] fits = tt
logged_small (DbCall.put_call bits now key value ∷ calls) fits =
    (length-logged key, logged_small calls fits.1)
logged_small (DbCall.delete_call bits [] ∷ calls) fits = logged_small calls fits.1
logged_small (DbCall.delete_call bits (b ∷ key) ∷ calls) fits =
    (length-logged (b ∷ key), logged_small calls fits.1)
logged_small (DbCall.get_call now key ret ∷ calls) fits = logged_small calls fits.1
logged_small (DbCall.batch_put_call ∷ calls) fits = logged_small calls fits.1
logged_small (DbCall.batch_delete_call ∷ calls) fits = logged_small calls fits.1
logged_small (DbCall.close_call ∷ calls) fits = logged_small calls fits.1

module _ {F : Type 0} (os : System) (all : WritesAll os) (reads : ReadsAt os) (crc : Checksum)
    (bits32 : Is32Bit crc) (hash_fn : Bytes → ℕ) (tables : Tables F) (spec : TablesSpec F)
    (faithful : IsFaithful tables spec) (total : IsTotal spec) (options : Options)
    (capacity : ℕ) where
  -- On a system whose writes take all bytes and whose reads return what is there, with a checksum
  -- of 32 bits, and where the files of tables never fault and depend on the entries of a table
  -- alone: any sequence of calls, with keys of at most 255 bytes and values of fewer than 2 ^ 32 -
  -- 1 bytes for Put and Delete, on a new database over an empty log and whose log has fewer than 2
  -- ^ 31 bytes in the end, runs to its end without a fault, and reading it back yields one record
  -- for each Put, and for each Delete of a key that is not empty, which holds the length of the
  -- key and nothing else, or nothing if the key is empty, and then exec_failed.
  pub replay-answer_all :
      (lisst_num : ℕ) (node : Node Bytes Bytes) (files : F) (calls : List DbCall)
      → All Fits calls
      → length (records crc (logged_by_all calls)) < 2 ^ 31
      → (d : Db F) × (replies : List Reply) × (answer_all os crc hash_fn tables options calls
            (new_db capacity lisst_num [] node files)
          ≡ some (d, replies))
        × (replay
              (suc (length (logged_by_all calls)))
              os
              crc
              (record { readable_file = some d.wal.file; offset = 0 })
            ≡ some (logged_by_all calls, Status.exec_failed))
  replay-answer_all lisst_num node files calls fits small =
      let (s, replies, run, log) =
        answer_all_spec-Logs crc hash_fn spec total options capacity calls
          (new_spec lisst_num [] files) in
      let (d, ran, h) =
        subst
          (Agrees capacity (
            answer_all os crc hash_fn tables options calls
              (new_db capacity lisst_num [] node files)))
          run
          (answer_all-answer_all_spec os all crc hash_fn tables spec faithful options capacity calls
            fits (new_db-Refines capacity lisst_num [] node files)) in
      (
        d,
        replies,
        ran,
        rw (h.logs ∙ log) (
            replay_lem os all crc reads bits32 (suc (length (logged_by_all calls))) []
              (logged_by_all calls) (logged_small calls fits) (omega arith) (omega arith)),
      )
