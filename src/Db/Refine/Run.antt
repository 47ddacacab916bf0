-- ===== src/Db/Refine/Run.antt =====
-- Any sequence of the calls of src/db/db.h does what the list-based view says.
use tiny_db.Prelude.{ℕ, refl, List, [], ◌∷◌, Bytes, All}
use tiny_db.File.{System, WritesAll}
use tiny_db.Wal.{Checksum}
use tiny_db.Db.{Options, Tables, Db}
use tiny_db.Db.Calls.{DbCall, answer, answer_all}
use tiny_db.Db.Spec.{TablesSpec, Spec, answer_spec, answer_all_spec}
use tiny_db.Db.Refine.{IsFaithful, Refines, Agrees, Fits, Agrees-bind}
use tiny_db.Lru.{Node}
use tiny_db.Lru.Refine.{new_lru-Represents}
use tiny_db.MemTable.Laws.{new_table-Holds}
use tiny_db.Db.{new_db}
use tiny_db.Db.Refine.Writes.{put-put_spec, delete-delete_spec}
use tiny_db.Db.Refine.Reads.{get-get_spec}

module _ {F : Type 0} (os : System) (all : WritesAll os) (crc : Checksum) (hash_fn : Bytes → ℕ)
    (tables : Tables F) (spec : TablesSpec F) (faithful : IsFaithful tables spec)
    (options : Options) (capacity : ℕ) where
  pub answer-answer_spec :
      (call : DbCall)
      → Fits call
      → {d : Db F} {s : Spec F} → Refines capacity d s
      → Agrees capacity
          (answer os crc hash_fn tables options call d)
          (answer_spec crc hash_fn spec options capacity call s)
  unfolding answer
  answer-answer_spec (DbCall.put_call bits now key value) fits {d} {s} h =
      put-put_spec os all crc hash_fn tables spec faithful options capacity bits now key value
        fits.0 fits.1 h
  answer-answer_spec (DbCall.delete_call bits key) fits {d} {s} h =
      delete-delete_spec os all crc hash_fn tables spec faithful options capacity bits key fits h
  answer-answer_spec (DbCall.get_call now key ret) fits {d} {s} h =
      get-get_spec os all crc hash_fn tables spec faithful options capacity now key ret h
  answer-answer_spec DbCall.batch_put_call fits {d} {s} h = (d, refl, h)
  answer-answer_spec DbCall.batch_delete_call fits {d} {s} h = (d, refl, h)
  answer-answer_spec DbCall.close_call fits {d} {s} h = (d, refl, h)

  -- On a system whose writes take all bytes, where what a table is converted to depends on its
  -- entries alone: any sequence of Put, Delete, Get, BatchPut, BatchDelete and Close, with keys of
  -- at most 255 bytes and values of fewer than 2 ^ 32 - 1 bytes for the first two, on a database
  -- that matches its list-based view, faults exactly if the view does, which is if the files of
  -- tables do. Else it gives the replies of the view, whatever rand() and the clock return, and
  -- ends at a database that matches the view again: all that was logged is in the file, the
  -- memtable and each shard of the cache hold the entries of the view, and no shard has changed
  -- its capacity.
  pub answer_all-answer_all_spec :
      (calls : List DbCall)
      → All Fits calls
      → {d : Db F} {s : Spec F} → Refines capacity d s
      → Agrees capacity
          (answer_all os crc hash_fn tables options calls d)
          (answer_all_spec crc hash_fn spec options capacity calls s)
  unfolding answer_all
  answer_all-answer_all_spec [] fits {d} {s} h = (d, refl, h)
  answer_all-answer_all_spec (call ∷ calls) fits {d} {s} h =
      Agrees-bind capacity _ _ _ _ (answer-answer_spec call fits.0 h) (λ d' s' r h'.
        Agrees-bind capacity _ _ _ _ (answer_all-answer_all_spec calls fits.1 h')
          (λ d2 s2 rs h2. (d2, refl, h2)))

-- A new database, and what a client sees of it.
abbrev pub new_spec : {F : Type 0} → ℕ → Bytes → F → Spec F
new_spec lisst_num wal_file files = record {
  log = wal_file;
  table = [];
  shards = λ i. [];
  l1sst_num = lisst_num;
  files = files;
}

pub new_db-Refines :
    {F : Type 0} (capacity lisst_num : ℕ) (wal_file : Bytes) (node : Node Bytes Bytes) (files : F)
    → Refines capacity
        (new_db capacity lisst_num wal_file node files)
        (new_spec lisst_num wal_file files)
new_db-Refines capacity lisst_num wal_file node files = record {
  logs = refl;
  flushed = refl;
  table = new_table-Holds;
  shards = λ i. new_lru-Represents capacity node;
  caps = λ i. refl;
  numbered = refl;
  stored = refl;
}
