-- ===== src/File/Opening/Contents.antt =====
-- What a file holds from the constructor of src/file/file_writer.cpp to its destructor.
use tiny_db.Prelude.{
  ℕ, ◌<◌, ◌^◌, ◌≡◌, refl, sym, ap, ◌∙◌, Bool, true, false, Option, none, some, List, [], ◌∷◌, ◌++◌,
  Bytes, length, append_assoc, append-nil, Bool-cases, inl, inr, ◌>>=◌, arith, if◌then◌else◌,
}
use tiny_db.Prelude.Int.{pos}
use tiny_db.File.{System, WritesAll, Writer, open_writer, append, sync}
use tiny_db.File.Path.{slash, IsName, dir_path_lem}
use tiny_db.File.Writing.{IsValid, contents, append_lem, flush_lem}
use tiny_db.File.Opening.{FileSystem, Mode, mode_of, open_file_writer}

abbrev pub or_empty : Option Bytes → Bytes
or_empty none = []
or_empty (some bytes) = bytes

abbrev pub joined : Bytes → Bytes → Bytes
joined dir name = dir ++ slash ∷ name

-- What POSIX and the library promise of the calls. `holds s path` is what the file holds, or none
-- where there is none; `MayMake s dir` says that the directory is there or may be made, and
-- `MayWrite s dir name` that files of the directory may be made and sync-append_all, this one too.
pub record IsFileSystem {S : Type 0} (fs : FileSystem S) (holds : S → Bytes → Option Bytes)
    (MayMake : S → Bytes → Type 0) (MayWrite : S → Bytes → Bytes → Type 0) : Type 0 where
  pub absent : (s : S) (path : Bytes) → fs.access s path ≡ false → holds s path ≡ none
  pub present : (s : S) (path bytes : Bytes) → holds s path ≡ some bytes → fs.access s path ≡ true
  pub made :
      (s : S) (dir name : Bytes)
      → MayMake s dir
      → fs.access s (joined dir name) ≡ false
      → (s' : S) × (fs.create_directories s dir ≡ some s')
        × MayWrite s' dir name
        × (holds s' (joined dir name) ≡ holds s (joined dir name))
  pub appended :
      (s : S) (dir name : Bytes)
      → IsName name
      → MayWrite s dir name
      → (s' : S) × (n : ℕ) × (fs.open_path s (joined dir name) Mode.append_mode ≡ (s', pos n))
        × (holds s' (joined dir name) ≡ some (or_empty (holds s (joined dir name))))
  pub truncated :
      (s : S) (dir name : Bytes)
      → IsName name
      → MayWrite s dir name
      → (s' : S) × (n : ℕ) × (fs.open_path s (joined dir name) Mode.trunc_mode ≡ (s', pos n))
        × (holds s' (joined dir name) ≡ some [])

module _ (os : System) where
  -- The calls of `append`, each with its bytes and its `flush`.
  unfoldable pub append_all : Writer → List (Bytes × Bool) → Option Writer
  append_all w [] = some w
  append_all w ((bytes, flush) ∷ calls) = append os w bytes flush >>= λ w'. append_all w' calls

abbrev pub bytes_of : List (Bytes × Bool) → Bytes
bytes_of [] = []
bytes_of ((bytes, flush) ∷ calls) = bytes ++ bytes_of calls

module _ (os : System) (all : WritesAll os) where
  append_all_lem :
      (calls : List (Bytes × Bool)) (w : Writer)
      → IsValid w
      → (w' : Writer) × (append_all os w calls ≡ some w')
        × (contents w' ≡ contents w ++ bytes_of calls)
        × IsValid w'
  unfolding append_all
  append_all_lem [] w v = (w, refl, sym (append-nil _), v)
  append_all_lem ((bytes, flush) ∷ calls) w v =
      let (w1, run1, holds1, v1, _) = append_lem os all w bytes flush v in
      let (w2, run2, holds2, v2) = append_all_lem calls w1 v1 in
      (
        w2,
        rw run1 run2,
        holds2 ∙ ap (λ c. c ++ bytes_of calls) holds1 ∙ append_assoc (contents w) bytes _,
        v2,
      )

  closed :
      (calls : List (Bytes × Bool)) (w : Writer)
      → IsValid w
      → (w' : Writer) × ((append_all os w calls >>= λ w1. sync os w1) ≡ some w')
        × (w'.file ≡ contents w ++ bytes_of calls)
        × (w'.buffer ≡ [])
  unfolding sync
  closed calls w v =
      let (w1, run1, holds1, v1) = append_all_lem calls w v in
      let (w2, run2, holds2, empty) = flush_lem os all w1 v1 in
      (w2, rw run1 run2, holds2 ∙ holds1, empty)

module _ {S : Type 0} (fs : FileSystem S) (holds : S → Bytes → Option Bytes)
    (MayMake : S → Bytes → Type 0) (MayWrite : S → Bytes → Bytes → Type 0)
    (laws : IsFileSystem fs holds MayMake MayWrite) where
  opened_at :
      (s : S) (dir name : Bytes)
      → IsName name
      → MayWrite s dir name
      → (appending : Bool)
      → (s' : S) × (n : ℕ) × ((let opened = fs.open_path s (joined dir name) (mode_of appending) in
            if fs.access opened.0 (joined dir name) then some opened else none)
          ≡ some (s', pos n))
        × (holds s' (joined dir name)
            ≡ some (open_writer (or_empty (holds s (joined dir name))) appending).file)
  opened_at s dir name h may true =
      let (s', n, run, now) = laws.appended s dir name h may in
      (s', n, rw (run, laws.present s' (joined dir name) _ now) refl, now)
  opened_at s dir name h may false =
      let (s', n, run, now) = laws.truncated s dir name h may in
      (s', n, rw (run, laws.present s' (joined dir name) _ now) refl, now)

  opened :
      (s : S) (dir name : Bytes)
      → IsName name
      → length dir < 2 ^ 31
      → (fs.access s (joined dir name) ≡ true → MayWrite s dir name)
      → (fs.access s (joined dir name) ≡ false → MayMake s dir)
      → (appending : Bool)
      → (s' : S) × (n : ℕ) × (open_file_writer fs s (joined dir name) appending ≡ some (s', pos n))
        × (holds s' (joined dir name)
            ≡ some (open_writer (or_empty (holds s (joined dir name))) appending).file)
  unfolding open_file_writer
  opened s dir name h small may make appending = elim (Bool-cases (fs.access s (joined dir name))) [
    | inl there ↦
        let (s', n, run, now) = opened_at s dir name h (may there) appending in
        (s', n, rw there run, now)
    | inr absent ↦
        let (s1, made, may', same) = laws.made s dir name (make absent) absent in
        let (s', n, run, now) = opened_at s1 dir name h may' appending in
        (s', n, rw (absent, dir_path_lem dir name h small, made) run, rw (sym same) now)
  ]

  -- On a file system that keeps the laws of POSIX, and where writes take all their bytes: if the
  -- path is a directory of fewer than 2 ^ 31 bytes, a slash and a name without a slash, and the file
  -- may be sync-append_all where it is there, and its directory made where it is not, then the constructor
  -- of FileWriter gets a file descriptor that is not negative, and after any calls of append the
  -- destructor ends with an empty buffer and all the bytes of the calls in the file, in their order,
  -- behind what the file held before when it is opened for appending, and alone when it is not.
  pub sync-append_all :
      (os : System)
      → WritesAll os
      → (s : S) (dir name : Bytes) → IsName name
      → length dir < 2 ^ 31
      → (fs.access s (joined dir name) ≡ true → MayWrite s dir name)
      → (fs.access s (joined dir name) ≡ false → MayMake s dir)
      → (appending : Bool) (calls : List (Bytes × Bool))
      → (s' : S) × (n : ℕ) × (w : Writer) × (open_file_writer fs s (joined dir name) appending
          ≡ some (s', pos n))
        × (holds s' (joined dir name)
            ≡ some (open_writer (or_empty (holds s (joined dir name))) appending).file)
        × ((append_all os (open_writer (or_empty (holds s (joined dir name))) appending) calls
              >>= λ w1. sync os w1)
            ≡ some w)
        × (w.file
            ≡ (if appending then or_empty (holds s (joined dir name)) else []) ++ bytes_of calls)
        × (w.buffer ≡ [])
  sync-append_all os all s dir name h small may make appending calls =
      let (s', n, run, now) = opened s dir name h small may make appending in
      let start = open_writer (or_empty (holds s (joined dir name))) appending in
      let (w, ends, file, empty) = closed os all calls start (record { fits = omega arith }) in
      (s', n, w, run, now, ends, file ∙ ap (λ c. c ++ bytes_of calls) (append-nil _), empty)
