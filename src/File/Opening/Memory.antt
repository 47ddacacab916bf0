-- ===== src/File/Opening/Memory.antt =====
-- A concrete file system in memory, at which the constructors are tried.
use tiny_db.Prelude.{
  ℕ, ◌^◌, ◌<◌, ◌≡◌, refl, ap, Bool, true, false, ◌||◌, Option, none, some, is_some, [], ◌∷◌, Bytes,
  length, length-append, Bool-cases, inl, inr, arith, if◌then◌else◌,
}
use tiny_db.Prelude.Int.{pos, negsuc}
use tiny_db.Order.ByteString.{bytes_same, same→eq, eq→same}
use tiny_db.File.Path.{slash, IsName, dir_path, dir_path_lem}
use tiny_db.File.Opening.{FileSystem, Mode}
use tiny_db.File.Opening.Contents.{IsFileSystem, or_empty, joined}

-- Which paths are directories, and what the files hold.
pub record Memory : Type 0 where
  pub dirs : Bytes → Bool
  pub files : Bytes → Option Bytes

unfoldable pub update : {A : Type 0} → (Bytes → A) → Bytes → A → Bytes → A
update f path a other = if bytes_same path other then a else f other

abbrev pub opened_as : Mode → Option Bytes → Option Bytes
opened_as Mode.append_mode old = some (or_empty old)
opened_as Mode.trunc_mode old = some []
opened_as Mode.read_mode old = old

-- A file is opened, and made, in a directory that is there, unless it is a directory itself.
abbrev pub memory : FileSystem Memory
memory = record {
  access = λ s path. s.dirs path || is_some (s.files path);
  create_directories = λ s dir.
      if is_some (s.files dir) then none else some (record s { dirs = update s.dirs dir true });
  open_path = λ s path mode. elim (s.dirs path) [
    | true ↦ (s, negsuc 0)
    | false ↦ elim (s.dirs (dir_path path)) [
      | true ↦ (record s { files = update s.files path (opened_as mode (s.files path)) }, pos 3)
      | false ↦ (s, negsuc 0)
    ]
  ];
}

abbrev pub MayMake : Memory → Bytes → Type 0
MayMake s dir = (s.files dir ≡ none) × (length dir < 2 ^ 31)

abbrev pub MayWrite : Memory → Bytes → Bytes → Type 0
MayWrite s dir name =
    (s.dirs dir ≡ true) × (s.dirs (joined dir name) ≡ false) × (length dir < 2 ^ 31)

updated : {A : Type 0} (f : Bytes → A) (path : Bytes) (a : A) → update f path a path ≡ a
unfolding update
updated f path a = rw (eq→same path path refl) refl

-- A directory is not a file of its own.
apart : (dir name : Bytes) → bytes_same dir (joined dir name) ≡ false
apart dir name = elim (Bool-cases (bytes_same dir (joined dir name))) [
  | inr differs ↦ differs
  | inl same ↦ absurd (
      omega
        (arith, ap length (same→eq dir (joined dir name) same), length-append dir (slash ∷ name)))
]

write_opened :
    (s : Memory) (dir name : Bytes) (mode : Mode)
    → IsName name
    → MayWrite s dir name
    → (s' : Memory) × (n : ℕ) × (memory.open_path s (joined dir name) mode ≡ (s', pos n))
      × (s'.files (joined dir name) ≡ opened_as mode (s.files (joined dir name)))
write_opened s dir name mode h (there, file, small) = (
  record s {
    files = update s.files (joined dir name) (opened_as mode (s.files (joined dir name)));
  },
  3,
  rw (file, dir_path_lem dir name h small, there) refl,
  updated s.files (joined dir name) _,
)

pub memory-IsFileSystem : IsFileSystem memory (λ s. s.files) MayMake MayWrite
unfolding update
memory-IsFileSystem = record {
  absent = λ s path h. ground arith;
  present = λ s path bytes h. ground arith;
  made = λ s dir name may h. (
    record s { dirs = update s.dirs dir true },
    rw may.0 refl,
    (updated s.dirs dir true, rw (update, apart dir name) (ground arith), may.1),
    refl,
  );
  appended = λ s dir name. write_opened s dir name Mode.append_mode;
  truncated = λ s dir name. write_opened s dir name Mode.trunc_mode;
}
