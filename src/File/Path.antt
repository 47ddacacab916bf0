-- ===== src/File/Path.antt =====
-- The directory of a path, as the constructor of src/file/file_writer.cpp takes it.
use tiny_db.Prelude.{
  ℕ, suc, ◌%◌, ◌^◌, ◌<◌, ◌≡◌, ◌≢◌, refl, [], ◌∷◌, ◌++◌, Bytes, All, length, take, take-append, ltb,
  ◌==◌, arith, Option, none, some, if◌then◌else◌,
}

-- `std::string::rfind(c)`, with `none` for `npos`.
unfoldable pub rfind : ℕ → Bytes → Option ℕ
rfind c [] = none
rfind c (b ∷ text) = elim (rfind c text) [
  | some i ↦ some (suc i)
  | none ↦ if b == c then some 0 else none
]

abbrev pub slash : ℕ
slash = 47

-- `file_path.substr(0, idx)` with `int idx = (int)file_path.rfind('/')`. A place of 2 ^ 31 and more,
-- like `npos`, is a negative `int`, which as a `size_t` is more than any length.
unfoldable pub dir_path : Bytes → Bytes
dir_path path = elim (rfind slash path) [
  | none ↦ path
  | some i ↦ if ltb (i % 2 ^ 32) (2 ^ 31) then take (i % 2 ^ 32) path else path
]

-- A name: it has no slash.
abbrev pub IsName : Bytes → Type 0
IsName name = All (λ b. b ≢ slash) name

rfind_absent : (name : Bytes) → IsName name → rfind slash name ≡ none
unfolding rfind
rfind_absent [] h = refl
rfind_absent (b ∷ name) (other, h) = rw (rfind_absent name h) (ground arith)

rfind_last :
    (dir name : Bytes) → IsName name → rfind slash (dir ++ slash ∷ name) ≡ some (length dir)
unfolding rfind
rfind_last [] name h = rw (rfind_absent name h) refl
rfind_last (b ∷ dir) name h = rw (rfind_last dir name h) refl

pub dir_path_lem :
    (dir name : Bytes) → IsName name → length dir < 2 ^ 31 → dir_path (dir ++ slash ∷ name) ≡ dir
unfolding dir_path
dir_path_lem dir name h small =
    rw (dir_path, rfind_last dir name h)
      (ground (arith, take-append (length dir) dir (slash ∷ name) refl))

-- Without a slash all of the path is taken for the directory.
pub dir_path_bare : (name : Bytes) → IsName name → dir_path name ≡ name
unfolding dir_path
dir_path_bare name h = rw (dir_path, rfind_absent name h) refl
