-- ===== src/Db/Logged.antt =====
-- What `Put` and `Delete` of src/db/db_impl.cpp write to the log.
use tiny_db.Prelude.{
  ℕ, zero, suc, ◌-◌, ◌/◌, ◌^◌, ◌<◌, ◌≡◌, refl, ap, ◌∙◌, Option, none, some, [], ◌∷◌, ◌++◌, Bytes,
  length, lt→ltb, bit_and, ◌>>=◌, arith,
}
use tiny_db.Prelude.Bits.{and_byte}
use tiny_db.Codec.{encode_fixed32}
use tiny_db.File.{System, WritesAll, Writer}
use tiny_db.File.Writing.{contents, IsValid}
use tiny_db.Wal.{Checksum}
use tiny_db.Wal.Records.{log_record, add_log_lem}
use tiny_db.Db.{Db, encode_kv, string_in, log_kv}

cut : (n : ℕ) (rest : Bytes) → 0 < n → string_in (n ∷ 0 ∷ rest) ≡ some (n ∷ [])
unfolding string_in
cut zero rest h = absurd (omega arith)
cut (suc n) rest h = refl

cut_zero : (rest : Bytes) → string_in (0 ∷ rest) ≡ some []
unfolding string_in
cut_zero rest = refl

-- What of a record reaches the log.
abbrev pub logged : Bytes → Bytes
logged [] = []
logged (b ∷ key) = length (b ∷ key) ∷ []

pub length-logged : (key : Bytes) → length (logged key) < 2 ^ 31
length-logged [] = omega arith
length-logged (b ∷ key) = omega arith

logged_some : (key : Bytes) → 0 < length key → logged key ≡ length key ∷ []
logged_some [] h = absurd (omega arith)
logged_some (b ∷ key) h = refl

-- Of the record of a key of at most 255 bytes and a value of fewer than 2 ^ 32 - 1 bytes, the string
-- view that the log gets has no more than the length of the key, and nothing if that is 0.
string_in-encode_kv :
    (key value : Bytes)
    → length key < 256
    → length value < 2 ^ 32 - 1
    → (encode_kv key value >>= λ buf. string_in buf) ≡ some (logged key)
unfolding encode_kv encode_fixed32
string_in-encode_kv [] value short fits = rw (lt→ltb _ _ fits) (cut_zero _)
string_in-encode_kv (b ∷ rest) value short fits =
    let key : Bytes = b ∷ rest in
    let low : bit_and (length key / 1) 255 ≡ length key =
      omega (arith, and_byte (length key / 1)) in
    let next : bit_and (length key / 256) 255 ≡ 0 = omega (arith, and_byte (length key / 256)) in
    rw (lt→ltb _ _ fits, low, next) (cut (length key) _ (omega arith))

bind_split {ℓ κ μ} :
    {A : Type ℓ} {B : Type κ} {C : Type μ} (x : Option A) (f : A → Option B) (g : B → Option C)
    (b : B)
    → (x >>= f) ≡ some b
    → (x >>= λ a. f a >>= g) ≡ g b
bind_split none f g b e = cc
bind_split (some a) f g b e = rw e

module _ {F : Type 0} (os : System) (all : WritesAll os) (crc : Checksum) where
  pub log_kv_runs :
      (key value : Bytes) (d : Db F)
      → length key < 256
      → length value < 2 ^ 32 - 1
      → IsValid d.wal
      → (w : Writer) × (log_kv os crc key value d ≡ some (record d { wal = w }))
        × (w.file ≡ contents d.wal ++ log_record crc (logged key))
        × IsValid w
        × (w.buffer ≡ [])
  unfolding log_kv
  log_kv_runs key value d short fits v =
      let (w, run, holds, empty) =
        add_log_lem os all crc d.wal (logged key) v (length-logged key) in
      (
        w,
        bind_split (encode_kv key value) string_in _ (logged key)
              (string_in-encode_kv key value short fits)
            ∙ rw run,
        holds,
        record { fits = omega (arith, ap length empty) },
        empty,
      )

  -- On a system whose writes take all bytes, and with a log buffer that is not over-full: logging a key
  -- of 1 to 255 bytes, with a value of fewer than 2 ^ 32 - 1 bytes, does not fault, and what reaches the
  -- log is one record, of one byte: the length of the key. Neither key nor value is logged.
  pub log_kv_lem :
      (key value : Bytes) (d : Db F)
      → 0 < length key
      → length key < 256
      → length value < 2 ^ 32 - 1
      → IsValid d.wal
      → (w : Writer) × (log_kv os crc key value d ≡ some (record d { wal = w }))
        × (w.file ≡ contents d.wal ++ log_record crc (length key ∷ []))
  log_kv_lem key value d some_key short fits v =
      let (w, run, holds, valid, empty) = log_kv_runs key value d short fits v in
      (w, run, holds ∙ ap (λ x. contents d.wal ++ log_record crc x) (logged_some key some_key))
