-- ===== src/File/Writing.antt =====
-- What is appended reaches the file in order, whatever the buffer holds.
use tiny_db.Prelude.{
  ℕ, zero, suc, ◌-◌, ◌≤◌, ◌<◌, ◌≡◌, refl, ap, sym, ◌∙◌, Bool, true, false, some, [], ◌∷◌, ◌++◌,
  Bytes, length, take, drop, length-append, length-take, length-drop, take-append-drop, append-nil,
  append_assoc, ltb, ltb→lt, Bool-cases, inl, inr, ◌⊎◌, arith, ◌>>=◌, if◌then◌else◌, min,
}
use tiny_db.File.{
  System, WritesAll, Writer, buffer_size, is_buffer_full, buf_persist, copy_rest, append, flush,
}

length_zero : (bytes : Bytes) → length bytes ≡ 0 → bytes ≡ []
length_zero [] h = refl
length_zero (b ∷ bytes) h = absurd (omega arith)

-- All that was appended: the file and, behind it, the buffer.
abbrev pub contents : Writer → Bytes
contents w = w.file ++ w.buffer

pub record IsValid (w : Writer) : Type 0 where
  pub fits : length w.buffer ≤ buffer_size

module _ (os : System) (all : WritesAll os) where
  pub buf_persist_lem :
      (w : Writer) → buf_persist os w ≡ some (record { buffer = []; file = w.file ++ w.buffer })
  unfolding buf_persist
  buf_persist_lem w = ground (arith, all w.file w.buffer)

  -- One turn of the loop: room is made, and the buffer takes what fits.
  filled : Writer → ℕ → Bytes → Writer
  filled w n bytes = record w { buffer = w.buffer ++ take n bytes }

  contents-filled :
      (w : Writer) (n : ℕ) (bytes : Bytes)
      → contents (filled w n bytes) ++ drop n bytes ≡ contents w ++ bytes
  unfolding filled
  contents-filled w n bytes = simp (append_assoc, take-append-drop)

  room_made :
      (w : Writer)
      → IsValid w
      → (w' : Writer) × ((if is_buffer_full w then buf_persist os w else some w) ≡ some w')
        × (contents w' ≡ contents w)
        × (length w'.buffer < buffer_size)
  room_made w v = elim (Bool-cases (is_buffer_full w)) [
    | inl full ↦ (
      record { buffer = []; file = w.file ++ w.buffer },
      rw (full, buf_persist_lem),
      append-nil _,
      omega arith,
    )
    | inr room ↦ (w, rw room, refl, ground (arith, v.fits))
  ]

  copy_rest_lem :
      (f : ℕ) (bytes : Bytes) (w : Writer)
      → IsValid w
      → length bytes < f
      → (w' : Writer) × (copy_rest os f bytes w ≡ some w')
        × (contents w' ≡ contents w ++ bytes)
        × IsValid w'
  unfolding copy_rest filled
  copy_rest_lem zero bytes w v h = absurd (omega arith)
  copy_rest_lem (suc f) [] w v h = (w, refl, sym (append-nil _), v)
  copy_rest_lem (suc f) (b ∷ bytes) w v h =
      let (w1, made, same, room) = room_made w v in
      let n = min (length (b ∷ bytes)) (buffer_size - length w1.buffer) in
      let (w2, run, holds, v2) =
        copy_rest_lem f (drop n (b ∷ bytes)) (filled w1 n (b ∷ bytes))
          (record {
            fits =
                omega
                  (arith, length-append w1.buffer (take n (b ∷ bytes)), length-take n (b ∷ bytes));
          })
          (omega (arith, length-drop n (b ∷ bytes))) in
      (
        w2,
        rw made run,
        holds ∙ contents-filled w1 n (b ∷ bytes) ∙ ap (λ c. c ++ (b ∷ bytes)) same,
        v2,
      )

  overflow_lem :
      (w : Writer) (bytes : Bytes) (r : ℕ)
      → r ≤ buffer_size
      → (w' : Writer) × ((buf_persist os (filled w r bytes) >>= λ w1.
            copy_rest os (suc (length bytes)) (drop r bytes) w1)
          ≡ some w')
        × (contents w' ≡ contents w ++ bytes)
        × IsValid w'
  overflow_lem w bytes r h =
      let (w', run, holds, v) =
        copy_rest_lem (suc (length bytes)) (drop r bytes)
          (record { buffer = []; file = contents (filled w r bytes) }) (omega arith)
          (omega (arith, length-drop r bytes)) in
      (
        w',
        rw buf_persist_lem (unfold filled in run),
        holds ∙ ap (λ c. c ++ drop r bytes) (append-nil _) ∙ contents-filled w r bytes,
        v,
      )

  -- The bytes are in the buffer or the file, before any flush.
  taken_in :
      (w : Writer) (bytes : Bytes)
      → IsValid w
      → (w' : Writer) × ((if ltb (length bytes) (buffer_size - length w.buffer)
            then some (record w { buffer = w.buffer ++ bytes })
            else (buf_persist os (filled w (buffer_size - length w.buffer) bytes) >>= λ w1.
                copy_rest os (suc (length bytes)) (drop (buffer_size - length w.buffer) bytes) w1))
          ≡ some w')
        × (contents w' ≡ contents w ++ bytes)
        × IsValid w'
  taken_in w bytes v = elim (Bool-cases (ltb (length bytes) (buffer_size - length w.buffer))) [
    | inl short ↦ (
      record w { buffer = w.buffer ++ bytes },
      rw short,
      sym (append_assoc w.file w.buffer bytes),
      record { fits = omega (arith, ltb→lt _ _ short, length-append w.buffer bytes) },
    )
    | inr long ↦
        let (w', run, holds, v') =
          overflow_lem w bytes (buffer_size - length w.buffer) (omega arith) in
        (w', rw long run, holds, v')
  ]

  flushed :
      (w : Writer) (flush : Bool)
      → IsValid w
      → (w' : Writer) × ((if flush then buf_persist os w else some w) ≡ some w')
        × (contents w' ≡ contents w)
        × IsValid w'
        × ((flush ≡ false) ⊎ (w'.buffer ≡ []))
  flushed w true v = (
    record { buffer = []; file = w.file ++ w.buffer },
    buf_persist_lem w,
    append-nil _,
    omega arith,
    inr refl,
  )
  flushed w false v = (w, refl, refl, v, inl refl)

  -- From a buffer that is not over-full, where every write of the system takes all of its bytes,
  -- `append` ends, fails no assertion, puts the bytes behind all that was appended before, and leaves
  -- a buffer that is not over-full. With `flush` nothing stays in the buffer, unless there was
  -- nothing to append.
  pub append_lem :
      (w : Writer) (bytes : Bytes) (flush : Bool)
      → IsValid w
      → (w' : Writer) × (append os w bytes flush ≡ some w')
        × (contents w' ≡ contents w ++ bytes)
        × IsValid w'
        × ((flush ≡ false) ⊎ ((bytes ≡ []) ⊎ (w'.buffer ≡ [])))
  unfolding append filled
  append_lem w [] flush v = (w, refl, sym (append-nil _), v, inr (inl refl))
  append_lem w (b ∷ bytes) flush v =
      let (w1, run1, holds1, v1) = taken_in w (b ∷ bytes) v in
      let (w2, run2, holds2, v2, empty) = flushed w1 flush v1 in
      (w2, rw (run1, run2), holds2 ∙ holds1, v2, elim empty [ inl e ↦ inl e | inr e ↦ inr (inr e) ])

  -- On a system whose writes take all their bytes, and with a buffer that is not over-full:
  -- `flush` ends, fails no assertion, and afterwards the file holds all that was appended and the
  -- buffer nothing.
  pub flush_lem :
      (w : Writer)
      → IsValid w
      → (w' : Writer) × (flush os w ≡ some w') × (w'.file ≡ contents w) × (w'.buffer ≡ [])
  unfolding flush
  flush_lem w v = elim (Bool-cases (ltb 0 (length w.buffer))) [
    | inl some_left ↦ (
      record { buffer = []; file = w.file ++ w.buffer },
      rw (some_left, buf_persist_lem),
      refl,
      refl,
    )
    | inr none_left ↦
        let empty = length_zero w.buffer (ground arith) in
        (w, rw none_left, rw empty (sym (append-nil _)), empty)
  ]
