-- ===== src/Locks/Serial.antt =====
-- Calls under a `ScopedLock` of src/utils/lock.h, each of many small steps: they run one after
-- the other.
use tiny_db.Prelude.{ℕ, ◌≡◌, refl, sym, ap, ◌∙◌, true, false, List, [], ◌∷◌, arith}
use tiny_db.Locks
use tiny_db.Locks.{
  LockType, Pc, System, init, update, acquire, construct, unlock, destroy, is_holding, has_guard,
  Reach,
}
use tiny_db.Locks.Exclusion.{
  IsExcluding, IsSafe, Reach-IsSafe, Step-IsSafe, update_self, unlock_holding,
}

-- The small steps, the first one first.
abbrev pub run : {S : Type 0} → List (S → S) → S → S
run [] s = s
run (m ∷ ms) s = run ms (m s)

-- The shared state, behind the lock; the call that each thread makes, and what is left of it. `calls`
-- are those that have taken the lock, the last one first.
pub record Shared (L S C : Type 0) : Type 0 where
  pub lock : System L
  pub value : S
  pub wanted : ℕ → C
  pub todo : ℕ → List (S → S)
  pub calls : List C

module _ {S C : Type 0} (steps : C → List (S → S)) where
  -- The calls one after the other.
  abbrev pub serial : List C → S → S
  serial [] s = s
  serial (c ∷ cs) s = run (steps c) (serial cs s)

module _ {L S C : Type 0} (l : LockType L) (steps : C → List (S → S)) where
  -- A thread constructs the guard of a call; it goes round the loop of the spin lock in vain, or with
  -- success; it does one small step of the call; and it destroys the guard, when none is left.
  pub data Step (s : Shared L S C) : Shared L S C → Type 0 where
    call :
        (i : ℕ) (c : C)
        → s.lock.pc i ≡ Pc.outside
        → Step s (record s { lock = construct l i s.lock; wanted = update s.wanted i c })
    wait :
        (i : ℕ)
        → s.lock.pc i ≡ Pc.waiting
        → (l.attempt s.lock.state).0 ≡ false
        → Step s (record s { lock = acquire l i s.lock })
    take :
        (i : ℕ)
        → s.lock.pc i ≡ Pc.waiting
        → (l.attempt s.lock.state).0 ≡ true
        → Step s (record s {
          lock = acquire l i s.lock;
          todo = update s.todo i (steps (s.wanted i));
          calls = s.wanted i ∷ s.calls;
        })
    access :
        (i : ℕ) (m : S → S) (ms : List (S → S))
        → s.lock.pc i ≡ Pc.holding
        → s.todo i ≡ m ∷ ms
        → Step s (record s { value = m s.value; todo = update s.todo i ms })
    leave :
        (i : ℕ)
        → s.lock.pc i ≡ Pc.holding
        → s.todo i ≡ []
        → Step s (record s { lock = destroy l i s.lock })

  pub data Runs (v : S) : Shared L S C → Type 0 where
    start :
        (wanted : ℕ → C) (todo : ℕ → List (S → S))
        → Runs v (record { lock = init l; value = v; wanted = wanted; todo = todo; calls = [] })
    later : {s t : Shared L S C} → Runs v s → Step s t → Runs v t

module _ {L S C : Type 0} (l : LockType L) (x : IsExcluding l) (steps : C → List (S → S)) where
  Runs-Reach : {v : S} {s : Shared L S C} → Runs l steps v s → Reach l s.lock
  Runs-Reach (Runs.start wanted todo) = Reach.start
  Runs-Reach (Runs.later r (Step.call i c e)) =
      Reach.later (Runs-Reach r) (Locks.Step.begin_guard i e)
  Runs-Reach (Runs.later r (Step.wait i e f)) = Reach.later (Runs-Reach r) (Locks.Step.try_lock i e)
  Runs-Reach (Runs.later r (Step.take i e f)) = Reach.later (Runs-Reach r) (Locks.Step.try_lock i e)
  Runs-Reach (Runs.later r (Step.access i m ms e f)) = Runs-Reach r
  Runs-Reach (Runs.later r (Step.leave i e f)) =
      Reach.later (Runs-Reach r) (Locks.Step.end_guard i (ap has_guard e))

  -- The value is that of the calls, but for the rest of the one that holds the lock.
  pub record IsSerial (v : S) (s : Shared L S C) : Type 0 where
    pub rest :
        (i : ℕ) → is_holding (s.lock.pc i) ≡ true → run (s.todo i) s.value ≡ serial steps s.calls v
    pub free : x.is_free s.lock.state ≡ true → s.value ≡ serial steps s.calls v

  still_holding :
      (pc : ℕ → Pc) (i j : ℕ) (p : Pc)
      → is_holding p ≡ false
      → is_holding (update pc i p j) ≡ true
      → is_holding (pc j) ≡ true
  still_holding pc i j p quiet held = ground arith

  take-IsSerial :
      {v : S} {s : Shared L S C} (i : ℕ)
      → IsSafe l x s.lock
      → IsSerial v s
      → x.is_free s.lock.state ≡ true
      → (j : ℕ) → is_holding ((acquire l i s.lock).pc j) ≡ true
      → run (update s.todo i (steps (s.wanted i)) j) s.value ≡ serial steps (s.wanted i ∷ s.calls) v
  unfolding acquire
  take-IsSerial {v} {s} i safe h f j held =
      rw (sym (only held), update_self s.todo i (steps (s.wanted i)))
        (ap (run (steps (s.wanted i))) (h.free f))
    where
      only : is_holding ((acquire l i s.lock).pc j) ≡ true → i ≡ j
      only held = ground (arith, safe.free f j)

  access-IsSerial :
      {v : S} {s : Shared L S C} (i : ℕ) (m : S → S) (ms : List (S → S))
      → IsSafe l x s.lock
      → IsSerial v s
      → s.lock.pc i ≡ Pc.holding
      → s.todo i ≡ m ∷ ms
      → (j : ℕ) → is_holding (s.lock.pc j) ≡ true
      → run (update s.todo i ms j) (m s.value) ≡ serial steps s.calls v
  access-IsSerial {v} {s} i m ms safe h e f j held =
      rw (sym (safe.one i j (ap is_holding e) held), update_self s.todo i ms)
        (sym (ap (λ l. run l s.value) f) ∙ h.rest i (ap is_holding e))

  leave-IsSerial :
      {v : S} {s : Shared L S C} (i : ℕ)
      → IsSafe l x s.lock
      → IsSerial v s
      → s.lock.pc i ≡ Pc.holding
      → s.todo i ≡ []
      → IsSerial v (record s { lock = destroy l i s.lock })
  unfolding destroy
  leave-IsSerial {v} {s} i safe h e f = record {
    rest = λ j held. absurd (cc (left.free clear j, held));
    free = λ g. sym (ap (λ l. run l s.value) f) ∙ h.rest i (ap is_holding e);
  }
    where
      left : IsSafe l x (destroy l i s.lock)
      left = Step-IsSafe l x safe (Locks.Step.end_guard i (ap has_guard e))

      clear : x.is_free (destroy l i s.lock).state ≡ true
      clear = ap (λ t. x.is_free t.state) (unlock_holding l x i s.lock e) ∙ x.freed s.lock.state

  Step-IsSerial :
      {v : S} {s t : Shared L S C}
      → IsSafe l x s.lock
      → IsSerial v s
      → Step l steps s t
      → IsSerial v t
  unfolding acquire construct
  Step-IsSerial {v} {s} safe h (Step.call i c e) = record {
    rest = λ j held. h.rest j (still_holding s.lock.pc i j Pc.waiting refl held);
    free = h.free;
  }
  Step-IsSerial {v} {s} safe h (Step.wait i e f) = record {
    rest = λ j held. h.rest j (ground (arith, x.taken_free s.lock.state));
    free = λ g. absurd (cc (g, x.not_free s.lock.state));
  }
  Step-IsSerial {v} {s} safe h (Step.take i e f) = record {
    rest = take-IsSerial i safe h (sym (x.taken_free s.lock.state) ∙ f);
    free = λ g. absurd (cc (g, x.not_free s.lock.state));
  }
  Step-IsSerial {v} {s} safe h (Step.access i m ms e f) = record {
    rest = access-IsSerial i m ms safe h e f;
    free = λ g. absurd (cc (safe.free g i, ap is_holding e));
  }
  Step-IsSerial {v} {s} safe h (Step.leave i e f) = leave-IsSerial i safe h e f

  pub Runs-IsSerial : {v : S} {s : Shared L S C} → Runs l steps v s → IsSerial v s
  Runs-IsSerial (Runs.start wanted todo) = record {
    rest = λ i held. absurd (cc held);
    free = λ e. refl;
  }
  Runs-IsSerial (Runs.later r step) =
      Step-IsSerial (Reach-IsSafe l x (Runs-Reach r)) (Runs-IsSerial r) step
