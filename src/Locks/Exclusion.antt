-- ===== src/Locks/Exclusion.antt =====
-- At most one thread holds a lock of src/utils/lock.h, and it is never lost.
use tiny_db.Prelude.{
  ℕ, ◌≡◌, ◌≢◌, refl, sym, ap, ◌∙◌, Bool, true, false, ◌⊎◌, inl, inr, Bool-cases, arith, not,
}
use tiny_db.Locks.{
  LockType, spin_lock, Pc, System, init, update, acquire, construct, lock, unlock, destroy,
  has_guard, is_holding, Step, Reach,
}

-- What a lock promises: it is taken exactly if it was free, and is free again when it was released.
pub record IsExcluding {L : Type 0} (l : LockType L) : Type 0 where
  pub is_free : L → Bool
  pub at_first : is_free l.begin ≡ true
  pub taken_free : (s : L) → (l.attempt s).0 ≡ is_free s
  pub not_free : (s : L) → is_free (l.attempt s).1 ≡ false
  pub freed : (s : L) → is_free (l.release s) ≡ true

-- `SpinLock` keeps the promise.
abbrev pub spin_lock-IsExcluding : IsExcluding spin_lock
spin_lock-IsExcluding = record {
  is_free = not;
  at_first = refl;
  taken_free = λ s. refl;
  not_free = λ s. refl;
  freed = λ s. refl;
}

-- The lock is free exactly while no thread holds it, and it is held by one thread.
pub record IsExclusive (free_now : Bool) (pc : ℕ → Pc) : Type 0 where
  pub free : free_now ≡ true → (i : ℕ) → is_holding (pc i) ≡ false
  pub one : (i j : ℕ) → is_holding (pc i) ≡ true → is_holding (pc j) ≡ true → i ≡ j
  pub taken : free_now ≡ false → (i : ℕ) × (is_holding (pc i) ≡ true)

pub update_self {ℓ} : {A : Type ℓ} (f : ℕ → A) (i : ℕ) (a : A) → update f i a i ≡ a
update_self f i a = ground arith

pub update_other {ℓ} : {A : Type ℓ} (f : ℕ → A) (i j : ℕ) (a : A) → i ≢ j → update f i a j ≡ f j
update_other f i j a h = ground arith

-- A thread takes the lock that nobody holds.
IsExclusive-claim :
    (pc : ℕ → Pc) (i : ℕ)
    → ((j : ℕ) → is_holding (pc j) ≡ false)
    → IsExclusive false (update pc i Pc.holding)
IsExclusive-claim pc i h = record {
  free = λ e. absurd (cc);
  one = λ a b ha hb. only a ha ∙ sym (only b hb);
  taken = λ e. (i, ap is_holding (update_self pc i Pc.holding));
}
  where
    only : (a : ℕ) → is_holding (update pc i Pc.holding a) ≡ true → a ≡ i
    only a ha = ground (arith, h a)

-- The thread that holds the lock gives it up.
IsExclusive-release :
    {free_now : Bool} (pc : ℕ → Pc) (i : ℕ) (p : Pc)
    → IsExclusive free_now pc
    → is_holding (pc i) ≡ true
    → is_holding p ≡ false
    → IsExclusive true (update pc i p)
IsExclusive-release {free_now} pc i p h held quiet = record {
  free = λ e j. nobody j;
  one = λ a b ha hb. absurd (cc (nobody a));
  taken = λ e. absurd (cc);
}
  where
    nobody : (j : ℕ) → is_holding (update pc i p j) ≡ false
    nobody j = elim (Bool-cases (is_holding (pc j))) [
      | inl e ↦ ground (arith, h.one i j held e)
      | inr e ↦ ground arith
    ]

-- A thread that does not hold the lock moves on.
IsExclusive-move :
    {free_now : Bool} (pc : ℕ → Pc) (i : ℕ) (p : Pc)
    → IsExclusive free_now pc
    → is_holding (pc i) ≡ false
    → is_holding p ≡ false
    → IsExclusive free_now (update pc i p)
IsExclusive-move {free_now} pc i p h before after = record {
  free = λ e j. same j ∙ h.free e j;
  one = λ a b ha hb. h.one a b (sym (same a) ∙ ha) (sym (same b) ∙ hb);
  taken = λ e. let (j, held) = h.taken e in (j, same j ∙ held);
}
  where
    same : (j : ℕ) → is_holding (update pc i p j) ≡ is_holding (pc j)
    same j = ground arith

guard-cases : (p : Pc) → has_guard p ≡ true → (p ≡ Pc.holding) ⊎ (p ≡ Pc.released)
guard-cases Pc.outside h = absurd (cc)
guard-cases Pc.waiting h = absurd (cc)
guard-cases Pc.holding h = inl refl
guard-cases Pc.released h = inr refl

module _ {L : Type 0} (l : LockType L) (x : IsExcluding l) where
  abbrev pub IsSafe : System L → Type 0
  IsSafe s = IsExclusive (x.is_free s.state) s.pc

  acquire-IsSafe : (i : ℕ) (s : System L) → IsSafe s → IsSafe (acquire l i s)
  unfolding acquire
  acquire-IsSafe i s h = elim (Bool-cases (x.is_free s.state)) [
    | inr set ↦
        rw (x.taken_free s.state, set, x.not_free s.state)
          (record { free = λ f. absurd (cc f); one = h.one; taken = λ f. h.taken set })
    | inl clear ↦
        rw (x.taken_free s.state, clear, x.not_free s.state)
          (IsExclusive-claim s.pc i (h.free clear))
  ]

  pub unlock_holding :
      (i : ℕ) (s : System L)
      → s.pc i ≡ Pc.holding
      → unlock l i s ≡ record { state = l.release s.state; pc = update s.pc i Pc.released }
  unfolding unlock
  unlock_holding i s e = rw (e, unlock) refl

  unlock_released : (i : ℕ) (s : System L) → s.pc i ≡ Pc.released → unlock l i s ≡ s
  unfolding unlock
  unlock_released i s e = rw (e, unlock) refl

  unlock-IsSafe :
      (i : ℕ) (s : System L)
      → IsSafe s
      → has_guard (s.pc i) ≡ true
      → IsSafe (unlock l i s) × (is_holding ((unlock l i s).pc i) ≡ false)
  unlock-IsSafe i s h g = elim (guard-cases (s.pc i) g) [
    | inl e ↦
        rw (unlock_holding i s e, x.freed s.state)
          (
            IsExclusive-release s.pc i Pc.released h (ap is_holding e) refl,
            ap is_holding (update_self s.pc i Pc.released),
          )
    | inr e ↦ rw (unlock_released i s e) (h, ap is_holding e)
  ]

  lock_holding : (i : ℕ) (s : System L) → s.pc i ≡ Pc.holding → lock l i s ≡ s
  unfolding lock
  lock_holding i s e = rw (e, lock) refl

  lock_released :
      (i : ℕ) (s : System L)
      → s.pc i ≡ Pc.released
      → lock l i s ≡ record s { pc = update s.pc i Pc.waiting }
  unfolding lock
  lock_released i s e = rw (e, lock) refl

  lock-IsSafe : (i : ℕ) (s : System L) → IsSafe s → has_guard (s.pc i) ≡ true → IsSafe (lock l i s)
  lock-IsSafe i s h g = elim (guard-cases (s.pc i) g) [
    | inl e ↦ rw (lock_holding i s e) h
    | inr e ↦ rw (lock_released i s e) (IsExclusive-move s.pc i Pc.waiting h (ap is_holding e) refl)
  ]

  pub Step-IsSafe : {s t : System L} → IsSafe s → Step l s t → IsSafe t
  unfolding construct destroy
  Step-IsSafe {s} h (Step.begin_guard i e) =
      IsExclusive-move s.pc i Pc.waiting h (ap is_holding e) refl
  Step-IsSafe {s} h (Step.try_lock i e) = acquire-IsSafe i s h
  Step-IsSafe {s} h (Step.lock_guard i g) = lock-IsSafe i s h g
  Step-IsSafe {s} h (Step.unlock_guard i g) = (unlock-IsSafe i s h g).0
  Step-IsSafe {s} h (Step.end_guard i g) =
      IsExclusive-move (unlock l i s).pc i Pc.outside (unlock-IsSafe i s h g).0
        (unlock-IsSafe i s h g).1 refl

  init-IsSafe : IsSafe (init l)
  init-IsSafe = record {
    free = λ e i. refl;
    one = λ i j a b. absurd (cc a);
    taken = λ e. absurd (cc (e, x.at_first));
  }

  -- For a lock that is taken exactly if it was free, as a SpinLock is, and free when it was released: in
  -- every state that threads reach by constructing guards, by tries of taking the lock, and by locking,
  -- unlocking and destroying guards, in any order, the lock is free exactly while no thread has a guard
  -- that is locked, and no two threads have one.
  pub Reach-IsSafe : {s : System L} → Reach l s → IsSafe s
  Reach-IsSafe Reach.start = init-IsSafe
  Reach-IsSafe (Reach.later r step) = Step-IsSafe (Reach-IsSafe r) step

  acquire_free :
      (i : ℕ) (s : System L) → x.is_free s.state ≡ true → (acquire l i s).pc i ≡ Pc.holding
  unfolding acquire
  acquire_free i s clear = rw (x.taken_free s.state, clear) (update_self s.pc i Pc.holding)

  -- For such a lock, a thread that tries to take it is not stuck for good: in every state that is
  -- reached, either its next try takes it, or another thread holds it, and once that thread's guard is
  -- unlocked, the next try takes it.
  pub waiting_lem :
      {s : System L}
      → Reach l s
      → (i : ℕ) → s.pc i ≡ Pc.waiting
      → ((acquire l i s).pc i ≡ Pc.holding)
        ⊎ ((j : ℕ) × (j ≢ i)
            × (s.pc j ≡ Pc.holding)
            × ((acquire l i (unlock l j s)).pc i ≡ Pc.holding))
  waiting_lem {s} r i e = elim (Bool-cases (x.is_free s.state)) [
    | inl clear ↦ inl (acquire_free i s clear)
    | inr set ↦
        let (j, held) = (Reach-IsSafe r).taken set in
        let there : s.pc j ≡ Pc.holding = holds (s.pc j) held in
        let other : j ≢ i = λ same. quiet e (ap s.pc (sym same) ∙ there) in
        inr (
          j,
          other,
          there,
          rw (unlock_holding j s there) (
              acquire_free i (record { state = l.release s.state; pc = update s.pc j Pc.released })
                (x.freed s.state)),
        )
  ]
    where
      quiet : {p : Pc} → p ≡ Pc.waiting → p ≡ Pc.holding → ⊥
      quiet a b = cc

      holds : (p : Pc) → is_holding p ≡ true → p ≡ Pc.holding
      holds Pc.outside h = absurd (cc h)
      holds Pc.waiting h = absurd (cc h)
      holds Pc.holding h = refl
      holds Pc.released h = absurd (cc h)
