-- ===== src/Locks.antt =====
-- `ScopedLock` over the locks of src/utils/lock.h: threads that take turns at steps.
pub mod Exclusion
pub mod Serial
pub mod Tests
use tiny_db.Prelude.{ℕ, ◌≡◌, Bool, true, false, not, ◌==◌, if◌then◌else◌}

-- What `ScopedLock<T>` uses of `T`: `attempt` is one try of `lock`, which answers whether the lock was
-- taken, and else is to be tried again.
pub record LockType (L : Type 0) : Type 0 where
  pub begin : L
  pub attempt : L → Bool × L
  pub release : L → L

-- `SpinLock`, whose state is the `std::atomic_flag`: one round of its loop, and `clear`.
abbrev pub spin_lock : LockType Bool
spin_lock = record { begin = false; attempt = λ flag. (not flag, true); release = λ flag. false }

-- `NullLock`
abbrev pub null_lock : LockType Unit
null_lock = record { begin = tt; attempt = λ s. (true, s); release = λ s. s }

-- `MutexLock`, which passes its calls on to a `std::mutex`.
abbrev pub mutex_lock : {L : Type 0} → LockType L → LockType L
mutex_lock mutex = record { begin = mutex.begin; attempt = mutex.attempt; release = mutex.release }

-- Where a thread is: with no guard; in `T::lock`, which the guard's constructor or its `lock` called;
-- with a guard whose `is_locked` is true; with one whose `is_locked` is false.
pub data Pc : Type 0 where
  outside waiting holding released : Pc

-- The lock, and each thread.
pub record System (L : Type 0) : Type 0 where
  pub state : L
  pub pc : ℕ → Pc

abbrev pub update {ℓ} : {A : Type ℓ} → (ℕ → A) → ℕ → A → ℕ → A
update f i a j = if i == j then a else f j

abbrev pub has_guard : Pc → Bool
has_guard Pc.outside = false
has_guard Pc.waiting = false
has_guard Pc.holding = true
has_guard Pc.released = true

abbrev pub is_holding : Pc → Bool
is_holding Pc.outside = false
is_holding Pc.waiting = false
is_holding Pc.holding = true
is_holding Pc.released = false

module _ {L : Type 0} (l : LockType L) where
  abbrev pub init : System L
  init = record { state = l.begin; pc = λ i. Pc.outside }

  -- One try of `local_lock.lock()`; behind it the guard sets `is_locked`.
  unfoldable pub acquire : ℕ → System L → System L
  acquire i s = record {
    state = (l.attempt s.state).1;
    pc = if (l.attempt s.state).0 then update s.pc i Pc.holding else s.pc;
  }

  -- The constructor of the guard.
  unfoldable pub construct : ℕ → System L → System L
  construct i s = record s { pc = update s.pc i Pc.waiting }

  -- `ScopedLock::lock`, `ScopedLock::unlock` and the destructor, on a guard.
  unfoldable pub lock : ℕ → System L → System L
  lock i s = elim (s.pc i) [ Pc.released ↦ record s { pc = update s.pc i Pc.waiting } | other ↦ s ]

  unfoldable pub unlock : ℕ → System L → System L
  unlock i s = elim (s.pc i) [
    | Pc.holding ↦ record { state = l.release s.state; pc = update s.pc i Pc.released }
    | other ↦ s
  ]

  unfoldable pub destroy : ℕ → System L → System L
  destroy i s = let s' = unlock i s in record s' { pc = update s'.pc i Pc.outside }

  pub data Step (s : System L) : System L → Type 0 where
    begin_guard : (i : ℕ) → s.pc i ≡ Pc.outside → Step s (construct i s)
    try_lock : (i : ℕ) → s.pc i ≡ Pc.waiting → Step s (acquire i s)
    lock_guard : (i : ℕ) → has_guard (s.pc i) ≡ true → Step s (lock i s)
    unlock_guard : (i : ℕ) → has_guard (s.pc i) ≡ true → Step s (unlock i s)
    end_guard : (i : ℕ) → has_guard (s.pc i) ≡ true → Step s (destroy i s)

  pub data Reach : System L → Type 0 where
    start : Reach init
    later : {s t : System L} → Reach s → Step s t → Reach t
