-- ===== src/Locks/Tests.antt =====
-- The properties of src/utils/lock.h at concrete runs of two threads with a SpinLock.
use tiny_db.Prelude.{Bool, ℕ, ◌≡◌, ◌≢◌, ◌⊎◌, refl}
use tiny_db.Locks.{spin_lock, null_lock, Pc, System, init, acquire, construct, unlock, Step, Reach}
use tiny_db.Locks.Exclusion.{spin_lock-IsExcluding, IsSafe, Reach-IsSafe, waiting_lem}

-- Thread 0 has the lock, thread 1 waits.
abbrev contended : System Bool
contended =
    acquire spin_lock 1
      (construct spin_lock 1 (acquire spin_lock 0 (construct spin_lock 0 (init spin_lock))))

contended-Reach : Reach spin_lock contended
unfolding acquire construct
contended-Reach =
    Reach.later
      (Reach.later
        (Reach.later (Reach.later Reach.start (Step.begin_guard 0 refl)) (Step.try_lock 0 refl))
        (Step.begin_guard 1 refl))
      (Step.try_lock 1 refl)

Reach-IsSafe_example : IsSafe spin_lock spin_lock-IsExcluding contended
Reach-IsSafe_example = Reach-IsSafe spin_lock spin_lock-IsExcluding contended-Reach

waiting_lem_example :
    ((acquire spin_lock 1 contended).pc 1 ≡ Pc.holding)
    ⊎ ((j : ℕ) × (j ≢ 1)
        × (contended.pc j ≡ Pc.holding)
        × ((acquire spin_lock 1 (unlock spin_lock j contended)).pc 1 ≡ Pc.holding))
unfolding acquire construct
waiting_lem_example = waiting_lem spin_lock spin_lock-IsExcluding contended-Reach 1 refl

-- A NullLock lets two threads in at once.
null_lock_runs :
    let both =
      acquire null_lock 1
        (construct null_lock 1 (acquire null_lock 0 (construct null_lock 0 (init null_lock)))) in
    (both.pc 0 ≡ Pc.holding) × (both.pc 1 ≡ Pc.holding)
unfolding acquire construct
null_lock_runs = (refl, refl)
