-- ===== src/Spinlock/Tests.antt =====
-- Two threads at the lock of kernel/lib/spinlock.cpp.
use unnamed.Prelude.{ℕ, ◌⊎◌, ◌≡◌, refl}
use unnamed.Spinlock.{
  Threads, holding, waiting, unlock, Step, lock_round, call_lock, calls, rounds, Reach, here,
  then_step, start,
}
use unnamed.Spinlock.Exclusion.{Exclusive, Reach-Exclusive, Reach-progress}

-- Both threads call `lock`, and the second finds the flag set.
abbrev both : Threads
both = lock_round 1 (lock_round 0 (call_lock 1 (call_lock 0 start)))

both-Reach : Reach start both
unfolding lock_round call_lock
both-Reach =
    then_step (then_step (then_step (then_step here (calls 0 refl)) (calls 1 refl)) (rounds 0 refl))
      (rounds 1 refl)

second_waits : both.place 1 ≡ waiting
unfolding lock_round call_lock
second_waits = refl

Reach-Exclusive_example : Exclusive both
Reach-Exclusive_example = Reach-Exclusive both both-Reach

Reach-progress_example :
    (Step both (lock_round 1 both) × ((lock_round 1 both).place 1 ≡ holding))
    ⊎ ((h : ℕ) × (both.place h ≡ holding)
        × Step both (unlock h both)
        × Step (unlock h both) (lock_round 1 (unlock h both))
        × ((lock_round 1 (unlock h both)).place 1 ≡ holding))
Reach-progress_example = Reach-progress both 1 both-Reach second_waits
