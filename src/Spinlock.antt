-- ===== src/Spinlock.antt =====
-- kernel/lib/spinlock.cpp: a lock as a flag, which threads test and set in one step, in any
-- interleaving.
pub mod Exclusion
mod Tests
use unnamed.Prelude.{ℕ, Bool, true, false, ◌≡◌, ◌==◌, if◌then◌else◌}

-- `std::atomic_flag`: what the flag was, and the flag afterwards.
abbrev pub test_and_set : Bool → Bool × Bool
test_and_set flag = (flag, true)

-- Where a thread is: before `lock`, in its loop, or behind it and before `unlock`.
pub data Place : Type 0 where
  outside waiting holding : Place

pub record Threads : Type 0 where
  pub locked : Bool
  pub place : ℕ → Place

abbrev pub move : (ℕ → Place) → (t : ℕ) → Place → ℕ → Place
move place t p u = if u == t then p else place u

-- A round of the loop of `Spinlock::lock`.
unfoldable pub lock_round : (t : ℕ) → Threads → Threads
lock_round t s =
    let (old, new) = test_and_set s.locked in
    record { locked = new; place = move s.place t (if old then waiting else holding) }

unfoldable pub call_lock : (t : ℕ) → Threads → Threads
call_lock t s = record s { place = move s.place t waiting }

unfoldable pub unlock : (t : ℕ) → Threads → Threads
unlock t s = record { locked = false; place = move s.place t outside }

-- A thread unlocks only the lock that it holds.
pub data Step : Threads → Threads → Type 0 where
  calls : {s : Threads} (t : ℕ) → s.place t ≡ outside → Step s (call_lock t s)
  rounds : {s : Threads} (t : ℕ) → s.place t ≡ waiting → Step s (lock_round t s)
  unlocks : {s : Threads} (t : ℕ) → s.place t ≡ holding → Step s (unlock t s)

pub data Reach : Threads → Threads → Type 0 where
  here : {s : Threads} → Reach s s
  then_step : {s u v : Threads} → Reach s u → Step u v → Reach s v

abbrev pub start : Threads
start = record { locked = false; place = λ t. outside }
