-- ===== src/Spinlock/Exclusion.antt =====
-- Mutual exclusion of kernel/lib/spinlock.cpp, and how a thread that waits gets on.
use unnamed.Prelude.{
  ℕ, ◌≡◌, ◌≢◌, refl, sym, ◌∙◌, ap, ◌⊎◌, inl, inr, Bool, true, false, ◌==◌, ==_iff, Bool-cases,
  arith,
}
use unnamed.Spinlock.{
  Place, outside, waiting, holding, Threads, move, lock_round, call_lock, unlock, Step, calls,
  rounds, unlocks, Reach, here, then_step, start,
}

-- Either the flag is clear and no thread holds the lock, or it is set and exactly one does.
abbrev pub Exclusive : Threads → Type 0
Exclusive s =
    ((s.locked ≡ false) × ((t : ℕ) → s.place t ≢ holding))
    ⊎ ((s.locked ≡ true)
        × ((t : ℕ) × (s.place t ≡ holding) × ((u : ℕ) → s.place u ≡ holding → u ≡ t)))

abbrev IsHolding : Place → Type 0
IsHolding outside = ⊥
IsHolding waiting = ⊥
IsHolding holding = Unit

not_holding : (p : Place) → IsHolding p → p ≡ holding
not_holding outside h = absurd h
not_holding waiting h = absurd h
not_holding holding h = refl

holds_of : (p : Place) → p ≡ holding → IsHolding p
holds_of p e = rw e tt

moved_elsewhere : (place : ℕ → Place) (t u : ℕ) (p : Place) → u ≢ t → move place t p u ≡ place u
moved_elsewhere place t u p ne = (let e : (u == t) ≡ false = ground arith in rw e)

moved_here : (place : ℕ → Place) (t : ℕ) (p : Place) → move place t p t ≡ p
moved_here place t p = (let e : (t == t) ≡ true = ground arith in rw e)

-- After a move to a place that is not behind the lock, only other threads hold it.
holder_before :
    (place : ℕ → Place) (t u : ℕ) (p : Place)
    → ¬ IsHolding p
    → move place t p u ≡ holding
    → (u ≢ t) × (place u ≡ holding)
holder_before place t u p none_here e = elim (Bool-cases (u == t)) [
  | inl same ↦ absurd (none_here (holds_of p (rw same at e)))
  | inr other ↦ (
    λ x.
        (let y : (u == t) ≡ true = rw x (ground arith) in
          let c : true ≡ false = sym y ∙ other in cc),
    rw other at e,
  )
]

not_here : (place : ℕ → Place) (t u : ℕ) → ¬ IsHolding (place t) → place u ≡ holding → u ≢ t
not_here place t u none_here e same = none_here (holds_of (place t) (ap place (sym same) ∙ e))

-- A thread that does not hold the lock moves to a place that is not behind it.
moved-Exclusive :
    (flag : Bool) (place : ℕ → Place) (t : ℕ) (p : Place)
    → ¬ IsHolding (place t)
    → ¬ IsHolding p
    → Exclusive (record { locked = flag; place = place })
    → Exclusive (record { locked = flag; place = move place t p })
moved-Exclusive flag place t p before after (inl (clear, nobody)) =
    inl (clear, λ u e. nobody u (holder_before place t u p after e).1)
moved-Exclusive flag place t p before after (inr (set, (h, holds, only))) = inr (
  set,
  (
    h,
    moved_elsewhere place t h p (not_here place t h before holds) ∙ holds,
    λ u e. only u (holder_before place t u p after e).1,
  ),
)

-- The lock is given to the thread whose round found the flag clear.
taken-Exclusive :
    (place : ℕ → Place) (t : ℕ)
    → ((u : ℕ) → place u ≢ holding)
    → Exclusive (record { locked = true; place = move place t holding })
taken-Exclusive place t nobody = inr (
  refl,
  (
    t,
    moved_here place t holding,
    λ u e. elim (Bool-cases (u == t)) [
      | inl same ↦ (==_iff _ _).0 same
      | inr other ↦ absurd (nobody u (rw other at e))
    ],
  ),
)

given_back-Exclusive :
    (flag : Bool) (place : ℕ → Place) (t : ℕ)
    → place t ≡ holding
    → Exclusive (record { locked = flag; place = place })
    → Exclusive (record { locked = false; place = move place t outside })
given_back-Exclusive flag place t e (inl (clear, nobody)) = absurd (nobody t e)
given_back-Exclusive flag place t e (inr (set, (h, holds, only))) = inl (
  refl,
  λ u f.
      let (ne, was) = holder_before place t u outside (λ x. x) f in
      ne (only u was ∙ sym (only t e)),
)

lock_round-Exclusive :
    (flag : Bool) (place : ℕ → Place) (t : ℕ)
    → place t ≡ waiting
    → Exclusive (record { locked = flag; place = place })
    → Exclusive (lock_round t (record { locked = flag; place = place }))
unfolding lock_round
lock_round-Exclusive true place t e x =
    moved-Exclusive true place t waiting (rw e (λ h. h)) (λ h. h) x
lock_round-Exclusive false place t e (inl (clear, nobody)) = taken-Exclusive place t nobody
lock_round-Exclusive false place t e (inr (set, held)) =
    absurd (let c : true ≡ false = sym set in cc)

Step-Exclusive : (s s' : Threads) → Step s s' → Exclusive s → Exclusive s'
unfolding call_lock unlock
Step-Exclusive s s' (calls t e) x =
    moved-Exclusive s.locked s.place t waiting (rw e (λ h. h)) (λ h. h) x
Step-Exclusive s s' (rounds t e) x = lock_round-Exclusive s.locked s.place t e x
Step-Exclusive s s' (unlocks t e) x = given_back-Exclusive s.locked s.place t e x

-- However the calls and rounds of any number of threads interleave, from the clear flag on, either no thread holds
-- the lock and the flag is clear, or the flag is set and exactly one thread holds it.
pub Reach-Exclusive : (s : Threads) → Reach start s → Exclusive s
Reach-Exclusive s r = from start s r (inl (refl, λ t e. absurd (holds_of outside e)))
  where
    from : (s s' : Threads) → Reach s s' → Exclusive s → Exclusive s'
    from s s' here x = x
    from s s' (then_step {u} reach step) x = Step-Exclusive u s' step (from s u reach x)

-- In every state that is reached, a thread that waits holds the lock either after one step, its own
-- round, or after two: the holder unlocks, and then its own round.
pub Reach-progress :
    (s : Threads) (t : ℕ)
    → Reach start s
    → s.place t ≡ waiting
    → (Step s (lock_round t s) × ((lock_round t s).place t ≡ holding))
      ⊎ ((h : ℕ) × (s.place h ≡ holding)
          × Step s (unlock h s)
          × Step (unlock h s) (lock_round t (unlock h s))
          × ((lock_round t (unlock h s)).place t ≡ holding))
unfolding lock_round unlock
Reach-progress s t r e = elim (Reach-Exclusive s r) [
  | inl (clear, nobody) ↦ inl (rounds t e, rw clear (moved_here s.place t holding))
  | inr (set, (h, holds, only)) ↦
      let ne : t ≢ h = λ x. holds_of waiting (sym e ∙ ap s.place x ∙ holds) in
      inr (
        h,
        holds,
        unlocks h holds,
        rounds t (moved_elsewhere s.place h t outside ne ∙ e),
        moved_here (move s.place h outside) t holding,
      )
]
