-- ===== src/Run.antt =====
-- Runs of C++ code on a state: what a call ends in, and sequences of calls. `fault` is an access
-- that the processor refuses, `halted` the end of `x86_64::hcf`, `out_of_fuel` a loop that goes on.
pub mod Ensures
use unnamed.Prelude.{Bool, true, false}

pub data Outcome (S A : Type 0) : Type 0 where
  ok : A → S → Outcome S A
  halted : Outcome S A
  fault : Outcome S A
  out_of_fuel : Outcome S A

abbrev pub Action : (S A : Type 0) → Type 0
Action S A = S → Outcome S A

module _ {S A B : Type 0} where
  abbrev pub and_then : Outcome S A → (A → Action S B) → Outcome S B
  and_then (ok a k) f = f a k
  and_then halted f = halted
  and_then fault f = fault
  and_then out_of_fuel f = out_of_fuel

  infixl 5 ◌>>=◌ ◌>>◌
  abbrev pub ◌>>=◌ : Action S A → (A → Action S B) → Action S B
  m >>= f = λ k. and_then (m k) f

  abbrev pub ◌>>◌ : Action S A → Action S B → Action S B
  m >> n = m >>= λ _. n

module _ {S : Type 0} where
  abbrev pub pure : {A : Type 0} → A → Action S A
  pure = ok

  abbrev pub halt : {A : Type 0} → Action S A
  halt k = halted

  -- `core::assert`: a test that fails stops the machine.
  abbrev pub assert : Bool → Action S (Unit {0})
  assert true = pure tt
  assert false = halt
