-- ===== src/Run/Ensures.antt =====
-- Total correctness of an action: it neither halts, faults nor runs out of fuel, and its result and
-- final state satisfy a postcondition.
use unnamed.Prelude.{◌≡◌, refl}
use unnamed.Run.{Outcome, ok, halted, fault, out_of_fuel, Action, and_then}

abbrev pub Ensures : {S A : Type 0} → Outcome S A → (A → S → Type 0) → Type 0
Ensures (ok a k) P = P a k
Ensures halted P = ⊥
Ensures fault P = ⊥
Ensures out_of_fuel P = ⊥

module _ {S A : Type 0} where
  -- A later action is judged at every result that the first may have.
  pub and_then-Ensures :
      {B : Type 0} (r : Outcome S A) (f : A → Action S B) (P : A → S → Type 0) (Q : B → S → Type 0)
      → Ensures r P
      → ((a : A) (k : S) → P a k → Ensures (f a k) Q)
      → Ensures (and_then r f) Q
  and_then-Ensures (ok a k) f P Q p next = next a k p
  and_then-Ensures halted f P Q p next = absurd p
  and_then-Ensures fault f P Q p next = absurd p
  and_then-Ensures out_of_fuel f P Q p next = absurd p

  -- After an action of which the result is known.
  pub and_then-known :
      {B : Type 0} (r : Outcome S A) (f : A → Action S B) (Q : B → S → Type 0) (a : A) (k : S)
      → r ≡ ok a k
      → Ensures (f a k) Q
      → Ensures (and_then r f) Q
  and_then-known r f Q a k e post = rw e post

  pub Ensures-mono :
      (r : Outcome S A) (P Q : A → S → Type 0)
      → ((a : A) (k : S) → P a k → Q a k)
      → Ensures r P
      → Ensures r Q
  Ensures-mono (ok a k) P Q weaken p = weaken a k p
  Ensures-mono halted P Q weaken p = p
  Ensures-mono fault P Q weaken p = p
  Ensures-mono out_of_fuel P Q weaken p = p

  -- An argument of a call may be replaced by one that equals it.
  pub Ensures-arg :
      {B : Type 0} (f : B → Outcome S A) (x y : B) (P : A → S → Type 0)
      → x ≡ y
      → Ensures (f y) P
      → Ensures (f x) P
  Ensures-arg f x y P e h = rw e h

  -- The result and the state that there are.
  pub Ensures-ok :
      (r : Outcome S A) (P : A → S → Type 0)
      → Ensures r P
      → (a : A) × (s : S) × (r ≡ ok a s) × P a s
  Ensures-ok (ok a s) P p = (a, s, refl, p)
  Ensures-ok halted P p = absurd p
  Ensures-ok fault P p = absurd p
  Ensures-ok out_of_fuel P p = absurd p
