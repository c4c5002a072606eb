-- ===== src/Vector/Copies.antt =====
-- The copy constructor and `clear` of kernel/lib/vector.hpp.
use mathlib.Core.Path.{subst}
use unnamed.Prelude.{
  Bool, ℕ, zero, suc, ◌+◌, ◌^◌, ◌<◌, ◌≡◌, refl, ◌∙◌, sym, some, ◌==◌, arith, if◌then◌else◌, false,
  Bool-cases, inl, inr, leb, ==_iff,
}
use unnamed.Vector.{
  Vector, Slots, reserve, push_back, pop_back, fresh, copy_loop, copy, clear_loop, clear,
}
use unnamed.Vector.Elements.{
  Holds, inserted, reserve-Holds, push_back-Holds, push_back_room, pop_back-Holds, Holds-below,
}

module _ {A : Type 0} where
  if_false : (b : Bool) (x y : Vector A) → b ≡ false → (if b then x else y) ≡ y
  if_false b x y e = rw e

  clear_loop-Holds : (n : ℕ) (v : Vector A) (f : ℕ → A) → Holds v n f → Holds (clear_loop n v) 0 f
  unfolding clear_loop
  clear_loop-Holds zero v f h = h
  clear_loop-Holds (suc n) v f h =
      let some_size : (v.size == 0) ≡ false = (let s = h.sized in ground arith) in
      subst (λ w. Holds w 0 f)
        (sym (if_false (v.size == 0) v (clear_loop n (pop_back v)) some_size))
        (clear_loop-Holds n (pop_back v) f (pop_back-Holds n v f h))

  -- After `clear` no object lives in the buffer.
  pub clear-Holds : (n : ℕ) (v : Vector A) (f : ℕ → A) → Holds v n f → Holds (clear v) 0 f
  unfolding clear
  clear-Holds n v f h = simp h.sized (clear_loop-Holds n v f h)

  copy_loop-Holds :
      (slots : Slots A) (n : ℕ) (f : ℕ → A)
      → n < 2 ^ 63
      → ((i : ℕ) → i < n → slots i ≡ some (f i))
      → (count i : ℕ) (v : Vector A) → i + count ≡ n
      → v.capacity ≡ n
      → Holds v i f
      → (c : Vector A) × (copy_loop count i slots v ≡ some c) × Holds c n f
  unfolding copy_loop
  copy_loop-Holds slots n f small live zero i v all full h =
      let e : i ≡ n = omega arith in (v, refl, rw e at h)
  copy_loop-Holds slots n f small live (suc count) i v all full h =
      let s = h.sized in
      let pushed : Holds (push_back (f i) v) (suc i) f =
        Holds-below (suc i) (push_back (f i) v) (inserted i (f i) f) f
          (λ j lt. elim (Bool-cases (j == i)) [
            | inl e ↦ (let at = (==_iff j i).0 e in rw at (ground arith))
            | inr ne ↦ ground arith
          ])
          (push_back-Holds i v f (f i) (omega arith) h) in
      let same : (push_back (f i) v).capacity ≡ n = push_back_room v (f i) (omega arith) ∙ full in
      rw (copy_loop, live i (omega arith))
        (copy_loop-Holds slots n f small live count (suc i) (push_back (f i) v) (omega arith) same
          pushed)

  reserved : (n : ℕ) (v : Vector A) → v.capacity ≡ 0 → (reserve n v).capacity ≡ n
  unfolding reserve
  reserved n v empty = elim (Bool-cases (leb n v.capacity)) [
    | inl none_left ↦ rw none_left (ground arith)
    | inr more ↦ rw more
  ]

  -- The copy constructor reads only slots with objects, and the copy holds the same elements. There
  -- are fewer than 2^63 of them.
  pub copy-Holds :
      (n : ℕ) (v : Vector A) (f : ℕ → A)
      → n < 2 ^ 63
      → Holds v n f
      → (c : Vector A) × (copy v ≡ some c) × Holds c n f
  unfolding copy
  copy-Holds n v f small h = simp h.sized (
      copy_loop-Holds v.slots n f small h.live n 0 (reserve n fresh) (omega arith)
        (reserved n fresh refl)
        (reserve-Holds n 0 fresh f (record {
          sized = refl;
          room = omega arith;
          live = λ i lt. absurd (omega arith);
          rest = λ i ge. refl;
        })))
