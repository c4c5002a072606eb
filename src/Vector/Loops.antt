-- ===== src/Vector/Loops.antt =====
-- What the loops of the vector do to each slot.
use unnamed.Prelude.{
  ℕ, zero, suc, ◌+◌, ◌-◌, ◌≤◌, ◌≡◌, ◌∙◌, none, ◌==◌, leb, ltb, ◌||◌, ◌&&◌, arith, false, Bool-cases,
  inl, inr, if◌then◌else◌,
}
use unnamed.Vector.{Slots, put, relocate, bubble, shift_down}

module _ {A : Type 0} where
  pub relocate_lem :
      (count i j : ℕ) (slots fresh : Slots A)
      → relocate count i slots fresh j ≡ (if leb i j && ltb j (i + count) then slots j else fresh j)
  unfolding relocate
  relocate_lem zero i j slots fresh =
      (let e : (leb i j && ltb j (i + 0)) ≡ false = ground arith in rw e)
  relocate_lem (suc n) i j slots fresh =
      relocate_lem n (suc i) j (put slots i none) (put fresh i (slots i)) ∙ ground arith

  pub bubble_lem :
      (i idx j : ℕ) (slots : Slots A)
      → idx ≤ i
      → bubble i idx slots j
        ≡ (if ltb j idx || ltb i j then slots j else if j == idx then slots i else slots (j - 1))
  unfolding bubble
  bubble_lem zero idx j slots le = ground arith
  bubble_lem (suc i) idx j slots le = (elim (Bool-cases (ltb idx (suc i))) [
    | inl more ↦ rw more (bubble_lem i idx j _ (ground arith) ∙ ground arith)
    | inr done ↦ rw done (ground arith)
  ])

  pub shift_down_lem :
      (rounds i size j : ℕ) (slots : Slots A)
      → size ≤ i + rounds
      → shift_down rounds i size slots j
        ≡ (if leb i j && ltb (suc j) size then slots (suc j) else slots j)
  unfolding shift_down
  shift_down_lem zero i size j slots enough = ground arith
  shift_down_lem (suc n) i size j slots enough = (elim (Bool-cases (ltb (suc i) size)) [
    | inl more ↦ rw more (shift_down_lem n (suc i) size j _ (omega arith) ∙ ground arith)
    | inr done ↦ rw done (ground arith)
  ])
