-- ===== src/PtrArray.antt =====
-- kernel/lib/ptr_array_wrapper.hpp: an array of pointers that ends with null, as a range. The loops
-- over the boot loader's memory map go over such a range.
mod Tests
use unnamed.Prelude.{
  ℕ, zero, suc, ◌+◌, ◌*◌, ◌^◌, ◌≤◌, ◌<◌, ◌≡◌, refl, ap, ◌∙◌, Bool, not, Option, none, some, List,
  [], ◌∷◌, ◌==◌, if◌then◌else◌, arith, length, true, false,
}
use mathlib.Core.Option
use unnamed.Prelude.Words.{add64}

-- The pointers in memory, by their addresses; an iterator is an address.
abbrev pub Pointers : Type 0
Pointers = ℕ → ℕ

abbrev pub begin : (ptrs : ℕ) → ℕ
begin ptrs = ptrs

-- `++`, on a pointer to pointers
abbrev pub next : (current : ℕ) → ℕ
next current = add64 current 8

-- `operator*`, the address of the element
abbrev pub deref : Pointers → (current : ℕ) → ℕ
deref m current = m current

abbrev pub differ : (a b : ℕ) → Bool
differ a b = not (a == b)

-- The loop of `end`, for a number of rounds.
unfoldable pub end : Pointers → (rounds p : ℕ) → Option ℕ
end m zero p = none
end m (suc n) p = let rest = end m n (next p) in if m p == 0 then some p else rest

-- `for (auto &e: range)`: the addresses of the elements.
unfoldable pub visit : Pointers → (rounds current last : ℕ) → Option (List ℕ)
visit m zero current last = none
visit m (suc n) current last =
    let rest = Option.map (λ es. deref m current ∷ es) (visit m n (next current) last) in
    if differ current last then rest else some []

abbrev pub visit_to : Pointers → (rounds ptrs : ℕ) → Option ℕ → Option (List ℕ)
visit_to m rounds ptrs none = none
visit_to m rounds ptrs (some last) = visit m rounds (begin ptrs) last

unfoldable pub for_each : Pointers → (rounds ptrs : ℕ) → Option (List ℕ)
unfolding end visit
for_each m rounds ptrs = visit_to m rounds ptrs (end m rounds ptrs)

-- The pointers lie in memory from the address on, with a null behind them.
abbrev pub Holds : Pointers → (p : ℕ) → List ℕ → Type 0
Holds m p [] = m p ≡ 0
Holds m p (x ∷ xs) = (m p ≡ x) × (0 < x) × Holds m (p + 8) xs

module _ (m : Pointers) where
  end-found :
      (xs : List ℕ) (n p : ℕ)
      → Holds m p xs
      → length xs < n
      → p + 8 * length xs < 2 ^ 64
      → end m n p ≡ some (p + 8 * length xs)
  unfolding end
  end-found xs zero p h lt fits = absurd (omega arith)
  end-found [] (suc n) p h lt fits =
      let null : (m p == 0) ≡ true = ground arith in rw null (ap some (omega arith))
  end-found (x ∷ xs) (suc n) p h lt fits =
      let pos = h.1 in
      let e = h.0 in
      let more : (m p == 0) ≡ false = ground arith in
      let step : next p ≡ p + 8 = omega arith in
      rw (more, step)
        (end-found xs n (p + 8) h.2 (omega arith) (omega arith) ∙ ap some (omega arith))

  visit-found :
      (xs : List ℕ) (n p last : ℕ)
      → Holds m p xs
      → length xs < n
      → last ≡ p + 8 * length xs
      → last < 2 ^ 64
      → visit m n p last ≡ some xs
  unfolding visit
  visit-found xs zero p last h lt at fits = absurd (omega arith)
  visit-found [] (suc n) p last h lt at fits =
      let same : (p == last) ≡ true = ground arith in rw same refl
  visit-found (x ∷ xs) (suc n) p last h lt at fits =
      let other : (p == last) ≡ false = ground arith in
      let step : next p ≡ p + 8 = omega arith in
      rw (other, step, visit-found xs n (p + 8) last h.2 (omega arith) (omega arith) fits, h.0) refl

-- A loop over the range visits the pointers of the array, in order and no others, where the array ends
-- within the address space; one round more than there are pointers is enough.
pub for_each-visited :
    (m : Pointers) (xs : List ℕ) (rounds ptrs : ℕ)
    → Holds m ptrs xs
    → length xs < rounds
    → ptrs + 8 * length xs < 2 ^ 64
    → for_each m rounds ptrs ≡ some xs
unfolding for_each
for_each-visited m xs rounds ptrs h enough fits =
    rw (end-found m xs rounds ptrs h enough fits)
      (visit-found m xs rounds ptrs (ptrs + 8 * length xs) h enough refl fits)
