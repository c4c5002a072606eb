-- ===== src/PtrArray/Tests.antt =====
-- An array of two pointers.
use unnamed.Prelude.{◌≡◌, some, [], ◌∷◌, ◌==◌, if◌then◌else◌, refl, arith}
use unnamed.PtrArray.{Pointers, for_each, for_each-visited}

abbrev two : Pointers
two a = if a == 0x1000 then 0x40 else if a == 0x1008 then 0x20 else 0

two_run : for_each two 9 0x1000 ≡ some (0x40 ∷ 0x20 ∷ [])
unfolding for_each
two_run = refl

for_each-visited_example : for_each two 3 0x1000 ≡ some (0x40 ∷ 0x20 ∷ [])
for_each-visited_example =
    for_each-visited two (0x40 ∷ 0x20 ∷ []) 3 0x1000 (refl, omega arith, (refl, omega arith, refl))
      (omega arith) (omega arith)
