-- ===== src/Logger/Tests.antt =====
-- A short message.
use unnamed.Prelude.{ℕ, ◌≡◌, ◌≢◌, ◌≤◌, ◌<◌, refl, [], ◌∷◌, map, ◌==◌, if◌then◌else◌}
use unnamed.Acpi.{output, byte}
use unnamed.Logger.{debug, bytes_from, with_byte, debug-IsLogged}

abbrev hi : ℕ → ℕ
hi i = if i == 0 then 72 else if i == 1 then 105 else 0

hi_run : debug hi ≡ output byte 0xe9 72 ∷ output byte 0xe9 105 ∷ []
unfolding debug
hi_run = refl

debug-IsLogged_example :
    (n : ℕ) × (n ≤ 1023)
    × (debug hi ≡ map (output byte 0xe9) (bytes_from (with_byte hi 1023 0) n 0))
    × ((j : ℕ) → j < n → hi j ≢ 0)
    × (n < 1023 → hi n ≡ 0)
debug-IsLogged_example = debug-IsLogged hi
