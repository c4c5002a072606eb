-- ===== src/Helpers.antt =====
-- kernel/kernel/helpers.hpp: tests and rounding of addresses by bit masks, on 64-bit words.
pub mod Align
mod Tests
use unnamed.Prelude.{ℕ, Bool, bit_and, ◌==◌}
use unnamed.Prelude.Words.{add64, sub64, not64}

unfoldable pub check_aligned : ℕ → ℕ → Bool
check_aligned addr alignment = bit_and addr (sub64 alignment 1) == 0

unfoldable pub is_flag_set : ℕ → ℕ → Bool
is_flag_set v bit = bit_and v bit == bit

unfoldable pub align_up : ℕ → ℕ → ℕ
align_up value alignment = bit_and (sub64 (add64 value alignment) 1) (not64 (sub64 alignment 1))

unfoldable pub align_down : ℕ → ℕ → ℕ
align_down value alignment = bit_and value (not64 (sub64 alignment 1))
