-- ===== src/Enums.antt =====
-- kernel/kernel/bit_helpers.hpp: the bit operators on the values of an enum, words of `w` bits.
use Prim.Native.Nat.{bit_xor}
use unnamed.Prelude.{ℕ, ◌-◌, ◌^◌, ◌<◌, ◌≡◌, bit_and, bit_or, arith}

abbrev pub either : (a b : ℕ) → ℕ
either a b = bit_or a b

abbrev pub both : (a b : ℕ) → ℕ
both a b = bit_and a b

abbrev pub one_of : (a b : ℕ) → ℕ
one_of a b = bit_xor a b

abbrev pub complement : (w a : ℕ) → ℕ
complement w a = 2 ^ w - 1 - a

-- What the left operand is after `|=`, `&=` and `^=`, and what they return
abbrev pub set_either : (a b : ℕ) → ℕ × ℕ
set_either a b = (either a b, either a b)

abbrev pub set_both : (a b : ℕ) → ℕ × ℕ
set_both a b = (both a b, both a b)

abbrev pub set_one_of : (a b : ℕ) → ℕ × ℕ
set_one_of a b = (one_of a b, one_of a b)

-- The complement of the complement is the value.
complement-twice : (w a : ℕ) → a < 2 ^ w → complement w (complement w a) ≡ a
complement-twice w a lt = omega arith
