-- ===== src/Prelude/Words.antt =====
-- 64-bit and 32-bit unsigned arithmetic on native numbers, with its wrap-around written out.
use Prim.Native.Nat.{bit_and, ℕ, zero, suc, ◌+◌, ◌-◌, ◌*◌, ◌/◌, ◌%◌, ◌^◌, ◌<◌}
use mathlib.Core.Path.{◌≡◌}
use native.Mathlib.Omega.{arith}
use native.Mathlib.Nat.{div-lt_iff_lt-mul, mod-eq_of_lt}
use unnamed.Prelude.Bits.{bit_and_high, pow_add, pow-pos}

abbrev pub u64_mod : ℕ
u64_mod = 2 ^ 64

abbrev pub u32_mod : ℕ
u32_mod = 2 ^ 32

abbrev pub add64 : ℕ → ℕ → ℕ
add64 a b = (a + b) % 2 ^ 64

-- `a - b` of the source: the truncated subtraction of ℕ is never reached below zero.
abbrev pub sub64 : ℕ → ℕ → ℕ
sub64 a b = (a + 2 ^ 64 - b) % 2 ^ 64

abbrev pub mul64 : ℕ → ℕ → ℕ
mul64 a b = (a * b) % 2 ^ 64

-- `~a` on 64 bits.
abbrev pub not64 : ℕ → ℕ
not64 a = 2 ^ 64 - 1 - a

mul_pred : (q p : ℕ) → 0 < q → (q - 1) * p + p ≡ q * p
mul_pred zero p h = elim h [ ]
mul_pred (suc q) p h = let e : suc q - 1 ≡ q = omega arith in rw e (omega arith)

-- The complement of a low mask is the high mask.
pub not64_mask : (k m : ℕ) → m + k ≡ 64 → not64 (2 ^ k - 1) ≡ (2 ^ m - 1) * 2 ^ k
not64_mask k m e = omega (arith, pow_add m k 64 e, pow-pos k, mul_pred (2 ^ m) (2 ^ k) (pow-pos m))

pub pow-lt_u64 : (k : ℕ) → k < 64 → 2 ^ k < 2 ^ 64
pow-lt_u64 k h =
    omega (
      arith,
      pow_add (63 - k) k 63 (omega arith),
      mul_pred (2 ^ (63 - k)) (2 ^ k) (pow-pos (63 - k)),
    )

pub sub64_one : (k : ℕ) → k < 64 → sub64 (2 ^ k) 1 ≡ 2 ^ k - 1
sub64_one k h = omega (arith, pow-pos k, pow-lt_u64 k h)

-- `a & ~(2^k - 1)` clears the digits below place k.
pub bit_and-not64 :
    (k a : ℕ) → k < 64 → a < 2 ^ 64 → bit_and a (not64 (2 ^ k - 1)) ≡ a / 2 ^ k * 2 ^ k
bit_and-not64 k a h lt =
    let small : a / 2 ^ k < 2 ^ (64 - k) =
      (div-lt_iff_lt-mul (pow-pos k)).1 (omega (arith, pow_add (64 - k) k 64 (omega arith))) in
    rw (not64_mask k (64 - k) (omega arith), bit_and_high k (64 - k) a, mod-eq_of_lt small)
