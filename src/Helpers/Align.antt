-- ===== src/Helpers/Align.antt =====
-- Rounding and alignment tests at a power of two, against division.
use native.Mathlib.Nat.{div-add-mod', mod-lt}
use unnamed.Prelude.{ℕ, ◌+◌, ◌-◌, ◌*◌, ◌/◌, ◌%◌, ◌^◌, ◌≤◌, ◌<◌, ◌≡◌, ◌↔◌, true, arith, ==_iff}
use unnamed.Prelude.Bits.{bit_and_low, mod_multiple, pow-pos}
use unnamed.Prelude.Words.{add64, sub64, sub64_one, bit_and-not64}
use unnamed.Helpers.{check_aligned, align_up, align_down}
use unnamed.Utils

module _ (k a : ℕ) (h : k < 64) where
  -- At a power of two below 2^64, `check_aligned` holds exactly when it divides the address.
  pub check_aligned_iff : (check_aligned a (2 ^ k) ≡ true) ↔ (a % 2 ^ k ≡ 0)
  unfolding check_aligned
  check_aligned_iff = rw (sub64_one k h, bit_and_low k a) (==_iff _ 0)

  pub align_down-div : a < 2 ^ 64 → align_down a (2 ^ k) ≡ a / 2 ^ k * 2 ^ k
  unfolding align_down
  align_down-div lt = rw (sub64_one k h) (bit_and-not64 k a h lt)

  pub align_up-div : a + 2 ^ k ≤ 2 ^ 64 → align_up a (2 ^ k) ≡ (a + 2 ^ k - 1) / 2 ^ k * 2 ^ k
  unfolding align_up
  align_up-div fits =
      let e : sub64 (add64 a (2 ^ k)) 1 ≡ a + 2 ^ k - 1 = omega (arith, pow-pos k) in
      rw (e, sub64_one k h) (bit_and-not64 k (a + 2 ^ k - 1) h (omega (arith, pow-pos k)))

  pub utils_align_up-div :
      a + 2 ^ k ≤ 2 ^ 64 → Utils.align_up a (2 ^ k) ≡ (a + 2 ^ k - 1) / 2 ^ k * 2 ^ k
  unfolding Utils.align_up
  utils_align_up-div fits =
      let e : add64 a (2 ^ k - 1) ≡ a + 2 ^ k - 1 = omega (arith, pow-pos k) in
      rw (sub64_one k h, e) (bit_and-not64 k (a + 2 ^ k - 1) h (omega (arith, pow-pos k)))

-- `r` is the least multiple of the power of two that is not below `a`.
pub record IsRoundedUp (k a r : ℕ) : Type 0 where
  pub below : a ≤ r
  pub close : r < a + 2 ^ k
  pub multiple : r % 2 ^ k ≡ 0

rounded_up : (k a : ℕ) → IsRoundedUp k a ((a + 2 ^ k - 1) / 2 ^ k * 2 ^ k)
rounded_up k a =
    let p = pow-pos k in
    let q = div-add-mod' (a + 2 ^ k - 1) (2 ^ k) in
    let r = mod-lt (a + 2 ^ k - 1) (pow-pos k) in
    record {
      below = omega arith;
      close = omega arith;
      multiple = mod_multiple ((a + 2 ^ k - 1) / 2 ^ k) k;
    }

module _ (k a : ℕ) (h : k < 64) where
  -- At a power of two below 2^64, where the address and it do not exceed 2^64 together, both functions
  -- `align_up`, of kernel/helpers.hpp and of lib/utils.hpp, give the least multiple of it that is not
  -- below the address.
  pub align_up-IsRoundedUp :
      a + 2 ^ k ≤ 2 ^ 64
      → IsRoundedUp k a (align_up a (2 ^ k)) × IsRoundedUp k a (Utils.align_up a (2 ^ k))
  align_up-IsRoundedUp fits = (
    rw (align_up-div k a h fits) (rounded_up k a),
    rw (utils_align_up-div k a h fits) (rounded_up k a),
  )
