-- ===== src/Prelude/Bits.antt =====
-- Laws of `bit_and` and `bit_or` at variables: one digit, a split at 2 ^ k, masks, disjoint parts.
use Prim.Native.Nat.{
  ℕ, zero, suc, ◌+◌, ◌-◌, ◌*◌, ◌/◌, ◌%◌, ◌^◌, ◌≤◌, ◌<◌, min, max, bit_and, bit_or, digits,
  bit_and-bitwise, bit_or-bitwise,
}
use mathlib.Core.Path.{◌≡◌, refl, sym, ap, ◌∙◌}
use native.Mathlib.Omega.{arith}
use native.Mathlib.Nat.{
  div-div-eq-div-mul, div-add-mod', div-eq_of_eq-mul_left, div-eq_of_lt, div-one, mod-eq_of_lt,
  mod-one, pow-suc, pow-succ',
}

-- The recursion on digits that the native operations stand for, for any operation on two digits.
module _ (z : ℕ → ℕ) (f : ℕ → ℕ → ℕ) where
  -- Its count of digits does not matter, once it is large enough.
  same_digits :
      (a b count other : ℕ) → a ≤ count → a ≤ other → digits z f count a b ≡ digits z f other a b
  same_digits (suc a) b (suc count) (suc other) h k =
      let rest = same_digits (suc a / 2) (b / 2) count other (omega arith) (omega arith) in
      ap (λ (t : ℕ). t * 2 + f (suc a % 2) (b % 2)) rest
  same_digits (suc a) b zero other h k = elim h [ ]
  same_digits (suc a) b (suc count) zero h k = elim k [ ]
  same_digits zero b zero zero h k = refl
  same_digits zero b zero (suc other) h k = refl
  same_digits zero b (suc count) zero h k = refl
  same_digits zero b (suc count) (suc other) h k = refl

  digits_step :
      ((b : ℕ) → z b ≡ z (b / 2) * 2 + f 0 (b % 2))
      → (a b : ℕ) → digits z f a a b ≡ digits z f (a / 2) (a / 2) (b / 2) * 2 + f (a % 2) (b % 2)
  digits_step base zero b = base b
  digits_step base (suc a) b =
      ap (λ (t : ℕ). t * 2 + f (suc a % 2) (b % 2))
        (same_digits (suc a / 2) (b / 2) a (suc a / 2) (omega arith) (omega arith))

pub zero-bit_and : (b : ℕ) → bit_and 0 b ≡ 0
zero-bit_and b = bit_and-bitwise 0 b

pub zero-bit_or : (b : ℕ) → bit_or 0 b ≡ b
zero-bit_or b = bit_or-bitwise 0 b

-- One digit at a time.
bit_and-digits : (a b : ℕ) → bit_and a b ≡ bit_and (a / 2) (b / 2) * 2 + min (a % 2) (b % 2)
bit_and-digits a b =
    let step = digits_step (λ _. zero) min (λ c. omega arith) a b in
    omega (arith, step, bit_and-bitwise a b, bit_and-bitwise (a / 2) (b / 2))

bit_or-digits : (a b : ℕ) → bit_or a b ≡ bit_or (a / 2) (b / 2) * 2 + max (a % 2) (b % 2)
bit_or-digits a b =
    let step = digits_step (λ c. c) max (λ c. omega arith) a b in
    omega (arith, step, bit_or-bitwise a b, bit_or-bitwise (a / 2) (b / 2))

no_digits_and : (count a : ℕ) → digits (λ _. zero) min count a 0 ≡ 0
no_digits_and zero a = refl
no_digits_and (suc count) zero = refl
no_digits_and (suc count) (suc a) = omega (arith, no_digits_and count (suc a / 2))

no_digits_or : (count a : ℕ) → a ≤ count → digits (λ c. c) max count a 0 ≡ a
no_digits_or count zero h = elim count as (λ n. digits (λ c. c) max n 0 0 ≡ 0) [
  | zero ↦ refl
  | suc n ↦ refl
]
no_digits_or zero (suc a) h = elim h [ ]
no_digits_or (suc count) (suc a) h = omega (arith, no_digits_or count (suc a / 2) (omega arith))

pub bit_and-zero : (a : ℕ) → bit_and a 0 ≡ 0
bit_and-zero a = bit_and-bitwise a 0 ∙ no_digits_and a a

pub bit_or-zero : (a : ℕ) → bit_or a 0 ≡ a
bit_or-zero a = bit_or-bitwise a 0 ∙ no_digits_or a a (omega arith)

-- Division and remainder by 2 ^ (k + 1), one digit at a time.
pub pow-pos : (k : ℕ) → 0 < 2 ^ k
pow-pos zero = omega arith
pow-pos (suc k) = omega (arith, pow-suc 2 k, pow-pos k)

div_pow-suc : (a k : ℕ) → a / 2 ^ suc k ≡ a / 2 / 2 ^ k
div_pow-suc a k = rw (pow-succ' 2 k) (sym (div-div-eq-div-mul a 2 (2 ^ k)))

mod_pow-suc : (a k : ℕ) → a % 2 ^ suc k ≡ (a / 2) % 2 ^ k * 2 + a % 2
mod_pow-suc a k = omega (
  arith,
  div-add-mod' a (2 ^ suc k),
  div-add-mod' (a / 2) (2 ^ k),
  ap (λ (t : ℕ). t * 2 ^ suc k) (div_pow-suc a k),
  ap (λ (t : ℕ). a / 2 / 2 ^ k * t) (pow-suc 2 k),
)

half_digit : (x d : ℕ) → d < 2 → (x * 2 + d) / 2 ≡ x
half_digit x d h = omega arith

last_digit : (x d : ℕ) → d < 2 → (x * 2 + d) % 2 ≡ d
last_digit x d h = omega arith

bit_and_digit :
    (x y d e : ℕ) → d < 2 → e < 2 → bit_and (x * 2 + d) (y * 2 + e) ≡ bit_and x y * 2 + min d e
bit_and_digit x y d e h k =
    bit_and-digits (x * 2 + d) (y * 2 + e)
    ∙ rw (half_digit x d h, half_digit y e k, last_digit x d h, last_digit y e k) refl

bit_or_digit :
    (x y d e : ℕ) → d < 2 → e < 2 → bit_or (x * 2 + d) (y * 2 + e) ≡ bit_or x y * 2 + max d e
bit_or_digit x y d e h k =
    bit_or-digits (x * 2 + d) (y * 2 + e)
    ∙ rw (half_digit x d h, half_digit y e k, last_digit x d h, last_digit y e k) refl

-- The digits above and below place k are combined apart.
pub bit_and_split :
    (k a b : ℕ)
    → bit_and a b ≡ bit_and (a / 2 ^ k) (b / 2 ^ k) * 2 ^ k + bit_and (a % 2 ^ k) (b % 2 ^ k)
bit_and_split zero a b =
    rw (div-one a, div-one b, mod-one a, mod-one b, zero-bit_and 0) (omega arith)
bit_and_split (suc k) a b =
    rw (div_pow-suc a k, div_pow-suc b k, mod_pow-suc a k, mod_pow-suc b k)
      (omega (
        arith,
        bit_and-digits a b,
        bit_and_split k (a / 2) (b / 2),
        bit_and_digit (a / 2 % 2 ^ k) (b / 2 % 2 ^ k) (a % 2) (b % 2) (omega arith) (omega arith),
        ap (λ (t : ℕ). bit_and (a / 2 / 2 ^ k) (b / 2 / 2 ^ k) * t) (pow-suc 2 k),
      ))

pub bit_or_split :
    (k a b : ℕ)
    → bit_or a b ≡ bit_or (a / 2 ^ k) (b / 2 ^ k) * 2 ^ k + bit_or (a % 2 ^ k) (b % 2 ^ k)
bit_or_split zero a b = rw (div-one a, div-one b, mod-one a, mod-one b, zero-bit_or 0) (omega arith)
bit_or_split (suc k) a b =
    rw (div_pow-suc a k, div_pow-suc b k, mod_pow-suc a k, mod_pow-suc b k)
      (omega (
        arith,
        bit_or-digits a b,
        bit_or_split k (a / 2) (b / 2),
        bit_or_digit (a / 2 % 2 ^ k) (b / 2 % 2 ^ k) (a % 2) (b % 2) (omega arith) (omega arith),
        ap (λ (t : ℕ). bit_or (a / 2 / 2 ^ k) (b / 2 / 2 ^ k) * t) (pow-suc 2 k),
      ))

-- A mask of the n lowest digits.
pub bit_and_low : (n a : ℕ) → bit_and a (2 ^ n - 1) ≡ a % 2 ^ n
bit_and_low zero a = bit_and-zero a ∙ sym (mod-one a)
bit_and_low (suc n) a =
    let e : 2 ^ suc n - 1 ≡ (2 ^ n - 1) * 2 + 1 = omega (arith, pow-suc 2 n, pow-pos n) in
    rw (e, mod_pow-suc a n)
      (omega (
        arith,
        bit_and_digit (a / 2) (2 ^ n - 1) (a % 2) 1 (omega arith) (omega arith),
        bit_and_low n (a / 2),
        ap (λ (t : ℕ). bit_and t ((2 ^ n - 1) * 2 + 1))
            (let t : a / 2 * 2 + a % 2 ≡ a = omega arith in t),
      ))

pub div_multiple : (x k : ℕ) → x * 2 ^ k / 2 ^ k ≡ x
div_multiple x k = div-eq_of_eq-mul_left (pow-pos k) refl

pub mod_multiple : (x k : ℕ) → x * 2 ^ k % 2 ^ k ≡ 0
mod_multiple x k =
    omega (arith, div-add-mod' (x * 2 ^ k) (2 ^ k), ap (λ (t : ℕ). t * 2 ^ k) (div_multiple x k))

-- A mask of m digits from place k keeps those digits and clears the ones below.
pub bit_and_high : (k m a : ℕ) → bit_and a ((2 ^ m - 1) * 2 ^ k) ≡ a / 2 ^ k % 2 ^ m * 2 ^ k
bit_and_high k m a =
    bit_and_split k a ((2 ^ m - 1) * 2 ^ k)
    ∙ rw
        (
          div_multiple (2 ^ m - 1) k,
          mod_multiple (2 ^ m - 1) k,
          bit_and_low m (a / 2 ^ k),
          bit_and-zero (a % 2 ^ k),
        )
        (omega arith)

-- Parts that share no digit are joined by addition.
pub bit_or-disjoint : (k x y : ℕ) → y < 2 ^ k → bit_or (x * 2 ^ k) y ≡ x * 2 ^ k + y
bit_or-disjoint k x y h =
    bit_or_split k (x * 2 ^ k) y
    ∙ rw (
      div_multiple x k,
      mod_multiple x k,
      div-eq_of_lt h,
      mod-eq_of_lt h,
      bit_or-zero x,
      zero-bit_or y,
    )

pub pow_add : (m k n : ℕ) → m + k ≡ n → 2 ^ m * 2 ^ k ≡ 2 ^ n
pow_add m zero n e = let e' : m ≡ n = omega arith in rw e' (omega arith)
pow_add m (suc k) zero e = absurd (omega arith)
pow_add m (suc k) (suc n) e = omega (
  arith,
  pow-suc 2 k,
  pow-suc 2 n,
  pow_add m k n (omega arith),
  ap (λ (t : ℕ). 2 ^ m * t) (pow-suc 2 k),
)
