-- ===== src/Vmm/Entries.antt =====
-- What the words of a page table mean to the processor, and what the model writes there.
use native.Mathlib.Nat.{div-eq_of_lt, mod-eq_of_lt}
use unnamed.Prelude.{
  ℕ, ◌+◌, ◌-◌, ◌*◌, ◌/◌, ◌%◌, ◌^◌, ◌<◌, ◌≡◌, refl, ap, ◌∙◌, zero, suc, ◌&&◌, Bool, true, false, not,
  bit_and, bit_or, arith, Option, none, some, ◌==◌, ==_iff, if◌then◌else◌,
}
use unnamed.Prelude.Bits.{
  bit_and_low, bit_and_high, bit_or_split, bit_or-disjoint, bit_or-zero, pow-pos, zero-bit_or,
}
use unnamed.Helpers.{is_flag_set}
use unnamed.Vmm.{va_index, entry_flags, ppn_mask}

-- The present bit, and the physical page.
abbrev pub is_present : ℕ → Bool
is_present e = e % 2 == 1

abbrev pub frame : ℕ → ℕ
frame e = e / 4096 % 2 ^ 40 * 4096

-- The bit that makes an entry above the last level one of a large page.
abbrev pub is_large : ℕ → Bool
is_large e = e / 128 % 2 == 1

-- An entry that leads to a table and takes no permission away: it is not one of a large page, and is
-- writable, for the user, and executable.
abbrev pub IsOpen : ℕ → Type 0
IsOpen e = (is_large e ≡ false) × (e / 2 % 2 ≡ 1) × (e / 4 % 2 ≡ 1) × (e / 2 ^ 63 % 2 ≡ 0)

-- The entry `x` with the permissions that `e`, an entry on the way to it, leaves.
unfoldable pub cut : (e x : ℕ) → ℕ
cut e x =
    x
    - 2 * (x / 2 % 2 * (1 - e / 2 % 2))
    - 4 * (x / 4 % 2 * (1 - e / 4 % 2))
    + 2 ^ 63 * ((1 - x / 2 ^ 63 % 2) * (e / 2 ^ 63 % 2))

abbrev pub allowed : (e : ℕ) → Option ℕ → Option ℕ
allowed e none = none
allowed e (some x) = some (cut e x)

pub allowed-IsOpen : (e : ℕ) (o : Option ℕ) → IsOpen e → allowed e o ≡ o
unfolding cut
allowed-IsOpen e none is = refl
allowed-IsOpen e (some x) (table, write, user, execute) =
    ap some (rw (write, user, execute) (omega arith))

-- The page number `v` in the large page of the entry `e`, as an entry for a page of its own; the
-- page has 512 ^ level of them.
unfoldable pub part_of_large : (level e v : ℕ) → ℕ
part_of_large level e v =
    e / 2 ^ 63 % 2 * 2 ^ 63
    + frame e / 2 ^ (12 + 9 * level) * 2 ^ (12 + 9 * level)
    + v % 2 ^ (9 * level) * 4096
    + (e % 4096 - 128)

pub va_index_lem : (shift va : ℕ) → va_index shift va ≡ va / 2 ^ shift % 512
unfolding va_index
va_index_lem shift va = bit_and_low 9 (va / 2 ^ shift)

pub present_lem : (e : ℕ) → bit_and e 1 ≡ e % 2
present_lem e = bit_and_low 1 e

pub frame_lem : (e : ℕ) → bit_and e ppn_mask ≡ frame e
frame_lem e = bit_and_high 12 40 e

-- The entry that leads to a table: page, present, writable, user.
abbrev pub table_entry : ℕ → ℕ
table_entry phys = bit_or (bit_or (bit_or (bit_and phys ppn_mask) 1) 2) 4

or_low : (q r s : ℕ) → r < 4096 → s < 4096 → bit_or (q * 4096 + r) s ≡ q * 4096 + bit_or r s
or_low q r s h k =
    let d : (q * 4096 + r) / 4096 ≡ q = omega arith in
    let m : (q * 4096 + r) % 4096 ≡ r = omega arith in
    let e : s / 4096 ≡ 0 = omega arith in
    let n : s % 4096 ≡ s = omega arith in
    bit_or_split 12 (q * 4096 + r) s ∙ rw (d, m, e, n, bit_or-zero q)

pub table_entry_lem : (phys : ℕ) → table_entry phys ≡ frame phys + 7
table_entry_lem phys =
    let q = phys / 4096 % 2 ^ 40 in
    rw (
      frame_lem phys,
      bit_or-disjoint 12 q 1 (omega arith),
      or_low q 1 2 (omega arith) (omega arith),
      or_low q 3 4 (omega arith) (omega arith),
    )

digit_test : (d p : ℕ) → d < 2 → 0 < p → (d * p == p) ≡ (d == 1)
digit_test zero (suc p) h pos = ground arith
digit_test (suc zero) (suc p) h pos = ground arith
digit_test (suc (suc d)) p h pos = absurd (omega arith)
digit_test zero zero h pos = absurd (omega arith)
digit_test (suc zero) zero h pos = absurd (omega arith)

-- A flag is tested at its digit.
flag_lem : (k flags : ℕ) → is_flag_set flags (2 ^ k) ≡ (flags / 2 ^ k % 2 == 1)
unfolding is_flag_set
flag_lem k flags =
    let e : 2 ^ k ≡ (2 ^ 1 - 1) * 2 ^ k = omega arith in
    let f : bit_and flags (2 ^ k) ≡ flags / 2 ^ k % 2 * 2 ^ k =
      ap (bit_and flags) e ∙ bit_and_high k 1 flags in
    rw f (digit_test (flags / 2 ^ k % 2) (2 ^ k) (omega arith) (pow-pos k))

abbrev digit : Bool → ℕ
digit b = if b then 1 else 0

digit_lem : (d : ℕ) → d < 2 → digit (d == 1) ≡ d
digit_lem zero h = refl
digit_lem (suc zero) h = refl
digit_lem (suc (suc d)) h = absurd (omega arith)

both : (Bool → Bool) → Bool
both p = p true && p false

both_sound : (p : Bool → Bool) (b : Bool) → both p ≡ true → p b ≡ true
unfolding both
both_sound p true h = ground arith
both_sound p false h = ground arith

-- The accumulated word, and its value, for the five tests.
abbrev accumulated : (write user through cache execute : Bool) → ℕ
accumulated w u t c x =
    let base : ℕ = if w then bit_or 1 2 else 1 in
    let with_user : ℕ = if u then bit_or base 4 else base in
    let with_through : ℕ = if t then bit_or with_user 8 else with_user in
    let with_cache : ℕ = if c then bit_or with_through 16 else with_through in
    if not x then bit_or with_cache (2 ^ 63) else with_cache

abbrev summed : (write user through cache execute : Bool) → ℕ
summed w u t c x =
    digit (not x) * 2 ^ 63 + (1 + 2 * digit w + 4 * digit u + 8 * digit t + 16 * digit c)

flags_table :
    both (λ w.
      both (λ u. both (λ t. both (λ c. both (λ x. accumulated w u t c x == summed w u t c x)))))
    ≡ true
unfolding both
flags_table = refl

accumulated_lem : (w u t c x : Bool) → accumulated w u t c x ≡ summed w u t c x
accumulated_lem w u t c x =
    (==_iff _ _).0 (
      both_sound _ x
        (both_sound _ c (both_sound _ t (both_sound _ u (both_sound _ w flags_table)))))

-- The permission bits of the page: those below the page number, and the highest.
abbrev pub low_flags : ℕ → ℕ
low_flags flags =
    1 + 2 * (flags / 2 % 2) + 4 * (flags / 8 % 2) + 8 * (flags / 32 % 2) + 16 * (flags / 16 % 2)

digit-not : (d : ℕ) → d < 2 → digit (not (d == 1)) ≡ 1 - d
digit-not zero h = refl
digit-not (suc zero) h = refl
digit-not (suc (suc d)) h = absurd (omega arith)

pub entry_flags_lem :
    (flags : ℕ) → entry_flags flags ≡ (1 - flags / 4 % 2) * 2 ^ 63 + low_flags flags
unfolding entry_flags
entry_flags_lem flags =
    rw (flag_lem 1 flags, flag_lem 2 flags, flag_lem 3 flags, flag_lem 4 flags, flag_lem 5 flags)
      (accumulated_lem (flags / 2 % 2 == 1) (flags / 8 % 2 == 1) (flags / 32 % 2 == 1)
          (flags / 16 % 2 == 1) (flags / 4 % 2 == 1)
        ∙ omega (
          arith,
          digit-not (flags / 4 % 2) (omega arith),
          digit_lem (flags / 2 % 2) (omega arith),
          digit_lem (flags / 8 % 2) (omega arith),
          digit_lem (flags / 32 % 2) (omega arith),
          digit_lem (flags / 16 % 2) (omega arith),
        ))

or_page :
    (q h low : ℕ)
    → q < 2 ^ 40
    → low < 4096
    → bit_or (q * 4096) (h * 2 ^ 63 + low) ≡ h * 2 ^ 63 + q * 4096 + low
or_page q h low qs ls =
    let d : (h * 2 ^ 63 + low) / 4096 ≡ h * 2 ^ 51 = omega arith in
    let m : (h * 2 ^ 63 + low) % 4096 ≡ low = omega arith in
    let e : q * 4096 / 4096 ≡ q = omega arith in
    let n : q * 4096 % 4096 ≡ 0 = omega arith in
    let d' : h * 2 ^ 51 / 2 ^ 40 ≡ h * 2 ^ 11 = omega arith in
    let m' : h * 2 ^ 51 % 2 ^ 40 ≡ 0 = omega arith in
    bit_or_split 12 (q * 4096) (h * 2 ^ 63 + low)
    ∙ rw
        (
          d,
          m,
          e,
          n,
          zero-bit_or low,
          bit_or_split 40 q (h * 2 ^ 51),
          d',
          m',
          div-eq_of_lt qs,
          mod-eq_of_lt qs,
          zero-bit_or (h * 2 ^ 11),
          bit_or-zero q,
        )
        (omega arith)

abbrev pub page_entry : (phys flags : ℕ) → ℕ
page_entry phys flags = bit_or (bit_and phys ppn_mask) (entry_flags flags)

pub page_entry_lem :
    (phys flags : ℕ)
    → page_entry phys flags ≡ (1 - flags / 4 % 2) * 2 ^ 63 + frame phys + low_flags flags
page_entry_lem phys flags =
    rw (frame_lem phys, entry_flags_lem flags)
      (or_page (phys / 4096 % 2 ^ 40) (1 - flags / 4 % 2) (low_flags flags) (omega arith)
        (omega arith))
