-- ===== src/Core/TestTables.antt =====
-- Tables as a boot loader may leave them (kernel/kernel/core.cpp): one of each level, and a page.
use mathlib.Core.Option.{none-ne-some, some-injective}
use unnamed.Prelude.{
  ℕ, suc, ◌+◌, ◌*◌, ◌%◌, ◌≤◌, ◌<◌, ◌≡◌, refl, ap, sym, ◌∙◌, ◌⊎◌, inl, inr, Bool-cases, true, false,
  none, some, arith, ◌==◌, ==_iff, if◌then◌else◌,
}
use unnamed.Vmm.Entries.{is_present, IsOpen}
use unnamed.Vmm.Walk.{Owner, IsTable, IsTables, next_table}
use unnamed.Vmm.Tests.{boot, blocks}

abbrev pub tables_mem : ℕ → ℕ
tables_mem a =
    if a == 0x18800
    then 0x9007
    else if a == 0x19000
    then 0xa007
    else if a == 0x1a000
    then 0xb007
    else if a == 0x1b000
    then 0x8003
    else 0

abbrev pub tables_own : Owner
tables_own t =
    if t == 0x18000
    then some (3, 0)
    else if t == 0x19000
    then some (2, 256)
    else if t == 0x1a000
    then some (1, 131072)
    else if t == 0x1b000
    then some (0, 67108864)
    else none

-- The four tables, the first one at the top.
Owned : (t : ℕ) → ℕ × ℕ → Type 0
Owned t x =
    ((t ≡ 0x18000) × (x ≡ (3, 0)))
    ⊎ (((t ≡ 0x19000) × (x ≡ (2, 256)))
        ⊎ (((t ≡ 0x1a000) × (x ≡ (1, 131072))) ⊎ ((t ≡ 0x1b000) × (x ≡ (0, 67108864)))))

owned : (t : ℕ) (x : ℕ × ℕ) → tables_own t ≡ some x → Owned t x
unfolding Owned
owned t x o = elim (Bool-cases (t == 0x18000)) [
  | inl a ↦ inl ((==_iff _ _).0 a, sym (some-injective _ _ (rw a at o)))
  | inr a ↦ inr (elim (Bool-cases (t == 0x19000)) [
    | inl b ↦ inl ((==_iff _ _).0 b, sym (some-injective _ _ (rw (a, b) at o)))
    | inr b ↦ inr (elim (Bool-cases (t == 0x1a000)) [
      | inl c ↦ inl ((==_iff _ _).0 c, sym (some-injective _ _ (rw (a, b, c) at o)))
      | inr c ↦ inr (elim (Bool-cases (t == 0x1b000)) [
        | inl d ↦ ((==_iff _ _).0 d, sym (some-injective _ _ (rw (a, b, c, d) at o)))
        | inr d ↦ absurd (none-ne-some _ (rw (a, b, c, d) at o))
      ])
    ])
  ])
]

table_at : (t : ℕ) → t % 4096 ≡ 0 → 0x18000 ≤ t → t + 4096 ≤ 0x20000 → IsTable boot blocks t
table_at t al lo hi = record {
  aligned = al;
  ne_null = omega arith;
  fits = omega arith;
  reach = λ w from to. ground arith;
  apart = (omega arith, tt);
  no_head = omega arith;
}

page : (t l p : ℕ) → tables_own t ≡ some (l, p) → IsTable boot blocks t
unfolding Owned
page t l p o = elim (owned t (l, p) o) [
  | inl (e, x) ↦ table_at t (omega arith) (omega arith) (omega arith)
  | inr (inl (e, x)) ↦ table_at t (omega arith) (omega arith) (omega arith)
  | inr (inr (inl (e, x))) ↦ table_at t (omega arith) (omega arith) (omega arith)
  | inr (inr (inr (e, x))) ↦ table_at t (omega arith) (omega arith) (omega arith)
]

Child : (l p i e : ℕ) → Type 0
Child l p i e = IsOpen e × (tables_own (next_table 0x10000 e) ≡ some (l, p * 512 + i))

-- Only one entry of the table is present, at the index `at`.
Child-at :
    (t l p i at e : ℕ)
    → tables_mem (t + 8 * at) ≡ e
    → (i ≡ at → Child l p at e)
    → (((i == at) ≡ false) → tables_mem (t + 8 * i) ≡ 0)
    → is_present (tables_mem (t + 8 * i)) ≡ true
    → Child l p i (tables_mem (t + 8 * i))
Child-at t l p i at e found is other on = elim (Bool-cases (i == at)) [
  | inl here ↦ (let same = (==_iff _ _).0 here in rw (same, found) (is same))
  | inr away ↦ let zero = other away in absurd (let c : true ≡ false = sym on ∙ rw zero refl in cc)
]

child :
    (t l p i : ℕ)
    → tables_own t ≡ some (suc l, p)
    → i < 512
    → is_present (tables_mem (t + 8 * i)) ≡ true
    → Child l p i (tables_mem (t + 8 * i))
unfolding Owned Child
child t l p i o lt on = elim (owned t (suc l, p) o) [
  | inl (e, x) ↦
      let level : l ≡ 2 = (let s = ap (λ z. z.0) x in omega (arith, s)) in
      let number : p ≡ 0 = ap (λ z. z.1) x in
      rw (e, level, number)
        (Child-at 0x18000 2 0 i 256 0x9007 refl (λ s. ((refl, refl, refl, refl), refl))
          (λ away. ground arith) (rw e at on))
  | inr (inl (e, x)) ↦
      let level : l ≡ 1 = (let s = ap (λ z. z.0) x in omega (arith, s)) in
      let number : p ≡ 256 = ap (λ z. z.1) x in
      rw (e, level, number)
        (Child-at 0x19000 1 256 i 0 0xa007 refl (λ s. ((refl, refl, refl, refl), refl))
          (λ away. ground arith) (rw e at on))
  | inr (inr (inl (e, x))) ↦
      let level : l ≡ 0 = (let s = ap (λ z. z.0) x in omega (arith, s)) in
      let number : p ≡ 131072 = ap (λ z. z.1) x in
      rw (e, level, number)
        (Child-at 0x1a000 0 131072 i 0 0xb007 refl (λ s. ((refl, refl, refl, refl), refl))
          (λ away. ground arith) (rw e at on))
  | inr (inr (inr (e, x))) ↦ let s = ap (λ z. z.0) x in absurd (omega (arith, s))
]

pub four-IsTables : IsTables boot tables_mem blocks 0x18000 tables_own
unfolding Child
four-IsTables = record { top = refl; page = page; child = child; slide = refl }
