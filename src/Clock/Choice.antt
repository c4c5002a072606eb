-- ===== src/Clock/Choice.antt =====
-- Which clock source is the best after `clocksource::init` of kernel/drivers/clocksource.cpp, by
-- what the drivers find.
use mathlib.Core.Path.{subst}
use unnamed.Prelude.{
  ℕ, ◌/◌, ◌%◌, ◌^◌, ◌≡◌, refl, ap, sym, ◌∙◌, Bool, true, false, Bool-cases, Option-cases, inl, inr,
  Option, none, some, [], ◌∷◌, ◌++◌, ◌==◌, if◌then◌else◌, not,
}
use unnamed.Prelude.Words.{add64}
use unnamed.Clock.{Clocksource, compute_ms, init_best, select}
use unnamed.Clock.Drivers.{
  Platform, Clocks, register_clocksource, hpet_enable, source_of, registered, tsc_init, hpet_init,
  acpi_pm_init, init_clocks, tsc_register, hpet_register,
}

-- The frequency of the boot loader, in the 32 bits that are kept of it, is not zero.
abbrev pub has_tsc : Platform → Bool
has_tsc p = elim p.tsc_frequency [ none ↦ false | some frequency ↦ not (frequency % 2 ^ 32 == 0) ]

-- The period of the counter, from its registers before the start; zero without a usable table.
abbrev pub hpet_period : Platform → (regs : ℕ → ℕ) → ℕ
hpet_period p regs = elim p.hpet_table [
  | none ↦ 0
  | some (space, phys) ↦
      if space == p.system_memory then regs (add64 (add64 phys p.memory_slide) 4) else 0
]

-- The port of the timer, in its 16 bits, is not zero.
abbrev pub has_acpi_pm : Platform → Bool
has_acpi_pm p = elim p.fadt [ none ↦ false | some (port, width) ↦ not (port % 2 ^ 16 == 0) ]

-- The first of the three that is there.
abbrev pub preferred : (tsc hpet acpi_pm : Bool) (a b c : ℕ) → Option ℕ
preferred true hpet acpi_pm a b c = some a
preferred false true acpi_pm a b c = some b
preferred false false true a b c = some c
preferred false false false a b c = none

-- A driver that finds its clock registers one source, any other none.
Offered : Bool → (id rating : ℕ) → Clocks → Clocks → Type 0
Offered false id rating c d = d.sources ≡ c.sources
Offered true id rating c d =
    (cs : Clocksource) × (cs.id ≡ id) × (cs.rating ≡ rating) × (d.sources ≡ c.sources ++ cs ∷ [])

abbrev Offers : Bool → (id rating : ℕ) → Clocks → (regs : ℕ → ℕ) → Option Clocks → Type 0
Offers has id rating c regs r =
    (d : Clocks) × (r ≡ some d) × (d.regs ≡ regs) × (d.best ≡ c.best) × Offered has id rating c d

registered-source :
    (cs : Clocksource) (c c' : Clocks)
    → c'.best ≡ c.best
    → c'.sources ≡ c.sources
    → Offers true cs.id cs.rating c c'.regs (registered c' (some cs))
unfolding Offered
registered-source cs c c' best sources =
    (register_clocksource cs c', refl, refl, best, (cs, refl, refl, ap (λ l. l ++ cs ∷ []) sources))

registered-Offers :
    (id rating mask flags freq_hz : ℕ) (c c' : Clocks)
    → c'.best ≡ c.best
    → c'.sources ≡ c.sources
    → (freq_hz == 0) ≡ false
    → Offers true id rating c c'.regs
        (registered c' (source_of id rating mask flags (compute_ms freq_hz 0)))
unfolding compute_ms
registered-Offers id rating mask flags freq_hz c c' best sources some_freq =
    rw some_freq (registered-source _ c c' best sources)

keep-Offers : (id rating : ℕ) (c : Clocks) → Offers false id rating c c.regs (some c)
unfolding Offered
keep-Offers id rating c = (c, refl, refl, refl, refl)

tsc_init-Offers :
    (p : Platform) (id : ℕ) (c : Clocks) → Offers (has_tsc p) id 300 c c.regs (tsc_init p id c)
unfolding tsc_init tsc_register
tsc_init-Offers p id c = elim (Option-cases p.tsc_frequency) [
  | inl none_given ↦ rw none_given (keep-Offers id 300 c)
  | inr (f, given) ↦ rw given (elim (Bool-cases (f % 2 ^ 32 == 0)) [
    | inl zero_freq ↦ rw zero_freq (keep-Offers id 300 c)
    | inr some_freq ↦
        rw some_freq (registered-Offers id 300 _ _ (f % 2 ^ 32) c c refl refl some_freq)
  ])
]

hpet_init-Offers :
    (p : Platform) (id : ℕ) (c : Clocks)
    → ((hpet_period p c.regs == 0) ≡ false
        → (1000000000000000 / hpet_period p c.regs % 2 ^ 32 == 0) ≡ false)
    → (regs : ℕ → ℕ) × Offers (not (hpet_period p c.regs == 0)) id 200 c regs (hpet_init p id c)
unfolding hpet_init hpet_register
hpet_init-Offers p id c counts = elim (Option-cases p.hpet_table) [
  | inl none_given ↦ rw none_given (c.regs, keep-Offers id 200 c)
  | inr ((space, phys), given) ↦ elim (Bool-cases (space == p.system_memory)) [
    | inr elsewhere ↦ rw (given, elsewhere) (c.regs, keep-Offers id 200 c)
    | inl memory ↦
        let q : ℕ = c.regs (add64 (add64 phys p.memory_slide) 4) in
        let period : hpet_period p c.regs ≡ q = rw (given, memory) refl in
        elim (Bool-cases (q == 0)) [
          | inl no_period ↦ rw (given, memory, no_period) (c.regs, keep-Offers id 200 c)
          | inr has_period ↦
              let some_freq : (1000000000000000 / q % 2 ^ 32 == 0) ≡ false =
                ap (λ x. 1000000000000000 / x % 2 ^ 32 == 0) (sym period)
                ∙ counts (ap (λ x. x == 0) period ∙ has_period) in
              rw (given, memory, has_period)
                (
                  _,
                  registered-Offers id 200 _ _ (1000000000000000 / q % 2 ^ 32) c
                      (hpet_enable (add64 phys p.memory_slide) c) refl refl some_freq,
                )
        ]
  ]
]

-- The same, by the registers that the clocks had before an earlier driver.
hpet_init-later :
    (p : Platform) (id : ℕ) (c : Clocks) (before : ℕ → ℕ)
    → c.regs ≡ before
    → ((hpet_period p before == 0) ≡ false
        → (1000000000000000 / hpet_period p before % 2 ^ 32 == 0) ≡ false)
    → (regs : ℕ → ℕ) × Offers (not (hpet_period p before == 0)) id 200 c regs (hpet_init p id c)
hpet_init-later p id c before same =
    subst
      (λ r.
        ((hpet_period p r == 0) ≡ false
          → (1000000000000000 / hpet_period p r % 2 ^ 32 == 0) ≡ false)
        → (regs : ℕ → ℕ) × Offers (not (hpet_period p r == 0)) id 200 c regs (hpet_init p id c))
      same (hpet_init-Offers p id c)

acpi_pm_init-Offers :
    (p : Platform) (id : ℕ) (c : Clocks)
    → Offers (has_acpi_pm p) id 100 c c.regs (acpi_pm_init p id c)
unfolding acpi_pm_init
acpi_pm_init-Offers p id c = elim (Option-cases p.fadt) [
  | inl none_given ↦ rw none_given (keep-Offers id 100 c)
  | inr ((port, width), given) ↦ rw given (elim (Bool-cases (port % 2 ^ 16 == 0)) [
    | inl no_port ↦ rw no_port (keep-Offers id 100 c)
    | inr some_port ↦ rw some_port (registered-Offers id 100 _ _ 3579545 c c refl refl refl)
  ])
]

abbrev pub id_of : Option Clocksource → Option ℕ
id_of none = none
id_of (some cs) = some cs.id

-- What the choice makes of the sources that the drivers have registered, in their order.
init_best-preferred :
    (tsc hpet acpi_pm : Bool) (a b c : ℕ) (c0 c1 c2 c3 : Clocks)
    → c0.sources ≡ []
    → Offered tsc a 300 c0 c1
    → Offered hpet b 200 c1 c2
    → Offered acpi_pm c 100 c2 c3
    → id_of (init_best none c3.sources) ≡ preferred tsc hpet acpi_pm a b c
unfolding Offered init_best select
init_best-preferred true true true a b c c0 c1 c2 c3 e (x, ia, ra, s1) (y, ib, rb, s2)
      (z, ic, rc, s3) =
    rw (s3, s2, s1, e, ra, rb, rc) (ap some ia)
init_best-preferred true true false a b c c0 c1 c2 c3 e (x, ia, ra, s1) (y, ib, rb, s2) s3 =
    rw (s3, s2, s1, e, ra, rb) (ap some ia)
init_best-preferred true false true a b c c0 c1 c2 c3 e (x, ia, ra, s1) s2 (z, ic, rc, s3) =
    rw (s3, s2, s1, e, ra, rc) (ap some ia)
init_best-preferred true false false a b c c0 c1 c2 c3 e (x, ia, ra, s1) s2 s3 =
    rw (s3, s2, s1, e) (ap some ia)
init_best-preferred false true true a b c c0 c1 c2 c3 e s1 (y, ib, rb, s2) (z, ic, rc, s3) =
    rw (s3, s2, s1, e, rb, rc) (ap some ib)
init_best-preferred false true false a b c c0 c1 c2 c3 e s1 (y, ib, rb, s2) s3 =
    rw (s3, s2, s1, e) (ap some ib)
init_best-preferred false false true a b c c0 c1 c2 c3 e s1 s2 (z, ic, rc, s3) =
    rw (s3, s2, s1, e) (ap some ic)
init_best-preferred false false false a b c c0 c1 c2 c3 e s1 s2 s3 = rw (s3, s2, s1, e) refl

-- From no sources on, where the frequency of a HPET with a period, in the 32 bits that are kept of
-- it, is not zero, `clocksource::init` ends, and makes the counter of the processor the best source if the boot
-- loader gives a frequency, in its 32 bits, that is not zero; otherwise the HPET if its table is there, in
-- system memory, and its period is not zero; otherwise the power-management timer if it has a port, in
-- 16 bits, that is not zero; and otherwise none.
pub init_clocks-preferred :
    (p : Platform) (tsc hpet acpi_pm : ℕ) (c : Clocks)
    → c.sources ≡ []
    → c.best ≡ none
    → ((hpet_period p c.regs == 0) ≡ false
        → (1000000000000000 / hpet_period p c.regs % 2 ^ 32 == 0) ≡ false)
    → (d : Clocks) × (init_clocks p tsc hpet acpi_pm c ≡ some d)
      × (id_of d.best
          ≡ preferred
              (has_tsc p)
              (not (hpet_period p c.regs == 0))
              (has_acpi_pm p)
              tsc
              hpet
              acpi_pm)
unfolding init_clocks
init_clocks-preferred p tsc hpet acpi_pm c empty no_best counts =
    let (c1, r1, same, b1, o1) = tsc_init-Offers p tsc c in
    let (regs, (c2, r2, _, b2, o2)) = hpet_init-later p hpet c1 c.regs same counts in
    let (c3, r3, _, b3, o3) = acpi_pm_init-Offers p acpi_pm c2 in
    let fresh : c3.best ≡ none = b3 ∙ b2 ∙ b1 ∙ no_best in
    (
      record c3 { best = init_best c3.best c3.sources },
      rw (r1, r2, r3) refl,
      rw fresh (init_best-preferred _ _ _ tsc hpet acpi_pm c c1 c2 c3 empty o1 o2 o3),
    )
