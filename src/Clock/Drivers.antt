-- ===== src/Clock/Drivers.antt =====
-- kernel/drivers/tsc.cpp, hpet.cpp and acpi_pm.cpp: when the clock sources register, and with what
-- numbers; and `clocksource::init`, which calls them. The tables that the boot loader and the ACPI
-- library find are arguments, as are the addresses that `new` gives, which stand for the objects.
use unnamed.Prelude.{
  ℕ, ◌/◌, ◌%◌, ◌^◌, Option, none, some, List, [], ◌∷◌, ◌++◌, ◌==◌, bit_or, if◌then◌else◌, not,
}
use unnamed.Prelude.Words.{add64}
use unnamed.Enums.{either}
use unnamed.Clock.{MultShift, Clocksource, compute_ms, continuous, high_res, init_best}

-- What the drivers find: the frequency of the boot loader's response; the address space and the
-- physical address of the HPET table; the port and the width of the timer in the FADT.
pub record Platform : Type 0 where
  pub tsc_frequency : Option ℕ
  pub hpet_table : Option (ℕ × ℕ)
  pub fadt : Option (ℕ × ℕ)
  pub memory_slide : ℕ
  -- ACPI_AS_ID_SYS_MEM
  pub system_memory : ℕ

-- The registered sources, the first one first, and the device registers of 32 bits by their addresses.
pub record Clocks : Type 0 where
  pub sources : List Clocksource
  pub best : Option Clocksource
  pub regs : ℕ → ℕ

abbrev pub register_clocksource : Clocksource → Clocks → Clocks
register_clocksource cs c = record c { sources = c.sources ++ cs ∷ [] }

-- The constructor, on the result of `compute_ms`; nothing is its division by zero.
abbrev pub source_of : (id rating mask flags : ℕ) → Option MultShift → Option Clocksource
source_of id rating mask flags none = none
source_of id rating mask flags (some ms) = some (record {
  id = id;
  rating = rating;
  mask = mask;
  mult = ms.mult;
  shift = ms.shift;
  cycle_last = 0;
  flags = flags;
})

abbrev pub registered : Clocks → Option Clocksource → Option Clocks
registered c none = none
registered c (some cs) = some (register_clocksource cs c)

abbrev pub tsc_source : (id freq_hz : ℕ) → Option Clocksource
tsc_source id freq_hz =
    source_of id 300 0xffff_ffff_ffff_ffff (either continuous high_res) (compute_ms freq_hz 0)

unfoldable pub tsc_register : (id freq_hz : ℕ) → Clocks → Option Clocks
tsc_register id freq_hz c = if freq_hz == 0 then some c else registered c (tsc_source id freq_hz)

-- `tsc::init`: the frequency is cut to 32 bits.
unfoldable pub tsc_init : Platform → (id : ℕ) → Clocks → Option Clocks
unfolding tsc_register
tsc_init p id c = elim p.tsc_frequency [
  | none ↦ some c
  | some frequency ↦ tsc_register id (frequency % 2 ^ 32) c
]

abbrev pub hpet_source : (id freq_hz : ℕ) → Option Clocksource
hpet_source id freq_hz = source_of id 200 0xffff_ffff continuous (compute_ms freq_hz 0)

abbrev pub set_reg : (ℕ → ℕ) → (a v : ℕ) → ℕ → ℕ
set_reg regs a v b = if b == a then v else regs b

-- The constructor of HpetClocksource also enables the counter, by the configuration register at 0x10.
abbrev pub hpet_enable : (base : ℕ) → Clocks → Clocks
hpet_enable base c = record c {
  regs = set_reg c.regs (add64 base 0x10) (bit_or (c.regs (add64 base 0x10)) 1);
}

-- With the period in femtoseconds.
unfoldable pub hpet_register : (id base period_fs : ℕ) → Clocks → Option Clocks
hpet_register id base period_fs c =
    if period_fs == 0
    then some c
    else registered (hpet_enable base c) (hpet_source id (1000000000000000 / period_fs % 2 ^ 32))

-- The period is the upper half of the capabilities.
unfoldable pub hpet_init : Platform → (id : ℕ) → Clocks → Option Clocks
unfolding hpet_register
hpet_init p id c = elim p.hpet_table [
  | none ↦ some c
  | some (space, phys) ↦
      if not (space == p.system_memory)
      then some c
      else hpet_register id (add64 phys p.memory_slide)
          (c.regs (add64 (add64 phys p.memory_slide) 4)) c
]

abbrev pub acpi_pm_source : (id width : ℕ) → Option Clocksource
acpi_pm_source id width =
    source_of id 100 (if width == 4 then 0xffff_ffff else 0xff_ffff) 0 (compute_ms 3579545 0)

-- The port is cut to 16 bits.
unfoldable pub acpi_pm_init : Platform → (id : ℕ) → Clocks → Option Clocks
acpi_pm_init p id c = elim p.fadt [
  | none ↦ some c
  | some (pm_tmr_blk, width) ↦
      if pm_tmr_blk % 2 ^ 16 == 0 then some c else registered c (acpi_pm_source id width)
]

abbrev pub and_then : Option Clocks → (Clocks → Option Clocks) → Option Clocks
and_then none f = none
and_then (some c) f = f c

-- `clocksource::init`, with the addresses of the objects.
unfoldable pub init_clocks : Platform → (tsc hpet acpi_pm : ℕ) → Clocks → Option Clocks
unfolding tsc_init hpet_init acpi_pm_init
init_clocks p tsc hpet acpi_pm c =
    and_then (and_then (and_then (tsc_init p tsc c) (hpet_init p hpet)) (acpi_pm_init p acpi_pm))
      λ d. some (record d { best = init_best d.best d.sources })
