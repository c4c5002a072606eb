-- ===== src/Clock/Tests.antt =====
-- The theorems on clocks at a fast and a slow counter.
use unnamed.Prelude.{
  ℕ, ◌*◌, ◌/◌, ◌%◌, ◌+◌, ◌-◌, ◌^◌, ◌≤◌, ◌<◌, ◌≡◌, refl, none, some, Option, List, map, true, false,
  [], ◌∷◌, ◌==◌, if◌then◌else◌, arith,
}
use unnamed.Clock.{
  MultShift, Clocksource, compute_ms, cycles_to_ns, read_delta, init_best, is_continuous,
  is_high_res,
}
use unnamed.Clock.Scale.{exact_mult, cycles_to_ns-behind, cycles_to_ns-slow, read_delta-elapsed}
use unnamed.Clock.Best.{IsBest, init_best-IsBest}
use unnamed.Clock.Choice.{id_of, preferred, init_clocks-preferred}
use unnamed.Clock.Drivers.{Platform, Clocks, tsc_init, hpet_init, acpi_pm_init, init_clocks}

abbrev source : (id rating : ℕ) → Clocksource
source id rating = record {
  id = id;
  rating = rating;
  mask = 2 ^ 24 - 1;
  mult = 1;
  shift = 0;
  cycle_last = 0xff_fff0;
  flags = 1;
}

-- Three seconds of a counter at 2 GHz.
cycles_to_ns-behind_example :
    (ms : MultShift) × (compute_ms 2000000000 0 ≡ some ms)
    × (ms.mult ≡ exact_mult 2000000000)
    × (cycles_to_ns 6000000000 ms.mult ms.shift * 2000000000 ≤ 6000000000 * 1000000000)
cycles_to_ns-behind_example =
    cycles_to_ns-behind 2000000000 6000000000 (omega arith) (omega arith) (omega arith)

-- A second of the power-management timer.
cycles_to_ns-slow_example :
    (ms : MultShift) × (compute_ms 3579545 0 ≡ some ms)
    × (cycles_to_ns 3579545 ms.mult ms.shift < 3579545)
    × (3579545 ≤ 3579545 * 1000000000 / 3579545)
cycles_to_ns-slow_example =
    cycles_to_ns-slow 3579545 3579545 (omega arith) (omega arith) (omega arith) (omega arith)

read_delta-elapsed_example : read_delta ((0xff_fff0 + 0x30) % 2 ^ 24) (source 0 0) ≡ 0x30
read_delta-elapsed_example =
    read_delta-elapsed 24 0xff_fff0 0x30 (source 0 0) (omega arith) refl refl (omega arith)
      (omega arith)

-- Of two sources with the highest rating the first is chosen.
best_run :
    init_best none (source 0 1 ∷ source 1 7 ∷ source 2 7 ∷ source 3 4 ∷ []) ≡ some (source 1 7)
unfolding init_best
best_run = refl

init_best-IsBest_example :
    (winner : Clocksource) × (init_best none (source 0 1 ∷ source 1 7 ∷ source 2 7 ∷ [])
      ≡ some winner)
    × IsBest winner (source 0 1 ∷ source 1 7 ∷ source 2 7 ∷ [])
init_best-IsBest_example = init_best-IsBest none (source 0 1) (source 1 7 ∷ source 2 7 ∷ [])

-- A machine with all three clocks: 2.5 GHz, a period of 10^8 femtoseconds, and a timer of 24 bits.
abbrev platform : Platform
platform = record {
  tsc_frequency = some 2500000000;
  hpet_table = some (0, 0xfed0_0000);
  fadt = some (0x608, 3);
  memory_slide = 0x1000_0000;
  system_memory = 0;
}

abbrev off : Clocks
off = record { sources = []; best = none; regs = λ a. if a == 0x1_0ed0_0004 then 100000000 else 0 }

ratings : Option Clocks → Option (List ℕ)
ratings none = none
ratings (some c) = some (map (λ s. s.rating) c.sources)

masks : Option Clocksource → Option ℕ
masks none = none
masks (some cs) = some cs.mask

best_of : Option Clocks → Option Clocksource
best_of none = none
best_of (some c) = c.best

drivers_run : ratings (init_clocks platform 1 2 3 off) ≡ some (300 ∷ 200 ∷ 100 ∷ [])
unfolding ratings init_clocks tsc_init hpet_init acpi_pm_init compute_ms
drivers_run = refl

tsc_wins : masks (best_of (init_clocks platform 1 2 3 off)) ≡ some (2 ^ 64 - 1)
unfolding masks best_of init_clocks init_best tsc_init hpet_init acpi_pm_init compute_ms
tsc_wins = refl

flags_run : is_continuous (source 0 1) ≡ true
unfolding is_continuous
flags_run = refl

high_res_run : is_high_res (source 0 1) ≡ false
unfolding is_high_res
high_res_run = refl

-- Without the frequency of the boot loader the HPET is the best.
abbrev without_tsc : Platform
without_tsc = record platform { tsc_frequency = none }

init_clocks-preferred_example :
    (d : Clocks) × (init_clocks without_tsc 1 2 3 off ≡ some d)
    × (id_of d.best ≡ preferred false true true 1 2 3)
init_clocks-preferred_example = init_clocks-preferred without_tsc 1 2 3 off refl refl (λ _. refl)
