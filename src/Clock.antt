-- ===== src/Clock.antt =====
-- kernel/drivers/clocksource.hpp and clocksource.cpp: clock sources, the scaling of their cycles to
-- nanoseconds, and the choice of the best.
pub mod Scale
pub mod Best
pub mod Drivers
pub mod Choice
pub mod Ktime
mod Tests
use unnamed.Prelude.{
  Bool, not, ℕ, ◌*◌, ◌/◌, ◌%◌, ◌^◌, Option, none, some, List, [], ◌∷◌, ◌==◌, ltb, bit_and,
  if◌then◌else◌,
}
use unnamed.Prelude.Words.{mul64, sub64}

pub record MultShift : Type 0 where
  pub mult : ℕ
  pub shift : ℕ

-- A clock source by its numbers; `id` stands for the object and its name.
pub record Clocksource : Type 0 where
  pub id : ℕ
  pub rating : ℕ
  pub mask : ℕ
  pub mult : ℕ
  pub shift : ℕ
  pub cycle_last : ℕ
  pub flags : ℕ

-- Clocksource::Flags
abbrev pub continuous : ℕ
continuous = 1

abbrev pub high_res : ℕ
high_res = 2

unfoldable pub is_continuous : Clocksource → Bool
is_continuous cs = not (bit_and cs.flags continuous == 0)

unfoldable pub is_high_res : Clocksource → Bool
is_high_res cs = not (bit_and cs.flags high_res == 0)

-- `now` is what `read` gives.
unfoldable pub read_delta : (now : ℕ) → Clocksource → ℕ
read_delta now cs = bit_and (sub64 now cs.cycle_last) cs.mask

unfoldable pub update_cycle_last : (cycles : ℕ) → Clocksource → Clocksource
update_cycle_last cycles cs = record cs { cycle_last = cycles }

unfoldable pub cycles_to_ns : (cycles mult shift : ℕ) → ℕ
cycles_to_ns cycles mult shift = mul64 cycles mult / 2 ^ shift

abbrev pub compute_shift : ℕ
compute_shift = 32

scaled : (freq_hz shift : ℕ) → MultShift
scaled freq_hz shift = record {
  mult = mul64 (2 ^ shift % 2 ^ 64) 1000000000 / freq_hz % 2 ^ 32;
  shift = shift;
}

-- There is no result where the division by the frequency traps.
unfoldable pub compute_ms : (freq_hz shift : ℕ) → Option MultShift
unfolding scaled
compute_ms freq_hz shift =
    if freq_hz == 0
    then none
    else some (scaled freq_hz (if shift == 0 then compute_shift else shift))

-- The loop of `init` over the sources behind the first.
unfoldable pub select : (winner : Clocksource) → List Clocksource → Clocksource
select winner [] = winner
select winner (cs ∷ sources) = select (if ltb winner.rating cs.rating then cs else winner) sources

-- `best` after `init`, which leaves it alone where no source is registered.
unfoldable pub init_best : (best : Option Clocksource) → List Clocksource → Option Clocksource
unfolding select
init_best best [] = best
init_best best (cs ∷ sources) = some (select cs sources)
