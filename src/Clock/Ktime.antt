-- ===== src/Clock/Ktime.antt =====
-- kernel/drivers/ktime.hpp: times in nanoseconds, as two's complement words of 64 bits.
use unnamed.Prelude.{ℕ, ◌^◌, ◌<◌, ◌≡◌, Bool, not, ltb, ◌==◌, arith}
use unnamed.Prelude.Words.{add64, sub64}
use unnamed.Clock.{Clocksource, cycles_to_ns}

abbrev pub Ktime : Type 0
Ktime = ℕ

abbrev pub from_cycles : (cycles : ℕ) → Clocksource → Ktime
from_cycles cycles cs = cycles_to_ns cycles cs.mult cs.shift

-- `cs` is the best source and `raw` what its `read` gives.
abbrev pub now : (cs : Clocksource) (raw : ℕ) → Ktime
now cs raw = from_cycles raw cs

abbrev pub plus : Ktime → Ktime → Ktime
plus = add64

abbrev pub minus : Ktime → Ktime → Ktime
minus = sub64

-- Signed order: the sign bit is flipped.
abbrev pub less : Ktime → Ktime → Bool
less a b = ltb (add64 a (2 ^ 63)) (add64 b (2 ^ 63))

abbrev pub less_or_equal : Ktime → Ktime → Bool
less_or_equal a b = not (less b a)

abbrev pub equal : Ktime → Ktime → Bool
equal a b = a == b

-- A time that is added is taken away again, wrap-around included.
pub minus-plus : (a b : Ktime) → a < 2 ^ 64 → b < 2 ^ 64 → minus (plus a b) b ≡ a
minus-plus a b la lb = omega arith
