-- ===== src/Clock/Scale.antt =====
-- How far the scaling of cycles to nanoseconds is right, and the difference of a wrapping counter.
use native.Mathlib.Nat.{
  mul-le-mul_right, mul-le-mul_left, mul_assoc, mul_right_comm, mod-mod_of_dvd, dvd_of_mod-eq-zero,
  mul-mod_right, add-mul-mod_self_left, mod-eq-sub-mod, mod-eq_of_lt, div-mul-le_self,
  le_of_mul-le-mul_right, le-div_iff_mul-le, div-lt_iff_lt-mul,
}
use unnamed.Prelude.{
  ℕ, ◌+◌, ◌-◌, ◌*◌, ◌/◌, ◌%◌, ◌^◌, ◌≤◌, ◌<◌, ◌≡◌, refl, ap, sym, ◌∙◌, zero, suc, some, ltb→lt,
  arith, Bool-cases, inl, inr, ltb, false, ◌==◌,
}
use unnamed.Prelude.Bits.{bit_and_low, pow_add}
use unnamed.Clock.{MultShift, Clocksource, compute_ms, scaled, cycles_to_ns, read_delta}

-- The multiplier before it is cut to 32 bits.
abbrev pub exact_mult : ℕ → ℕ
exact_mult freq_hz = 2 ^ 32 * 1000000000 / freq_hz

pub compute_ms_lem :
    (freq_hz : ℕ)
    → 0 < freq_hz
    → compute_ms freq_hz 0 ≡ some (record { mult = exact_mult freq_hz % 2 ^ 32; shift = 32 })
unfolding compute_ms scaled
compute_ms_lem freq_hz pos = (let ne : (freq_hz == 0) ≡ false = ground arith in rw ne)

module _ (freq_hz cycles : ℕ) (pos : 0 < freq_hz) where
  -- At a frequency above 10^9 Hz the multiplier is exact, and while the product stays below 2^64 the
  -- nanoseconds never run ahead of the cycles: times the frequency they are at most the cycles
  -- times 10^9.
  pub cycles_to_ns-behind :
      1000000000 < freq_hz
      → cycles * exact_mult freq_hz < 2 ^ 64
      → (ms : MultShift) × (compute_ms freq_hz 0 ≡ some ms)
        × (ms.mult ≡ exact_mult freq_hz)
        × (cycles_to_ns cycles ms.mult ms.shift * freq_hz ≤ cycles * 1000000000)
  unfolding cycles_to_ns
  cycles_to_ns-behind fast fits =
      let m = exact_mult freq_hz in
      let small : m < 2 ^ 32 = (div-lt_iff_lt-mul pos).1 (omega arith) in
      let exact : m % 2 ^ 32 ≡ m = mod-eq_of_lt small in
      let whole : cycles * m % 2 ^ 64 ≡ cycles * m = mod-eq_of_lt fits in
      let ns = cycles * m / 2 ^ 32 in
      let down : ns * 2 ^ 32 ≤ cycles * m = div-mul-le_self (cycles * m) (2 ^ 32) in
      let down_freq : ns * 2 ^ 32 * freq_hz ≤ cycles * m * freq_hz =
        mul-le-mul_right freq_hz down in
      let second : m * freq_hz ≤ 2 ^ 32 * 1000000000 =
        div-mul-le_self (2 ^ 32 * 1000000000) freq_hz in
      let all : cycles * (m * freq_hz) ≤ cycles * (2 ^ 32 * 1000000000) =
        mul-le-mul_left cycles second in
      let assoc : cycles * m * freq_hz ≡ cycles * (m * freq_hz) = mul_assoc cycles m freq_hz in
      let turn : ns * 2 ^ 32 * freq_hz ≡ ns * freq_hz * 2 ^ 32 =
        mul_right_comm ns (2 ^ 32) freq_hz in
      let bound : ns * freq_hz * 2 ^ 32 ≤ cycles * 1000000000 * 2 ^ 32 = omega arith in
      (
        record { mult = m; shift = 32 },
        compute_ms_lem freq_hz pos ∙ rw exact,
        refl,
        rw whole (le_of_mul-le-mul_right bound (omega arith)),
      )

  -- At a frequency of at most 10^9 Hz the multiplier loses its high bits: for fewer than 2^32
  -- cycles the nanoseconds are fewer than the cycles, though each takes a nanosecond or more.
  pub cycles_to_ns-slow :
      freq_hz ≤ 1000000000
      → 0 < cycles
      → cycles < 2 ^ 32
      → (ms : MultShift) × (compute_ms freq_hz 0 ≡ some ms)
        × (cycles_to_ns cycles ms.mult ms.shift < cycles)
        × (cycles ≤ cycles * 1000000000 / freq_hz)
  unfolding cycles_to_ns
  cycles_to_ns-slow slow some_cycles small =
      let m = exact_mult freq_hz % 2 ^ 32 in
      let cut : m ≤ 2 ^ 32 - 1 = (let lt : m < 2 ^ 32 = omega arith in omega arith) in
      let product : cycles * m ≤ cycles * (2 ^ 32 - 1) = mul-le-mul_left cycles cut in
      let whole : cycles * m % 2 ^ 64 ≡ cycles * m = mod-eq_of_lt (omega arith) in
      let long : cycles * freq_hz ≤ cycles * 1000000000 = mul-le-mul_left cycles slow in
      (
        record { mult = m; shift = 32 },
        compute_ms_lem freq_hz pos,
        rw whole ((div-lt_iff_lt-mul (omega arith)).1 (omega arith)),
        (le-div_iff_mul-le pos).1 long,
      )

-- The difference modulo `p`, the counter's range, on either side of the wrap.
turned :
    (p q last elapsed : ℕ)
    → p * q ≡ 2 ^ 64
    → last < p
    → elapsed < p
    → ((last + elapsed) % p + 2 ^ 64 - last) % p ≡ elapsed
turned p zero last elapsed split low few = absurd (omega arith)
turned p (suc q) last elapsed split low few = elim (Bool-cases (ltb (last + elapsed) p)) [
  | inl straight ↦
      let lt : last + elapsed < p = ltb→lt _ _ straight in
      let e : (last + elapsed) % p + 2 ^ 64 - last ≡ elapsed + p * suc q =
        rw (mod-eq_of_lt lt) (omega arith) in
      rw e (add-mul-mod_self_left elapsed p (suc q) ∙ mod-eq_of_lt few)
  | inr wrapped ↦
      let ge : p ≤ last + elapsed = ground arith in
      let now : (last + elapsed) % p ≡ last + elapsed - p =
        mod-eq-sub-mod ge ∙ mod-eq_of_lt (omega arith) in
      let e : (last + elapsed) % p + 2 ^ 64 - last ≡ elapsed + p * q = rw now (omega arith) in
      rw e (add-mul-mod_self_left elapsed p q ∙ mod-eq_of_lt few)
]

module _ (b last elapsed : ℕ) (cs : Clocksource) (width : b ≤ 64) where
  -- For a counter of b bits, at most 64, that has counted fewer than 2^b cycles since its last
  -- reading, the difference is that number, also where the counter has wrapped around.
  pub read_delta-elapsed :
      cs.mask ≡ 2 ^ b - 1
      → cs.cycle_last ≡ last
      → last < 2 ^ b
      → elapsed < 2 ^ b
      → read_delta ((last + elapsed) % 2 ^ b) cs ≡ elapsed
  unfolding read_delta
  read_delta-elapsed mask start low few =
      let p = 2 ^ b in
      let q = 2 ^ (64 - b) in
      let split : p * q ≡ 2 ^ 64 = pow_add b (64 - b) 64 (omega arith) in
      let divides : 2 ^ 64 % p ≡ 0 = ap (λ z. z % p) (sym split) ∙ mul-mod_right p q in
      rw
        (
          mask,
          start,
          bit_and_low b _,
          mod-mod_of_dvd p ((last + elapsed) % p + 2 ^ 64 - last) (dvd_of_mod-eq-zero p divides),
        )
        (turned p q last elapsed split low few)
