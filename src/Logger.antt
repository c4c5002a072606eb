-- ===== src/Logger.antt =====
-- kernel/kernel/logger.cpp: a message is formatted into a buffer and written to port 0xE9. What the
-- formatter leaves in the buffer is an argument.
mod Tests
use unnamed.Prelude.{
  ℕ, zero, suc, ◌+◌, ◌-◌, ◌≤◌, ◌<◌, ◌≡◌, ◌≢◌, refl, ap, Bool-cases, inl, inr, List, [], ◌∷◌, ◌==◌,
  if◌then◌else◌, map, arith, false,
}
use native.Mathlib.Decide.{dec_lt}
use unnamed.Acpi.{PortOp, output, byte}

-- The loop, with `count` bytes of the buffer left: it stops at a zero byte.
unfoldable pub log_from : (buf : ℕ → ℕ) (count i : ℕ) → List PortOp
log_from buf zero i = []
log_from buf (suc n) i =
    let rest = output byte 0xe9 (buf i) ∷ log_from buf n (suc i) in if buf i == 0 then [] else rest

unfoldable pub log_to_e9 : (buf : ℕ → ℕ) (bufsz : ℕ) → List PortOp
unfolding log_from
log_to_e9 buf bufsz = log_from buf bufsz 0

abbrev pub with_byte : (ℕ → ℕ) → (i v : ℕ) → ℕ → ℕ
with_byte buf i v j = if j == i then v else buf j

-- The port instructions of a message, in order.
unfoldable pub debug : (printed : ℕ → ℕ) → List PortOp
unfolding log_to_e9
debug printed = log_to_e9 (with_byte printed (1024 - 1) 0) 1024

-- The bytes from `i` on.
abbrev pub bytes_from : (buf : ℕ → ℕ) (count i : ℕ) → List ℕ
bytes_from buf zero i = []
bytes_from buf (suc n) i = buf i ∷ bytes_from buf n (suc i)

-- The bytes up to the first zero.
pub record IsLogged (buf : ℕ → ℕ) (count i : ℕ) (ops : List PortOp) (n : ℕ) : Type 0 where
  pub all : ops ≡ map (output byte 0xe9) (bytes_from buf n i)
  pub before : (j : ℕ) → i ≤ j → j < i + n → buf j ≢ 0
  pub short : n ≤ count
  pub ends : n < count → buf (i + n) ≡ 0

log_from-IsLogged :
    (buf : ℕ → ℕ) (count i : ℕ) → (n : ℕ) × IsLogged buf count i (log_from buf count i) n
unfolding log_from
log_from-IsLogged buf zero i = (
  0,
  record {
    all = refl;
    before = λ j lo hi. absurd (omega arith);
    short = omega arith;
    ends = λ lt. absurd (omega arith);
  },
)
log_from-IsLogged buf (suc c) i = elim (Bool-cases (buf i == 0)) [
  | inl stop ↦ (
    0,
    record {
      all = rw stop refl;
      before = λ j lo hi. absurd (omega arith);
      short = omega arith;
      ends = λ lt. (let e : i + 0 ≡ i = omega arith in rw e (ground arith));
    },
  )
  | inr more ↦
      let (n, logged) = log_from-IsLogged buf c (suc i) in
      (
        suc n,
        record {
          all = rw more (ap (λ l. output byte 0xe9 (buf i) ∷ l) logged.all);
          before = λ j lo hi. elim (Bool-cases (j == i)) [
            | inl same ↦ (let e : j ≡ i = ground arith in rw e (ground arith))
            | inr other ↦ logged.before j (ground arith) (omega arith)
          ];
          short = omega (arith, logged.short);
          ends =
              λ lt. let e : i + suc n ≡ suc i + n = omega arith in rw e (logged.ends (omega arith));
        },
      )
]

unlike : (j n : ℕ) → j < n → (j == n) ≡ false
unlike j n lt = ground arith

-- Whatever the formatter leaves, a message writes to port 0xE9 the bytes of the buffer up to the first
-- zero, or the first 1023 if none of them is zero, and reads nothing behind the buffer.
pub debug-IsLogged :
    (printed : ℕ → ℕ)
    → (n : ℕ) × (n ≤ 1023)
      × (debug printed ≡ map (output byte 0xe9) (bytes_from (with_byte printed 1023 0) n 0))
      × ((j : ℕ) → j < n → printed j ≢ 0)
      × (n < 1023 → printed n ≡ 0)
unfolding debug
debug-IsLogged printed =
    let buf : ℕ → ℕ = with_byte printed 1023 0 in
    let (n, logged) = log_from-IsLogged buf 1024 0 in
    let few : n ≤ 1023 = elim (dec_lt 1023 n) [
      | yes many ↦ absurd (logged.before 1023 (omega arith) (omega arith) refl)
      | no short ↦ omega arith
    ] in
    (
      n,
      few,
      logged.all,
      λ j lt.
          let differs = unlike j 1023 (omega arith) in
          rw differs at (logged.before j (omega arith) (omega arith)),
      λ lt.
          let e : 0 + n ≡ n = omega arith in
          rw (e, unlike n 1023 lt) at (logged.ends (omega arith)),
    )
