-- ===== src/Percpu.antt =====
-- kernel/kernel/percpu.cpp and kernel/arch/x86_64/msr.hpp: the per-CPU area, found by the GS base
-- register. The field `error` of Machine is the slot that this code reaches.
pub mod Tests
use unnamed.Prelude.{
  ℕ, ◌+◌, ◌*◌, ◌/◌, ◌%◌, ◌^◌, ◌<◌, ◌≡◌, ◌≢◌, refl, ◌∙◌, ◌==◌, if◌then◌else◌, bit_or, true, false,
  arith,
}
use unnamed.Prelude.Bits.{bit_or-disjoint}
use unnamed.Machine.{Kernel, ErrorCode, memory_misaligned, set_error, ok}

abbrev pub msr_gs_base : ℕ
msr_gs_base = 0xc000_0101

-- A model-specific register by its number, as the processor gives and takes it: the upper and the
-- lower half (`edx` and `eax`). And the areas, by their addresses.
pub record Cpu : Type 0 where
  pub msr : ℕ → ℕ × ℕ
  pub slot : ℕ → ErrorCode

unfoldable pub rdmsr : (msr : ℕ) → Cpu → ℕ
rdmsr msr c = let (high, low) = c.msr msr in bit_or (high * 2 ^ 32 % 2 ^ 64) low

unfoldable pub wrmsr : (msr value : ℕ) → Cpu → Cpu
wrmsr msr value c = record c {
  msr = λ r. if r == msr then (value / 2 ^ 32 % 2 ^ 32, value % 2 ^ 32) else c.msr r;
}

abbrev pub set_gsbase : (v : ℕ) → Cpu → Cpu
set_gsbase v = wrmsr msr_gs_base v

abbrev pub set_slot : (p : ℕ) → ErrorCode → Cpu → Cpu
set_slot p code c = record c { slot = λ q. if q == p then code else c.slot q }

-- `bsp` is the address of `bsp_percpu`. Zero bytes are the first of the error codes.
unfoldable pub setup_bsp_percpu : (bsp : ℕ) → Cpu → Cpu
unfolding wrmsr
setup_bsp_percpu bsp c = set_gsbase bsp (set_slot bsp memory_misaligned c)

unfoldable pub get_percpu : Cpu → ℕ
unfolding rdmsr
get_percpu c = rdmsr msr_gs_base c

unfoldable pub set_percpu_error : ErrorCode → Cpu → Cpu
unfolding get_percpu
set_percpu_error code c = set_slot (get_percpu c) code c

-- A register gives the word that was written, and no other register changes.
pub rdmsr-wrmsr :
    (msr value : ℕ) (c : Cpu)
    → value < 2 ^ 64
    → (rdmsr msr (wrmsr msr value c) ≡ value)
      × ((r : ℕ) → r ≢ msr → rdmsr r (wrmsr msr value c) ≡ rdmsr r c)
unfolding rdmsr wrmsr
rdmsr-wrmsr msr value c lt =
    let same : (msr == msr) ≡ true = ground arith in
    let high : value / 2 ^ 32 % 2 ^ 32 * 2 ^ 32 % 2 ^ 64 ≡ value / 2 ^ 32 * 2 ^ 32 = omega arith in
    (
      rw (same, high)
          (bit_or-disjoint 32 (value / 2 ^ 32) (value % 2 ^ 32) (omega arith) ∙ omega arith),
      λ r other. let differs : (r == msr) ≡ false = ground arith in rw differs refl,
    )

-- The processor with the per-CPU area of the kernel's model.
pub record Represents (bsp : ℕ) (c : Cpu) (k : Kernel) : Type 0 where
  pub found : get_percpu c ≡ bsp
  pub error : c.slot bsp ≡ k.error

-- After the set-up, and after every call of `set_error` since then, the area is found, its slot is the
-- field of the kernel's state, and `set_error` changes no other slot.
pub set_error-Represents :
    (bsp : ℕ) (c : Cpu) (k : Kernel) (code : ErrorCode)
    → bsp < 2 ^ 64
    → Represents bsp (setup_bsp_percpu bsp c) (record k { error = memory_misaligned })
      × (Represents bsp c k
          → (k' : Kernel) × (set_error code k ≡ ok tt k')
            × Represents bsp (set_percpu_error code c) k'
            × ((q : ℕ) → q ≢ bsp → (set_percpu_error code c).slot q ≡ c.slot q))
unfolding setup_bsp_percpu set_percpu_error get_percpu set_error
set_error-Represents bsp c k code lt =
    let same : (bsp == bsp) ≡ true = ground arith in
    (
      record {
        found = (rdmsr-wrmsr msr_gs_base bsp (set_slot bsp memory_misaligned c) lt).0;
        error = rw same refl;
      },
      λ r. (
        record k { error = code },
        refl,
        record { found = r.found; error = rw (r.found, same) refl },
        λ q other. let differs : (q == bsp) ≡ false = ground arith in rw (r.found, differs) refl,
      ),
    )
