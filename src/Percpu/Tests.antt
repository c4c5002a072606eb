-- ===== src/Percpu/Tests.antt =====
-- The per-CPU area at one address.
use unnamed.Prelude.{ℕ, ◌≡◌, ◌≢◌, refl, arith}
use unnamed.Machine.{memory_misaligned, out_of_memory, set_error, ok, Kernel}
use unnamed.Vmm.Tests.{kernel}
use unnamed.Percpu.{
  Cpu, Represents, rdmsr, setup_bsp_percpu, set_percpu_error, msr_gs_base, set_error-Represents,
}

abbrev pub cpu : Cpu
cpu = record { msr = λ r. (0, 0); slot = λ p. memory_misaligned }

gs_base_run : rdmsr msr_gs_base (setup_bsp_percpu 0xffff_ffff_8001_2340 cpu) ≡ 0xffff_ffff_8001_2340
unfolding rdmsr setup_bsp_percpu
gs_base_run = refl

set_error-Represents_example :
    Represents 0x1000 (setup_bsp_percpu 0x1000 cpu) (record kernel { error = memory_misaligned })
    × (Represents 0x1000 cpu kernel
        → (k' : Kernel) × (set_error out_of_memory kernel ≡ ok tt k')
          × Represents 0x1000 (set_percpu_error out_of_memory cpu) k'
          × ((q : ℕ) → q ≢ 0x1000 → (set_percpu_error out_of_memory cpu).slot q ≡ cpu.slot q))
set_error-Represents_example = set_error-Represents 0x1000 cpu kernel out_of_memory (omega arith)
