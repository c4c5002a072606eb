-- ===== src/Machine.antt =====
-- What the memory managers run on: memory by 64-bit words, the boot loader's answers, the per-CPU
-- error slot (kernel/kernel/error.hpp, percpu.hpp, percpu.cpp), and commands on this state.
pub mod Ensures
pub use unnamed.Run.{
  Outcome, ok, halted, fault, out_of_fuel, Action, and_then, ◌>>=◌, ◌>>◌, pure, halt, assert,
}
use unnamed.Prelude.{ℕ, ◌%◌, Bool, true, false, ◌&&◌, Option, List, ◌==◌, if◌then◌else◌}

pub data ErrorCode : Type 0 where
  memory_misaligned incorrect_parameter out_of_memory map_fail : ErrorCode

-- One entry of the boot loader's memory map; `usable` says that its type is LIMINE_MEMMAP_USABLE.
pub record MemmapEntry : Type 0 where
  pub base : ℕ
  pub length : ℕ
  pub usable : Bool

-- What the boot loader fixes: its responses, the address of the allocator's `m_head`, and the
-- words that the processor can reach. `rounds` is the model's own: a loop along a list that goes on
-- for so many rounds counts as endless.
pub record Boot : Type 0 where
  pub memory_slide : ℕ
  pub kernel_base : ℕ
  pub memmap : Option (List MemmapEntry)
  pub head_addr : ℕ
  pub mapped : ℕ → Bool
  pub rounds : ℕ

pub record Kernel : Type 0 where
  pub boot : Boot
  pub open boot use *
  pub mem : ℕ → ℕ
  pub error : ErrorCode
  pub cr3 : ℕ
  -- the addresses given to `invlpg`, the latest first
  pub invalidated : List ℕ

abbrev pub Cmd : Type 0 → Type 0
Cmd A = Action Kernel A

abbrev pub write : (ℕ → ℕ) → ℕ → ℕ → ℕ → ℕ
write m a v b = if b == a then v else m b

-- A word can be read and written at an 8-aligned address that is mapped.
abbrev pub accessible : Boot → ℕ → Bool
accessible b a = a % 8 == 0 && b.mapped a

unfoldable pub load : ℕ → Cmd ℕ
load a k = if accessible k.boot a then ok (k.mem a) k else fault

unfoldable pub store : ℕ → ℕ → Cmd (Unit {0})
store a v k = if accessible k.boot a then ok tt (record k { mem = write k.mem a v }) else fault

unfoldable pub set_error : ErrorCode → Cmd (Unit {0})
set_error code k = ok tt (record k { error = code })

abbrev pub get_memory_slide : Cmd ℕ
get_memory_slide k = ok k.memory_slide k

abbrev pub get_kernel_base_address : Cmd ℕ
get_kernel_base_address k = ok k.kernel_base k

abbrev pub page_size : ℕ
page_size = 4096
