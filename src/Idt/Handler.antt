-- ===== src/Idt/Handler.antt =====
-- kernel/arch/x86_64/registers.hpp, and the common handler of kernel/arch/x86_64/idt.cpp.
use mathlib.Core.List.{append_assoc}
use unnamed.Prelude.{
  ℕ, true, false, ◌<◌, ◌≤◌, ◌≡◌, refl, length, List, [], ◌∷◌, ◌++◌, ltb, if◌then◌else◌, arith,
}
use unnamed.Run.{ok, halted, Action, ◌>>◌, pure, halt}

-- The words that a stub pushes, from the lowest address on.
pub record Registers : Type 0 where
  pub es : ℕ
  pub ds : ℕ
  pub r15 : ℕ
  pub r14 : ℕ
  pub r13 : ℕ
  pub r12 : ℕ
  pub r11 : ℕ
  pub r10 : ℕ
  pub r9 : ℕ
  pub r8 : ℕ
  pub rdi : ℕ
  pub rsi : ℕ
  pub rbp : ℕ
  pub rdx : ℕ
  pub rcx : ℕ
  pub rbx : ℕ
  pub rax : ℕ
  pub interrupt_number : ℕ
  pub error_code : ℕ
  pub rip : ℕ
  pub cs : ℕ
  pub rflags : ℕ
  pub original_rsp : ℕ
  pub ss : ℕ

-- The messages so far, each by the numbers that it prints; the first one first.
abbrev pub Log : Type 0
Log = List (List ℕ)

abbrev pub debug : List ℕ → Action Log (Unit {0})
debug numbers log = ok tt (log ++ numbers ∷ [])

unfoldable pub print_registers : Registers → Action Log (Unit {0})
print_registers r = do
  debug []
  debug (r.rax ∷ r.rbx ∷ r.rcx ∷ r.rdx ∷ [])
  debug (r.rsi ∷ r.rdi ∷ r.rbp ∷ r.original_rsp ∷ [])
  debug (r.r8 ∷ r.r9 ∷ r.r10 ∷ r.r11 ∷ [])
  debug (r.r12 ∷ r.r13 ∷ r.r14 ∷ r.r15 ∷ [])
  debug (r.es ∷ r.ds ∷ [])
  debug (r.cs ∷ r.ss ∷ r.rflags ∷ [])
  debug (r.rip ∷ r.interrupt_number ∷ r.error_code ∷ [])
  debug []

-- An exception of the processor stops the machine.
unfoldable pub interrupt_handler : Registers → Action Log (Unit {0})
unfolding print_registers
interrupt_handler r = do
  debug (r.interrupt_number ∷ [])
  print_registers r
  (if ltb r.interrupt_number 32 then halt else pure tt)

-- The handler stops the machine at an exception, and returns after any other interrupt, with ten messages
-- more.
pub interrupt_handler-stops :
    (r : Registers) (log : Log)
    → (r.interrupt_number < 32 → interrupt_handler r log ≡ halted)
      × (32 ≤ r.interrupt_number
          → (lines : Log) × (length lines ≡ 10) × (interrupt_handler r log ≡ ok tt (log ++ lines)))
unfolding interrupt_handler
interrupt_handler-stops r log = (
  λ exception. let test : ltb r.interrupt_number 32 ≡ true = ground arith in rw test refl,
  λ other.
      let test : ltb r.interrupt_number 32 ≡ false = ground arith in
      (
        (r.interrupt_number ∷ [])
            ∷ []
            ∷ (r.rax ∷ r.rbx ∷ r.rcx ∷ r.rdx ∷ [])
            ∷ (r.rsi ∷ r.rdi ∷ r.rbp ∷ r.original_rsp ∷ [])
            ∷ (r.r8 ∷ r.r9 ∷ r.r10 ∷ r.r11 ∷ [])
            ∷ (r.r12 ∷ r.r13 ∷ r.r14 ∷ r.r15 ∷ [])
            ∷ (r.es ∷ r.ds ∷ [])
            ∷ (r.cs ∷ r.ss ∷ r.rflags ∷ [])
            ∷ (r.rip ∷ r.interrupt_number ∷ r.error_code ∷ [])
            ∷ []
            ∷ [],
        refl,
        simp (test, append_assoc),
      ),
)
