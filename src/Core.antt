-- ===== src/Core.antt =====
-- kernel/kernel/core.cpp: the start of the kernel. What the machine and the ACPI library do of their
-- own is an argument.
pub mod Memory
pub mod Ready
pub mod Isolated
pub mod Started
mod TestTables
mod Tests
use unnamed.Prelude.{ℕ, Bool, Option, none, some, List, [], ◌∷◌}
use unnamed.Run.{Outcome, ok, halted, fault, out_of_fuel, Action, and_then, ◌>>=◌, ◌>>◌, pure, halt}
use unnamed.Machine.{memory_misaligned}
use unnamed.Pma.{init_pma}
use unnamed.Heap.{System, Sys, on_kernel, init_kernel_virtual_allocator, init_heap}
use unnamed.Percpu.{Cpu, setup_bsp_percpu}
use unnamed.Gdt.{GdtSegmentDescriptor, Loaded, init_gdt}
use unnamed.Idt.{IdtEntry, IdtRegister, init_idt}
use unnamed.Acpi.Early.{init_early_acpi}
use unnamed.Clock.Drivers.{Platform, Clocks, init_clocks}
use unnamed.Irqs
use unnamed.Irqs.{Madt, Tables}

-- The three calls of `kernel_main` that start the memory managers.
unfoldable pub init_memory : Sys (Unit {0})
init_memory = do on_kernel init_pma; init_kernel_virtual_allocator; init_heap

-- The state of the kernel. The tables and registers of the processor are there once they are loaded.
pub record World : Type 0 where
  pub system : System
  pub cpu : Cpu
  pub gdt : Option (List GdtSegmentDescriptor × Loaded)
  pub idt : ℕ → IdtEntry
  pub idtr : Option IdtRegister
  pub clocks : Clocks
  pub tables : Tables

-- The constructors of static objects, the addresses of static objects and of the interrupt stubs, and
-- what the ACPI library and `new` do when the drivers start.
pub record Environment : Type 0 where
  pub constructors : List (Action World (Unit {0}))
  pub bsp_percpu : ℕ
  pub gdt_address : ℕ
  pub idt_address : ℕ
  pub stubs : ℕ → ℕ
  pub uacpi_initialize : Action World Bool
  pub platform : Platform
  pub new_clocks : Action World (ℕ × ℕ × ℕ)
  pub find_madt : Action World (Bool × Madt)
  pub rounds : ℕ

abbrev pub run_constructors : List (Action World (Unit {0})) → Action World (Unit {0})
run_constructors [] = pure tt
run_constructors (c ∷ cs) = c >> run_constructors cs

module _ {A : Type 0} where
  abbrev pub system_outcome : World → Outcome System A → Outcome World A
  system_outcome w (ok x s) = ok x (record w { system = s })
  system_outcome w halted = halted
  system_outcome w fault = fault
  system_outcome w out_of_fuel = out_of_fuel

  abbrev pub on_system : Sys A → Action World A
  on_system c w = system_outcome w (c w.system)

-- The area is cleared, and with it the error code, which is the field of the kernel's state.
abbrev pub with_percpu : (bsp : ℕ) → World → World
with_percpu bsp w = record w {
  cpu = setup_bsp_percpu bsp w.cpu;
  system = record w.system { kernel = record w.system.kernel { error = memory_misaligned } };
}

abbrev pub with_gdt : (address : ℕ) → World → World
with_gdt address w = record w { gdt = some (init_gdt address) }

abbrev pub with_idt : (address : ℕ) (stubs : ℕ → ℕ) → World → World
with_idt address stubs w = record w {
  idt = (init_idt address stubs w.idt).0;
  idtr = some (init_idt address stubs w.idt).1;
}

abbrev pub modify : (World → World) → Action World (Unit {0})
modify f w = ok tt (f w)

-- `kernel_main` up to `init_heap`.
unfoldable pub start_managers : Environment → Action World (Unit {0})
unfolding init_memory
start_managers e = do
  run_constructors e.constructors
  modify (with_percpu e.bsp_percpu)
  modify (with_gdt e.gdt_address)
  modify (with_idt e.idt_address e.stubs)
  on_system init_memory

-- A division by zero in a driver is a fault.
abbrev pub clocks_started : World → Option Clocks → Outcome World (Unit {0})
clocks_started w none = fault
clocks_started w (some c) = ok tt (record w { clocks = c })

abbrev pub start_clocks : Platform → ℕ × ℕ × ℕ → Action World (Unit {0})
start_clocks p (tsc, hpet, acpi_pm) w = clocks_started w (init_clocks p tsc hpet acpi_pm w.clocks)

abbrev pub tables_outcome : World → Outcome Tables (Unit {0}) → Outcome World (Unit {0})
tables_outcome w (ok x t) = ok tt (record w { tables = t })
tables_outcome w halted = halted
tables_outcome w fault = fault
tables_outcome w out_of_fuel = out_of_fuel

abbrev pub start_irqs : (rounds : ℕ) → Bool × Madt → Action World (Unit {0})
start_irqs rounds (error, madt) w = tables_outcome w (Irqs.init error madt rounds w.tables)

-- The other calls, which use the managers.
unfoldable pub start_drivers : Environment → Action World (Unit {0})
start_drivers e = do
  error ← e.uacpi_initialize
  init_early_acpi error
  ids ← e.new_clocks
  start_clocks e.platform ids
  madt ← e.find_madt
  start_irqs e.rounds madt

-- In the end the processor is halted in a loop.
unfoldable pub kernel_main : Environment → Action World (Unit {0})
unfolding start_managers start_drivers
kernel_main e = do start_managers e; start_drivers e; halt
