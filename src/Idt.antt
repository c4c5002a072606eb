-- ===== src/Idt.antt =====
-- kernel/arch/x86_64/idt.hpp and idt.cpp: gate descriptors and the interrupt descriptor table.
pub mod Decode
pub mod Handler
pub mod Tests
use unnamed.Prelude.{
  ℕ, zero, suc, ◌+◌, ◌-◌, ◌*◌, ◌/◌, ◌%◌, ◌^◌, Bool, true, ◌==◌, bit_and, if◌then◌else◌,
}

pub record IdtEntry : Type 0 where
  pub offset0 : ℕ
  pub segment : ℕ
  pub ist : ℕ
  pub rsvd0 : ℕ
  pub gate_type : ℕ
  pub zero_bit : ℕ
  pub dpl : ℕ
  pub present : ℕ
  pub offset1 : ℕ
  pub offset2 : ℕ
  pub rsvd1 : ℕ

abbrev pub gate_interrupt : ℕ
gate_interrupt = 0xe

abbrev pub gate_trap : ℕ
gate_trap = 0xf

-- The enumerations are stored in fields of four and of two bits.
unfoldable pub create_idt_entry :
    (offset ist gate_type dpl : ℕ) (present : Bool) (segment : ℕ) → IdtEntry
create_idt_entry offset ist gate_type dpl present segment = record {
  offset0 = bit_and offset 0xffff % 2 ^ 16;
  segment = segment;
  ist = bit_and ist 7 % 2 ^ 3;
  rsvd0 = 0;
  gate_type = gate_type % 2 ^ 8 % 2 ^ 4;
  zero_bit = 0;
  dpl = dpl % 2 ^ 8 % 2 ^ 2;
  present = if present then 1 else 0;
  offset1 = bit_and (offset / 2 ^ 16) 0xffff % 2 ^ 16;
  offset2 = bit_and (offset / 2 ^ 32) 0xffff_ffff % 2 ^ 32;
  rsvd1 = 0;
}

-- The two words of the packed struct in memory.
unfoldable pub low_word : IdtEntry → ℕ
low_word e =
    e.offset0
    + e.segment * 2 ^ 16
    + e.ist * 2 ^ 32
    + e.rsvd0 * 2 ^ 35
    + e.gate_type * 2 ^ 40
    + e.zero_bit * 2 ^ 44
    + e.dpl * 2 ^ 45
    + e.present * 2 ^ 47
    + e.offset1 * 2 ^ 48

unfoldable pub high_word : IdtEntry → ℕ
high_word e = e.offset2 + e.rsvd1 * 2 ^ 32

-- The loop of `init_idt_table` from the entry `i`, for `count` rounds, over the array `idt`.
unfoldable pub init_from : (pointers : ℕ → ℕ) (count i : ℕ) (idt : ℕ → IdtEntry) → ℕ → IdtEntry
unfolding create_idt_entry
init_from pointers zero i idt = idt
init_from pointers (suc n) i idt =
    init_from pointers n (suc i)
      λ j. if j == i then create_idt_entry (pointers i) 0 gate_interrupt 0 true 8 else idt j

-- `init_idt_table`: the pointers are those of the assembly stubs.
unfoldable pub init_idt_table : (pointers : ℕ → ℕ) (idt : ℕ → IdtEntry) → ℕ → IdtEntry
unfolding init_from
init_idt_table pointers idt = init_from pointers 256 0 idt

-- What `lidt` is given: the address of the table and its last byte.
pub record IdtRegister : Type 0 where
  pub size : ℕ
  pub address : ℕ

-- `init_idt`, with the address of the table: the table, and the register that `flush_idt` loads.
unfoldable pub init_idt :
    (address : ℕ) (pointers : ℕ → ℕ) (idt : ℕ → IdtEntry) → (ℕ → IdtEntry) × IdtRegister
unfolding init_idt_table
init_idt address pointers idt = (
  init_idt_table pointers idt,
  record { size = (16 * 256 + 2 ^ 16 - 1) % 2 ^ 16; address = address },
)
