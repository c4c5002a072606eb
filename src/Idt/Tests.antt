-- ===== src/Idt/Tests.antt =====
-- The theorems on gates at single stubs.
use unnamed.Prelude.{ℕ, ◌+◌, ◌*◌, ◌≡◌, refl, true, arith}
use unnamed.Idt.{IdtEntry, create_idt_entry, low_word, high_word, gate_trap}
use unnamed.Idt.Decode.{IsGate, create_idt_entry-IsGate}

abbrev pub trap : IdtEntry
trap = create_idt_entry 0xffff_ffff_8012_3456 1 gate_trap 3 true 8

trap_words : (low_word trap ≡ 0x8012_ef01_0008_3456) × (high_word trap ≡ 0xffff_ffff)
unfolding create_idt_entry low_word high_word
trap_words = (refl, refl)

create_idt_entry-IsGate_example : IsGate trap 0xffff_ffff_8012_3456 8 1 0xf 3 1
create_idt_entry-IsGate_example =
    create_idt_entry-IsGate 0xffff_ffff_8012_3456 1 gate_trap 3 true 8 (omega arith)

-- Stubs of sixteen bytes each
abbrev stub : ℕ → ℕ
stub i = 0xffff_ffff_8000_0000 + 16 * i
