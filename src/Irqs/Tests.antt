-- ===== src/Irqs/Tests.antt =====
-- A MADT of four entries, one of them of a type that is not handled, and an empty entry.
use unnamed.Prelude.{ℕ, ◌≡◌, refl, false, ltb, [], ◌∷◌, arith, ◌==◌, if◌then◌else◌}
use unnamed.Irqs.{Madt, Tables, init, load_entries, entries_size, entry_address}
use unnamed.Run.{ok, out_of_fuel}
use unnamed.Irqs.Init.{IsWalked, init-collected}
use unnamed.Irqs.Walk.{AreDistinct, Follow, of_type, collected, IsOther, load_entries-endless}

abbrev pub layout : (type_of length_of : ℕ → ℕ) → Madt
layout type_of length_of = record {
  type_lapic = 0;
  type_ioapic = 1;
  type_interrupt_source_override = 2;
  type_lapic_nmi = 4;
  sizeof_hdr = 36;
  sizeof_madt = 44;
  virt_addr = 4000;
  hdr_length = 82;
  type_of = type_of;
  length_of = length_of;
}

abbrev pub madt : Madt
madt =
    layout (λ a. if a == 4044 then 0 else if a == 4052 then 1 else if a == 4064 then 4 else 5)
      (λ a. if a == 4044 then 8 else if a == 4052 then 12 else if a == 4064 then 6 else 12)

abbrev pub no_tables : Tables
no_tables = record {
  lapic_table = [];
  lapic_nmi_table = [];
  interrupt_source_override_table = [];
  ioapic_table = [];
  has_room = λ n. ltb n 8;
}

abbrev filled : Tables
filled = record {
  lapic_table = 4044 ∷ [];
  lapic_nmi_table = 4064 ∷ [];
  interrupt_source_override_table = [];
  ioapic_table = 4052 ∷ [];
  has_room = λ n. ltb n 8;
}

madt-AreDistinct : AreDistinct madt
madt-AreDistinct = record {
  lapic_nmi = omega arith;
  lapic_iso = omega arith;
  lapic_ioapic = omega arith;
  nmi_iso = omega arith;
  nmi_ioapic = omega arith;
  iso_ioapic = omega arith;
}

offsets : Follow madt 38 0 (0 ∷ 8 ∷ 20 ∷ 26 ∷ [])
unfolding entry_address
offsets = (
  refl,
  omega arith,
  omega arith,
  omega arith,
  (
    refl,
    omega arith,
    omega arith,
    omega arith,
    (
      refl,
      omega arith,
      omega arith,
      omega arith,
      (refl, omega arith, omega arith, omega arith, omega arith),
    ),
  ),
)

madt-IsWalked : IsWalked madt 39 (0 ∷ 8 ∷ 20 ∷ 26 ∷ []) no_tables
unfolding entries_size
madt-IsWalked = record {
  distinct = madt-AreDistinct;
  small = omega arith;
  follow = offsets;
  enough = omega arith;
  room = (λ n lt. ground arith, λ n lt. ground arith, λ n lt. ground arith, λ n lt. ground arith);
}

init-collected_example : init false madt 39 no_tables ≡ ok tt filled
unfolding collected of_type entry_address
init-collected_example =
    init-collected madt false 39 (0 ∷ 8 ∷ 20 ∷ 26 ∷ []) no_tables (λ e. madt-IsWalked)

-- Entries of a type that is not handled.
unknown-IsOther : IsOther (layout (λ _. 5) (λ _. 0)) (entry_address (layout (λ _. 5) (λ _. 0)) 0)
unknown-IsOther = record {
  lapic = omega arith;
  lapic_nmi = omega arith;
  iso = omega arith;
  ioapic = omega arith;
}

load_entries-endless_example : load_entries (layout (λ _. 5) (λ _. 0)) 1000 no_tables ≡ out_of_fuel
unfolding entries_size
load_entries-endless_example =
    load_entries-endless (layout (λ _. 5) (λ _. 0)) 1000 no_tables (omega arith) refl
      unknown-IsOther
