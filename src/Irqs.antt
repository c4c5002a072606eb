-- ===== src/Irqs.antt =====
-- kernel/kernel/irqs/irqs.cpp: the walk over the entries of the MADT, the ACPI table of interrupt
-- controllers. The layout of the table is that of the ACPI library's headers, an argument.
pub mod Walk
pub mod Init
pub mod Tests
use unnamed.Prelude.{ℕ, zero, suc, List, length, [], ◌∷◌, ◌++◌, ◌==◌, ltb, if◌then◌else◌, Bool}
use unnamed.Run.{ok, halted, fault, out_of_fuel, Action, and_then}
use unnamed.Prelude.Words.{add64, sub64}

-- The library's constants, and the table in memory: the type and the length in the entry header at
-- an address.
pub record Madt : Type 0 where
  pub type_lapic : ℕ
  pub type_ioapic : ℕ
  pub type_interrupt_source_override : ℕ
  pub type_lapic_nmi : ℕ
  pub sizeof_hdr : ℕ
  pub sizeof_madt : ℕ
  pub virt_addr : ℕ
  pub hdr_length : ℕ
  pub type_of : ℕ → ℕ
  pub length_of : ℕ → ℕ

-- The four vectors, with an entry for each copied structure: the address that it was copied from. `has_room`
-- says of a number of elements whether `new` gives a vector of so many the memory for one more.
pub record Tables : Type 0 where
  pub lapic_table : List ℕ
  pub lapic_nmi_table : List ℕ
  pub interrupt_source_override_table : List ℕ
  pub ioapic_table : List ℕ
  pub has_room : ℕ → Bool

-- `push_back`, which writes to null where there is no memory.
unfoldable pub push : List ℕ → (e : ℕ) → (List ℕ → Tables) → Action Tables (Unit {0})
push xs e set t = if t.has_room (length xs) then ok tt (set (xs ++ e ∷ [])) else fault

-- The `switch` with its handlers
unfoldable pub handle_entry : Madt → (e : ℕ) → Action Tables (Unit {0})
unfolding push
handle_entry madt e t =
    if madt.type_of e == madt.type_lapic
    then push t.lapic_table e (λ xs. record t { lapic_table = xs }) t
    else if madt.type_of e == madt.type_lapic_nmi
    then push t.lapic_nmi_table e (λ xs. record t { lapic_nmi_table = xs }) t
    else if madt.type_of e == madt.type_interrupt_source_override
    then push t.interrupt_source_override_table e
        (λ xs. record t { interrupt_source_override_table = xs }) t
    else if madt.type_of e == madt.type_ioapic
    then push t.ioapic_table e (λ xs. record t { ioapic_table = xs }) t
    else ok tt t

unfoldable pub entry_address : Madt → (read : ℕ) → ℕ
entry_address madt read = add64 (add64 madt.virt_addr madt.sizeof_madt) read

-- The loop, for a number of rounds at most.
unfoldable pub walk_entries : Madt → (rounds table_entries_size read : ℕ) → Action Tables (Unit {0})
unfolding entry_address handle_entry
walk_entries madt zero size read t = out_of_fuel
walk_entries madt (suc n) size read t =
    let e = entry_address madt read in
    let rest = walk_entries madt n size (add64 read (madt.length_of e)) in
    if ltb read size then and_then (handle_entry madt e t) (λ _. rest) else ok tt t

unfoldable pub entries_size : Madt → ℕ
entries_size madt = sub64 (sub64 madt.hdr_length madt.sizeof_hdr) 8

unfoldable pub load_entries : Madt → (rounds : ℕ) → Action Tables (Unit {0})
unfolding walk_entries entries_size
load_entries madt rounds = walk_entries madt rounds (entries_size madt) 0

-- `init`: the ACPI library says whether its search for the table failed; the address is in the table
-- that it found.
unfoldable pub init : (error : Bool) → Madt → (rounds : ℕ) → Action Tables (Unit {0})
unfolding load_entries
init error madt rounds t =
    if error then halted else if madt.virt_addr == 0 then halted else load_entries madt rounds t
