-- ===== src/Irqs/Init.antt =====
-- `irqs::init` of kernel/kernel/irqs/irqs.cpp: the search for the MADT, and the walk over it.
use unnamed.Prelude.{
  ℕ, ◌+◌, ◌^◌, ◌≤◌, ◌<◌, ◌≡◌, refl, Bool, true, false, ◌||◌, List, ◌==◌, if◌then◌else◌, Bool-cases,
  inl, inr, length,
}
use unnamed.Run.{ok, halted}
use unnamed.Irqs.{Madt, Tables, entries_size, init}
use unnamed.Irqs.Walk.{AreDistinct, Follow, HasRoom, collected, load_entries-collected}

-- A table that the walk gets through: its entries follow one another at the offsets, each of positive
-- length, it is shorter than 2^64 - 256 bytes, and the types of the `switch` are different. There are
-- more rounds than the table has bytes, and memory for as many elements more in each vector as the table has
-- entries.
pub record IsWalked (madt : Madt) (rounds : ℕ) (os : List ℕ) (t : Tables) : Type 0 where
  pub distinct : AreDistinct madt
  pub small : entries_size madt + 256 ≤ 2 ^ 64
  pub follow : Follow madt (entries_size madt) 0 os
  pub enough : entries_size madt < rounds
  pub room : HasRoom t (length os)

-- If the ACPI library reports an error or leaves a null address, `init` stops the machine. Otherwise, where
-- the entries of the table follow one another, each of positive length, it returns with the entries
-- of each type that it knows in the vector of that type, in the order of the table. Such a table is shorter
-- than 2^64 - 256 bytes, the types are different, there are more rounds than it has bytes, and there is
-- memory for its entries in each vector.
pub init-collected :
    (madt : Madt) (error : Bool) (rounds : ℕ) (os : List ℕ) (t : Tables)
    → ((error || (madt.virt_addr == 0)) ≡ false → IsWalked madt rounds os t)
    → init error madt rounds t
      ≡ (if error || (madt.virt_addr == 0) then halted else ok tt (collected madt os t))
unfolding init
init-collected madt true rounds os t walked = refl
init-collected madt false rounds os t walked = elim (Bool-cases (madt.virt_addr == 0)) [
  | inl null ↦ rw null refl
  | inr there ↦
      let w = walked there in
      rw there (load_entries-collected madt w.distinct rounds os t w.small w.follow w.enough w.room)
]
