-- ===== src/Acpi/Early.antt =====
-- kernel/acpi/acpi.cpp: where the ACPI tables begin, and the start of the ACPI library.
use unnamed.Prelude.{ℕ, ◌^◌, ◌<◌, ◌≡◌, refl, Bool, true, some, if◌then◌else◌, arith}
use unnamed.Prelude.Words.{sub64}
use unnamed.Run.{Action, pure, halt}
use unnamed.Acpi.{status_ok}
use unnamed.Acpi.Glue.{get_rsdp, kernel_map}

-- The boot loader's response holds an address of the direct map.
unfoldable pub get_rsdp_physical_pointer : (slide address : ℕ) → ℕ
get_rsdp_physical_pointer slide address = sub64 address slide

-- `error` says whether `uacpi_initialize` failed.
unfoldable pub init_early_acpi : {S : Type 0} → (error : Bool) → Action S (Unit {0})
init_early_acpi error = if error then halt else pure tt

-- The ACPI library is told an address that `uacpi_kernel_map` leads back to the boot loader's.
pub get_rsdp-kernel_map :
    (slide address len : ℕ)
    → slide < 2 ^ 64
    → address < 2 ^ 64
    → (phys : ℕ) × (get_rsdp (get_rsdp_physical_pointer slide address) true
        ≡ (status_ok, some phys))
      × (kernel_map slide phys len ≡ address)
unfolding get_rsdp_physical_pointer
get_rsdp-kernel_map slide address len s a = (sub64 address slide, refl, omega arith)
