-- ===== src/Acpi/Glue.antt =====
-- kernel/acpi/glue.cpp, the functions that the ACPI library calls besides those for ports: memory,
-- locks, and those that are not implemented. A write through an `out` pointer that is not null is an
-- optional result.
use unnamed.Prelude.{ℕ, ◌≡◌, Bool, true, false, Option, none, some, ◌==◌, if◌then◌else◌, arith}
use unnamed.Prelude.Words.{add64}
use unnamed.Run.{ok, out_of_fuel, Action, ◌>>◌, pure}
use unnamed.Acpi.{Width, byte, word, long, Status, status_ok, status_unimplemented}

-- `rsdp` is what `acpi::get_rsdp_physical_pointer` gives.
abbrev pub get_rsdp : (rsdp : ℕ) (out_rsdp_address : Bool) → Status × Option ℕ
get_rsdp rsdp out = if out then (status_ok, some rsdp) else (status_ok, none)

abbrev pub kernel_map : (slide addr len : ℕ) → ℕ
kernel_map slide addr len = add64 addr slide

-- The flags of the spinlocks, by the addresses of the locks.
abbrev pub Locks : Type 0
Locks = ℕ → Bool

abbrev pub Glue : Type 0 → Type 0
Glue A = Action Locks A

abbrev pub set_flag : (handle : ℕ) → Bool → Locks → Locks
set_flag handle f locks h = if h == handle then f else locks h

-- `spinlock->lock()` on the one processor: a lock that is held is waited for without end.
unfoldable pub lock_at : (handle : ℕ) → Glue (Unit {0})
lock_at handle locks = if locks handle then out_of_fuel else ok tt (set_flag handle true locks)

unfoldable pub unlock_at : (handle : ℕ) → Glue (Unit {0})
unlock_at handle locks = ok tt (set_flag handle false locks)

-- `new Spinlock` at the address that `new` gives.
abbrev pub new_spinlock : (address : ℕ) → Glue ℕ
new_spinlock address locks = ok address (set_flag address false locks)

abbrev pub create_mutex : (address : ℕ) → Glue ℕ
create_mutex address = new_spinlock address

abbrev pub create_spinlock : (address : ℕ) → Glue ℕ
create_spinlock address = new_spinlock address

-- The timeout is ignored.
unfoldable pub acquire_mutex : (handle timeout : ℕ) → Glue Status
unfolding lock_at
acquire_mutex handle timeout = do lock_at handle; pure status_ok

unfoldable pub release_mutex : (handle : ℕ) → Glue (Unit {0})
unfolding unlock_at
release_mutex handle = unlock_at handle

unfoldable pub lock_spinlock : (handle : ℕ) → Glue ℕ
unfolding lock_at
lock_spinlock handle = do lock_at handle; pure 0

unfoldable pub unlock_spinlock : (handle flags : ℕ) → Glue (Unit {0})
unfolding unlock_at
unlock_spinlock handle flags = unlock_at handle

-- `malloc` and `free` of dlmalloc are arguments.
module _ {S : Type 0} (malloc : ℕ → Action S ℕ) (dl_free : ℕ → Action S (Unit {0})) where
  abbrev pub kernel_alloc : (size : ℕ) → Action S ℕ
  kernel_alloc size = malloc size

  abbrev pub kernel_free : (mem : ℕ) → Action S (Unit {0})
  kernel_free mem = if mem == 0 then pure tt else dl_free mem

abbrev pub all_ones : Width → ℕ
all_ones byte = 0xff
all_ones word = 0xffff
all_ones long = 0xffff_ffff

-- The functions that say that they are not implemented, or do nothing.
module _ {S : Type 0} where
  abbrev pub kernel_unmap : (addr len : ℕ) → Action S (Unit {0})
  kernel_unmap addr len = pure tt

  abbrev pub kernel_initialize : (level : ℕ) → Action S Status
  kernel_initialize level = pure status_unimplemented

  abbrev pub kernel_deinitialize : Action S (Unit {0})
  kernel_deinitialize = pure tt

  -- The handle written is null.
  abbrev pub pci_device_open : (out_handle : Bool) → Action S (Status × Option ℕ)
  pci_device_open out_handle = pure (status_unimplemented, if out_handle then some 0 else none)

  abbrev pub pci_device_close : (handle : ℕ) → Action S (Unit {0})
  pci_device_close handle = pure tt

  abbrev pub pci_read : Width → (device offset : ℕ) (value : Bool) → Action S (Status × Option ℕ)
  pci_read w device offset value =
      pure (status_unimplemented, if value then some (all_ones w) else none)

  abbrev pub pci_write : Width → (device offset value : ℕ) → Action S Status
  pci_write w device offset value = pure status_unimplemented

  abbrev pub alloc_zeroed : (size : ℕ) → Action S ℕ
  alloc_zeroed size = pure 0

  abbrev pub nanoseconds_since_boot : Action S ℕ
  nanoseconds_since_boot = pure 0

  abbrev pub stall : (usec : ℕ) → Action S (Unit {0})
  stall usec = pure tt

  abbrev pub sleep : (msec : ℕ) → Action S (Unit {0})
  sleep msec = pure tt

  abbrev pub free_mutex : (handle : ℕ) → Action S (Unit {0})
  free_mutex handle = pure tt

  abbrev pub create_event : Action S ℕ
  create_event = pure 0

  abbrev pub free_event : (handle : ℕ) → Action S (Unit {0})
  free_event handle = pure tt

  -- UACPI_THREAD_ID_NONE is a constant of the ACPI library.
  abbrev pub get_thread_id : (thread_id_none : ℕ) → Action S ℕ
  get_thread_id thread_id_none = pure thread_id_none

  abbrev pub wait_for_event : (handle timeout : ℕ) → Action S Bool
  wait_for_event handle timeout = pure false

  abbrev pub signal_event : (handle : ℕ) → Action S (Unit {0})
  signal_event handle = pure tt

  abbrev pub reset_event : (handle : ℕ) → Action S (Unit {0})
  reset_event handle = pure tt

  abbrev pub handle_firmware_request : Action S Status
  handle_firmware_request = pure status_unimplemented

  abbrev pub install_interrupt_handler :
      (irq : ℕ) (out_irq_handle : Bool) → Action S (Status × Option ℕ)
  install_interrupt_handler irq out_irq_handle =
      pure (status_unimplemented, if out_irq_handle then some 0 else none)

  abbrev pub uninstall_interrupt_handler : (irq_handle : ℕ) → Action S Status
  uninstall_interrupt_handler irq_handle = pure status_unimplemented

  abbrev pub free_spinlock : (handle : ℕ) → Action S (Unit {0})
  free_spinlock handle = pure tt

  abbrev pub schedule_work : Action S Status
  schedule_work = pure status_unimplemented

  abbrev pub wait_for_work_completion : Action S Status
  wait_for_work_completion = pure status_unimplemented

-- A mutex that is acquired twice without a release in between is waited for without end, whatever the
-- timeout is, and once it is released it can be acquired again.
pub acquire_mutex-again :
    (handle t u : ℕ) (locks : Locks)
    → locks handle ≡ false
    → ((acquire_mutex handle t >> acquire_mutex handle u) locks ≡ out_of_fuel)
      × (((acquire_mutex handle t >> release_mutex handle) >> acquire_mutex handle u) locks
          ≡ ok status_ok
              (set_flag handle true (set_flag handle false (set_flag handle true locks))))
unfolding acquire_mutex release_mutex lock_at unlock_at
acquire_mutex-again handle t u locks free =
    let same : (handle == handle) ≡ true = ground arith in (rw (free, same), rw (free, same))
