-- ===== src/Heap.antt =====
-- kernel/mm/vma.cpp and kernel/mm/heap.cpp: the kernel's own address space, and the calls that
-- dlmalloc makes to get memory. The state joins that of the page tables with the allocator of
-- addresses and the static variables of heap.cpp.
pub mod Backing
pub mod Pages
pub mod Loop
pub mod Outcomes
pub mod Mmap
pub mod Sbrk
pub mod Initial
pub mod Live
pub mod Isolation
pub mod AfterCall
pub mod AfterMmap
pub mod AfterSbrk
pub mod Sequence
mod Tests
use unnamed.Prelude.{
  ℕ, zero, suc, ◌+◌, ◌-◌, ◌*◌, ◌/◌, ◌^◌, ◌<◌, Bool, true, false, ◌||◌, not, Option, none, some, ltb,
  ◌==◌, if◌then◌else◌,
}
use unnamed.Prelude.Words.{add64, sub64, mul64}
use unnamed.Helpers.{check_aligned, is_flag_set, align_up, align_down}
use unnamed.Run.{Outcome, ok, halted, fault, out_of_fuel, Action, ◌>>=◌, ◌>>◌, pure, halt}
use unnamed.Machine.{
  Kernel, Cmd, ErrorCode, memory_misaligned, out_of_memory, map_fail, set_error, get_memory_slide,
  get_kernel_base_address, page_size,
}
use unnamed.Pma.{get_highest_physical_address, alloc_page}
use unnamed.Vmm.{map_virtual}
use unnamed.Vma.{Allocator, Act}
use unnamed.Vma.Calls.{init, alloc_pages, free}

pub record System : Type 0 where
  pub kernel : Kernel
  pub allocator : Allocator
  pub is_initialized : Bool
  pub heap_base : ℕ
  pub heap_size : ℕ
  -- the static `heap_top` of `sbrk`, which its first call sets
  pub heap_top : Option ℕ

abbrev pub Sys : Type 0 → Type 0
Sys A = Action System A

module _ {A : Type 0} where
  abbrev pub kernel_outcome : System → Outcome Kernel A → Outcome System A
  kernel_outcome s (ok x k) = ok x (record s { kernel = k })
  kernel_outcome s halted = halted
  kernel_outcome s fault = fault
  kernel_outcome s out_of_fuel = out_of_fuel

  abbrev pub on_kernel : Cmd A → Sys A
  on_kernel c s = kernel_outcome s (c s.kernel)

  abbrev pub allocator_outcome : System → Outcome Allocator A → Outcome System A
  allocator_outcome s (ok x a) = ok x (record s { allocator = a })
  allocator_outcome s halted = halted
  allocator_outcome s fault = fault
  allocator_outcome s out_of_fuel = out_of_fuel

  abbrev pub on_allocator : Act A → Sys A
  on_allocator c s = allocator_outcome s (c s.allocator)

-- More rounds than the allocator has pages, so that none of its loops is cut short.
abbrev pub rounds : System → ℕ
rounds s = suc s.allocator.total_pages

-- `reinterpret_cast<void *>(-1ULL)`
abbrev pub map_failed : ℕ
map_failed = 2 ^ 64 - 1

abbrev pub map_private : ℕ
map_private = 1

abbrev pub map_anonymous : ℕ
map_anonymous = 2

-- `MapFlags::Read | MapFlags::Write`
abbrev pub read_write : ℕ
read_write = 3

unfoldable pub init_kernel_virtual_allocator : Sys (Unit {0})
init_kernel_virtual_allocator = do
  slide ← on_kernel get_memory_slide
  highest ← on_kernel get_highest_physical_address
  kernel_base ← on_kernel get_kernel_base_address
  let range_start = align_down (add64 slide highest) page_size
  let range_end = align_down kernel_base page_size
  on_allocator (init range_start (sub64 range_end range_start))

unfoldable pub allocate_virtual_memory : (length : ℕ) → Sys (Option ℕ)
allocate_virtual_memory length s =
    if not (check_aligned length page_size)
    then (on_kernel (set_error memory_misaligned) >> pure none) s
    else on_allocator (alloc_pages (rounds s) (length / page_size) 1) s

unfoldable pub deallocate_virtual_memory : (address length : ℕ) → Sys (Unit {0})
deallocate_virtual_memory address length s =
    (on_allocator (free (rounds s) address (length / page_size)) >> pure tt) s

-- A page of memory is mapped at the address: whether that worked, or why not.
pub data Backed : Type 0 where
  backed no_memory no_mapping : Backed

unfoldable pub map_page : (virt page : ℕ) → Cmd Backed
map_page virt page = if page == 0 then pure no_memory else do
  slide ← get_memory_slide
  k ← λ q. ok q q
  done ← map_virtual (add64 k.cr3 slide) virt page read_write
  pure (if done then backed else no_mapping)

unfoldable pub back_page : (virt : ℕ) → Cmd Backed
unfolding map_page
back_page virt = do page ← alloc_page; map_page virt page

-- The loops of `mmap` and `sbrk`, from the page `i` on, up to a page that fails.
unfoldable pub back_pages : (count i base : ℕ) → Cmd Backed
unfolding back_page
back_pages zero i base = pure backed
back_pages (suc n) i base = do
  result ← back_page (add64 base (mul64 i page_size))
  elim result [
    | backed ↦ back_pages n (suc i) base
    | no_memory ↦ pure no_memory
    | no_mapping ↦ pure no_mapping
  ]

-- What `mmap` returns after its loop.
unfoldable pub mmap_finish : (base length : ℕ) → Backed → Sys ℕ
unfolding deallocate_virtual_memory
mmap_finish base length backed = pure base
mmap_finish base length no_memory = do
  on_kernel (set_error out_of_memory)
  deallocate_virtual_memory base length
  pure map_failed
mmap_finish base length no_mapping = do on_kernel (set_error map_fail); pure map_failed

-- `length` is aligned.
unfoldable pub mmap_at : (length : ℕ) → Option ℕ → Sys ℕ
unfolding back_pages mmap_finish
mmap_at length none = pure map_failed
mmap_at length (some base) = do
  result ← on_kernel (back_pages (length / page_size) 0 base)
  mmap_finish base length result

-- The other arguments of `mmap` are ignored.
unfoldable pub mmap : (length flags : ℕ) → Sys ℕ
unfolding allocate_virtual_memory mmap_at
mmap length flags =
    if not (is_flag_set flags map_private) || not (is_flag_set flags map_anonymous)
    then pure map_failed
    else if length == 0
    then pure map_failed
    else do
      base ← allocate_virtual_memory (align_up length page_size)
      mmap_at (align_up length page_size) base

unfoldable pub munmap : (addr length : ℕ) → Sys ℕ
munmap addr length = halt

-- What `sbrk` returns after its loop.
unfoldable pub sbrk_finish : (top increment : ℕ) → Backed → Sys ℕ
sbrk_finish top increment backed = λ s. ok top (record s { heap_top = some (add64 top increment) })
sbrk_finish top increment no_memory = do on_kernel (set_error out_of_memory); pure 0
sbrk_finish top increment no_mapping = do on_kernel (set_error map_fail); pure 0

-- An increase by whole pages, where the heap has room for it.
unfoldable pub sbrk_grow : (top increment : ℕ) → Sys ℕ
unfolding back_pages sbrk_finish
sbrk_grow top increment s =
    if ltb (add64 s.heap_base s.heap_size) (add64 top increment)
    then (do on_kernel (set_error out_of_memory); pure 0) s
    else (do
      result ← on_kernel (back_pages (increment / page_size) 0 top)
      sbrk_finish top increment result)
        s

-- The static variable, which the first call initialises.
abbrev pub current_top : System → ℕ
current_top s = elim s.heap_top [ some top ↦ top | none ↦ s.heap_base ]

-- `increment` is a two's complement word.
unfoldable pub sbrk : (increment : ℕ) → Sys ℕ
unfolding sbrk_grow
sbrk increment s =
    if not s.is_initialized
    then ok 0 s
    else if increment == 0
    then ok (current_top s) (record s { heap_top = some (current_top s) })
    else if not (ltb increment (2 ^ 63))
    then halted
    else sbrk_grow (current_top s) (align_up increment page_size)
        (record s { heap_top = some (current_top s) })

unfoldable pub set_heap : Option ℕ → Sys (Unit {0})
set_heap none = do on_kernel (set_error out_of_memory); halt
set_heap (some address) = λ s. ok tt (record s { heap_base = address; is_initialized = true })

unfoldable pub init_heap : Sys (Unit {0})
unfolding allocate_virtual_memory set_heap
init_heap s =
    (do address ← allocate_virtual_memory (32 * 1024 * 1024); set_heap address)
      (record s { heap_size = 32 * 1024 * 1024 })

-- The operators hand `malloc` and `free` of dlmalloc on.
module _ (malloc : ℕ → Sys ℕ) (dl_free : ℕ → Sys (Unit {0})) where
  abbrev pub operator_new : (size : ℕ) → Sys ℕ
  operator_new size = malloc size

  abbrev pub operator_new_array : (size : ℕ) → Sys ℕ
  operator_new_array size = malloc size

  abbrev pub operator_delete : (ptr : ℕ) → Sys (Unit {0})
  operator_delete ptr = if ptr == 0 then pure tt else dl_free ptr

  abbrev pub operator_delete_sized : (ptr size : ℕ) → Sys (Unit {0})
  operator_delete_sized ptr size = if ptr == 0 then pure tt else dl_free ptr
