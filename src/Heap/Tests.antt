-- ===== src/Heap/Tests.antt =====
-- Runs of kernel/mm/heap.cpp and vma.cpp, and the theorems at a concrete state.
use unnamed.Prelude.{◌≡◌, refl, true, Option, none, some, arith}
use unnamed.Run.{Outcome, ok}
use unnamed.Run.Ensures.{Ensures}
use unnamed.Vmm.Tests.{kernel, blocks, own, kernel-IsFreeList, root-IsTables}
use unnamed.Vma
use unnamed.Vma.{lock, unlock, vaddr_from_page, split_node_left}
use unnamed.Vma.Calls.{alloc_pages}
use unnamed.Vma.Tests.{two_ranges, cells, two_ranges-IsAllocator}
use unnamed.Helpers.{check_aligned, is_flag_set}
use unnamed.Heap.{System, map_failed, allocate_virtual_memory, mmap, sbrk}
use unnamed.Heap.Outcomes.{IsSystem, MmapTo}
use unnamed.Heap.Mmap.{mmap-MmapTo}
use unnamed.Heap.Sbrk.{IsHeap, SbrkTo, sbrk-SbrkTo}

abbrev system : System
system = record {
  kernel = kernel;
  allocator = two_ranges;
  is_initialized = true;
  heap_base = 0x1000_0000;
  heap_size = 0x200_0000;
  heap_top = none;
}

value : {A : Type 0} → Outcome System A → Option A
value (ok x s) = some x
value _ = none

-- `MAP_PRIVATE` alone is refused.
mmap_runs : value (mmap 0x1000 1 system) ≡ some map_failed
unfolding value mmap is_flag_set
mmap_runs = refl

allocate_runs : value (allocate_virtual_memory 0x2000 system) ≡ some (some 0x12000)
unfolding value allocate_virtual_memory check_aligned alloc_pages lock unlock vaddr_from_page
    split_node_left Vma.align_up
allocate_runs = refl

top_runs : value (sbrk 0 system) ≡ some 0x1000_0000
unfolding value sbrk
top_runs = refl

system-IsSystem : IsSystem system blocks 0x18000 own cells
system-IsSystem = record {
  list = kernel-IsFreeList;
  tables = root-IsTables;
  active = refl;
  addresses = two_ranges-IsAllocator;
  base_page = refl;
  some_base = omega arith;
}

system-IsHeap : IsHeap system blocks 0x18000 own
system-IsHeap = record {
  list = kernel-IsFreeList;
  tables = root-IsTables;
  active = refl;
  started = refl;
  some_base = omega arith;
  from_base = omega arith;
  in_range = omega arith;
  aligned = refl;
  reach = omega arith;
}

mmap-MmapTo_example : Ensures (mmap 0x1800 3 system) (MmapTo system blocks 0x18000 own cells 2)
unfolding is_flag_set
mmap-MmapTo_example =
    mmap-MmapTo system blocks 0x18000 own cells 0x1800 3 system-IsSystem (omega arith) (omega arith)
      refl refl

sbrk-SbrkTo_example : Ensures (sbrk 0x1800 system) (SbrkTo system blocks 0x18000 own 2)
sbrk-SbrkTo_example =
    sbrk-SbrkTo system blocks 0x18000 own 0x1800 system-IsHeap (omega arith) (omega arith)
      (omega arith)
