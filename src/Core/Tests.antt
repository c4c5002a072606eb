-- ===== src/Core/Tests.antt =====
-- The start of the kernel on a small machine.
use unnamed.Prelude.{
  ℕ, List, ◌++◌, ◌==◌, if◌then◌else◌, [], ◌+◌, ◌*◌, ◌≡◌, refl, inl, true, false, none, arith,
}
use unnamed.Machine.{Kernel}
use unnamed.Pma.{highest_loop}
use unnamed.Vmm.Tests.{kernel, entries, blocks-Fits}
use unnamed.Vma.Tests.{empty}
use unnamed.Helpers.{align_down, is_flag_set}
use unnamed.Heap.{System, map_failed, mmap, sbrk}
use unnamed.Heap.Outcomes.{MmapTo}
use unnamed.Heap.Mmap.{mmap-MmapTo}
use unnamed.Heap.Sbrk.{SbrkTo, sbrk-SbrkTo}
use unnamed.Heap.Live.{pages_from}
use unnamed.Heap.Isolation.{Isolated}
use unnamed.Heap.Sequence.{Calls, no_call, one_more, sbrk_call, pages_of}
use unnamed.Run.Ensures.{Ensures-ok}
use unnamed.Pma.Blocks.{Block}
use unnamed.Vma.Zipper.{Cell}
use unnamed.Core.Ready.{blocks as ready_blocks, IsReady, init_memory-ReadyTo}
use unnamed.Core.Isolated.{start-Isolated}
use unnamed.Core.Memory.{IsBooted}
use unnamed.Core.TestTables.{tables_mem, tables_own, four-IsTables}
use unnamed.Run.{pure, ok}
use unnamed.Percpu.Tests.{cpu}
use unnamed.Idt.Tests.{trap}
use unnamed.Irqs.Tests.{madt, no_tables}
use unnamed.Core.{Environment, World, init_memory}

-- The memory has the tables of the boot loader.
abbrev booted : Kernel
booted = record kernel { mem = tables_mem }

abbrev system : System
system = record {
  kernel = booted;
  allocator = empty;
  is_initialized = false;
  heap_base = 0;
  heap_size = 0;
  heap_top = none;
}

system-IsBooted : IsBooted system entries 0x18000 tables_own
unfolding highest_loop align_down
system-IsBooted = record {
  memmap = refl;
  head_reach = refl;
  head_null = refl;
  usable = blocks-Fits;
  tables = four-IsTables;
  active = refl;
  nodes = omega arith;
  unlocked = refl;
  fresh = λ m. (refl, refl, inl refl);
  no_top = refl;
  some_start = omega arith;
  some_pages = omega arith;
  end = omega arith;
}

-- The library and the drivers find nothing.
abbrev environment : Environment
environment = record {
  constructors = [];
  bsp_percpu = 0x1000;
  gdt_address = 0x1100;
  idt_address = 0x2000;
  stubs = λ i. 0x4000 + 16 * i;
  uacpi_initialize = pure false;
  platform = record {
    tsc_frequency = none;
    hpet_table = none;
    fadt = none;
    memory_slide = 0x10000;
    system_memory = 0;
  };
  new_clocks = pure (0, 0, 0);
  find_madt = pure (true, madt);
  rounds = 9;
}

abbrev world : World
world = record {
  system = system;
  cpu = cpu;
  gdt = none;
  idt = λ i. trap;
  idtr = none;
  clocks = record { sources = []; best = none; regs = λ a. 0 };
  tables = no_tables;
}

-- The system after the start, with a page more of the heap, and with two pages from `mmap`.
abbrev started_blocks : List Block
started_blocks = ready_blocks system entries 0x18000 tables_own system-IsBooted

ready :
    (s : System) × (page : ℕ) × (cells : List Cell) × (init_memory system ≡ ok tt s)
    × IsReady system entries 0x18000 tables_own system-IsBooted s page cells
unfolding highest_loop align_down
ready = (init_memory-ReadyTo system entries 0x18000 tables_own system-IsBooted).0 (omega arith)

grows :
    (r : ℕ) × (s : System) × (sbrk 0x1000 ready.0 ≡ ok r s)
    × SbrkTo ready.0 started_blocks 0x18000 tables_own 1 r s
unfolding highest_loop align_down
grows =
    let (s, page, cells, starts, r) = ready in
    Ensures-ok (sbrk 0x1000 s) (SbrkTo s started_blocks 0x18000 tables_own 1) (
      sbrk-SbrkTo s started_blocks 0x18000 tables_own 0x1000 r.heap (omega arith) (omega arith)
        (let inside = r.inside in let bytes = r.heap_bytes in omega arith))

got : List ℕ
got = if grows.0 == 0 then [] else pages_from grows.0 (pages_of 0x1000) ++ []

first_call : Calls ready.0 [] grows.1 got
unfolding got highest_loop align_down
first_call =
    let (s, page, cells, starts, r) = ready in
    one_more no_call (
      sbrk_call 0x1000 grows.0 (omega arith) (omega arith)
        (let inside = r.inside in let bytes = r.heap_bytes in omega arith) grows.2 refl)

after_sbrk : Isolated grows.1 0x18000 got
unfolding highest_loop align_down
after_sbrk =
    start-Isolated system entries 0x18000 tables_own system-IsBooted (omega arith) (omega arith)
      ready.0 grows.1 got ready.3 first_call

maps :
    (r : ℕ) × (s : System) × (mmap 0x2000 3 grows.1 ≡ ok r s)
    × MmapTo grows.1 after_sbrk.0 0x18000 after_sbrk.1 after_sbrk.2 2 r s
unfolding is_flag_set
maps =
    let (bs, owner, cells, good) = after_sbrk in
    Ensures-ok (mmap 0x2000 3 grows.1) (MmapTo grows.1 bs 0x18000 owner cells 2) (
      mmap-MmapTo grows.1 bs 0x18000 owner cells 0x2000 3 good.system (omega arith) (omega arith)
        refl refl)

got_both : List ℕ
got_both = if maps.0 == map_failed then got else pages_from maps.0 (pages_of 0x2000) ++ got
