-- ===== src/Core/Started.antt =====
-- The start in kernel/kernel/core.cpp: what is ready when the drivers start.
use unnamed.Prelude.{ℕ, ◌%◌, ◌^◌, ◌≤◌, ◌<◌, ◌≡◌, some, List}
use unnamed.Run.{ok, halted}
use unnamed.Machine.{MemmapEntry, ErrorCode, memory_misaligned}
use unnamed.Vmm.Walk.{Owner}
use unnamed.Vma.Zipper.{Cell}
use unnamed.Heap.{System}
use unnamed.Percpu.{get_percpu}
use unnamed.Gdt.{init_gdt}
use unnamed.Idt.Decode.{IsGate}
use unnamed.Core.{World, Environment, with_percpu, with_gdt, with_idt, start_managers, kernel_main}
use unnamed.Core.Memory.{range_size, IsBooted}
use unnamed.Core.Ready.{IsReady}

abbrev pub with_error : System → ErrorCode → System
with_error s code = record s { kernel = record s.kernel { error = code } }

pub with_error-IsBooted :
    (s : System) (entries : List MemmapEntry) (root : ℕ) (own : Owner) (code : ErrorCode)
    → IsBooted s entries root own
    → IsBooted (with_error s code) entries root own
with_error-IsBooted s entries root own code b = record {
  memmap = b.memmap;
  head_reach = b.head_reach;
  head_null = b.head_null;
  usable = b.usable;
  tables = b.tables;
  active = b.active;
  nodes = b.nodes;
  unlocked = b.unlocked;
  fresh = b.fresh;
  no_top = b.no_top;
  some_start = b.some_start;
  some_pages = b.some_pages;
  end = b.end;
}

module _ (e : Environment) (w : World) (entries : List MemmapEntry) (root : ℕ) (own : Owner)
    (booted : IsBooted w.system entries root own) (bsp : e.bsp_percpu < 2 ^ 64) where
  abbrev cleared : System
  cleared = with_error w.system memory_misaligned

  -- The system when the managers start.
  pub cleared-IsBooted : IsBooted cleared entries root own
  cleared-IsBooted = with_error-IsBooted w.system entries root own memory_misaligned booted

  abbrev loaded : World
  loaded = with_idt e.idt_address e.stubs (with_gdt e.gdt_address (with_percpu e.bsp_percpu w))

  -- The per-CPU area is found, the tables of the processor are loaded, with a gate for every
  -- interrupt, and the memory managers are ready.
  pub record IsUp (w' : World) (page : ℕ) (cells : List Cell) : Type 0 where
    pub percpu : get_percpu w'.cpu ≡ e.bsp_percpu
    pub segments_loaded : w'.gdt ≡ some (init_gdt e.gdt_address)
    pub table : w'.idtr ≡ some (record { size = 4095; address = e.idt_address })
    pub gates : (j : ℕ) → j < 256 → IsGate (w'.idt j) (e.stubs j % 2 ^ 64) 8 0 0xe 0 1
    pub ready : IsReady cleared entries root own cleared-IsBooted w'.system page cells

  abbrev pub UpTo : World → Type 0
  UpTo w0 =
      (2 ^ 25 ≤ range_size w.system.kernel entries
        → (w' : World) × (page : ℕ) × (cells : List Cell) × (start_managers e w0 ≡ ok tt w')
          × IsUp w' page cells)
      × (range_size w.system.kernel entries < 2 ^ 25 → kernel_main e w0 ≡ halted)
