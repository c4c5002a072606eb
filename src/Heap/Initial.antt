-- ===== src/Heap/Initial.antt =====
-- `memory::init_heap` of kernel/mm/heap.cpp: the range of addresses of the heap.
use unnamed.Prelude.{
  ℕ, ◌+◌, ◌*◌, ◌^◌, ◌<◌, ◌≡◌, refl, ap, ◌∙◌, ◌⊎◌, inl, inr, true, Option, none, some, List, arith,
}
use unnamed.Run.{ok, halted}
use unnamed.Run.Ensures.{Ensures-ok}
use unnamed.Machine.{set_error}
use unnamed.Pma.Blocks.{Block}
use unnamed.Vmm.Walk.{Owner}
use unnamed.Vma.{Allocator}
use unnamed.Vma.Zipper.{Cell}
use unnamed.Vma.AllocPages.{IsKept, IsHandedOut, IsRefused, AllocTo}
use unnamed.Heap.{System, allocate_virtual_memory, set_heap, init_heap}
use unnamed.Heap.Outcomes.{IsSystem}
use unnamed.Heap.Mmap.{allocate-AllocTo}
use unnamed.Heap.Sbrk.{IsHeap}

-- 32 MiB
abbrev pub heap_pages : ℕ
heap_pages = 8192

-- The heap is in order and empty, and its pages, which were free, are handed out.
pub record IsHeapStarted (s : System) (bs : List Block) (root : ℕ) (own : Owner) (cells : List Cell)
    (s' : System) (page : ℕ) (cells' : List Cell) : Type 0 where
  pub system : IsSystem s' bs root own cells'
  pub heap : IsHeap s' bs root own
  pub handed : IsHandedOut s.allocator cells cells' heap_pages 0 s'.heap_base page
  pub size_set : s'.heap_size ≡ heap_pages * 4096
  pub empty : s'.heap_top ≡ none
  pub kept : IsKept s.allocator s'.allocator
  pub same : s'.kernel ≡ s.kernel

-- Or the machine is halted, for no range of free addresses has room, or there are too few nodes.
abbrev pub InitTo : System → List Block → (root : ℕ) → Owner → List Cell → Type 0
InitTo s bs root own cells =
    ((s' : System) × (page : ℕ) × (cells' : List Cell) × (init_heap s ≡ ok tt s')
      × IsHeapStarted s bs root own cells s' page cells')
    ⊎ ((init_heap s ≡ halted)
        × ((cells' : List Cell) × IsRefused s.allocator cells cells' heap_pages 0))

module _ (s : System) (bs : List Block) (root : ℕ) (own : Owner) (cells : List Cell)
    (good : IsSystem s bs root own cells) (no_top : s.heap_top ≡ none)
    (word : s.allocator.base + s.allocator.total_pages * 4096 < 2 ^ 64) where
  abbrev sized : System
  sized = record s { heap_size = 32 * 1024 * 1024 }

  set_heap-InitTo :
      (r : Option ℕ) (a : Allocator)
      → allocate_virtual_memory (heap_pages * 4096) sized ≡ ok r (record sized { allocator = a })
      → AllocTo s.allocator cells heap_pages 0 r a
      → InitTo s bs root own cells
  unfolding init_heap set_heap set_error
  set_heap-InitTo (some vaddr) a run (cells', page, alloc, kept, handed) =
      let place = handed.address in
      let inside = handed.bounded in
      let pos = good.some_base in
      let whole = good.base_page in
      inl (
        record sized { allocator = a; heap_base = vaddr; is_initialized = true },
        page,
        cells',
        rw run refl,
        record {
          system = record {
            list = good.list;
            tables = good.tables;
            active = good.active;
            addresses = alloc;
            base_page = rw kept.base good.base_page;
            some_base = rw kept.base good.some_base;
          };
          heap = record {
            list = good.list;
            tables = good.tables;
            active = good.active;
            started = refl;
            some_base = omega arith;
            from_base = rw no_top (omega arith);
            in_range = rw no_top (omega arith);
            aligned = rw no_top (omega arith);
            reach = omega arith;
          };
          handed = handed;
          size_set = refl;
          empty = no_top;
          kept = kept;
          same = refl;
        },
      )
  set_heap-InitTo none a run (cells', alloc, kept, refused) = inr (rw run refl, (cells', refused))

  -- On a system in order whose addresses end below 2^64, and before the first call of `sbrk`, init_heap
  -- makes the heap of 32 MiB of free addresses, in a system in order; or it halts the machine, and then
  -- no free range of addresses has room for the heap or fewer than two nodes were on the stack.
  pub init_heap-InitTo : InitTo s bs root own cells
  init_heap-InitTo =
      let sized_good : IsSystem sized bs root own cells = record {
        list = good.list;
        tables = good.tables;
        active = good.active;
        addresses = good.addresses;
        base_page = good.base_page;
        some_base = good.some_base;
      } in
      let (r, s', run, (e, post)) =
        Ensures-ok (allocate_virtual_memory (heap_pages * 4096) sized)
          (λ r s'.
            (s' ≡ record sized { allocator = s'.allocator })
            × AllocTo s.allocator cells heap_pages 0 r s'.allocator)
          (allocate-AllocTo sized bs root own cells sized_good heap_pages (omega arith)
            (omega arith)) in
      set_heap-InitTo r s'.allocator (run ∙ ap (ok r) e) post
