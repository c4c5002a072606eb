-- ===== src/Heap/AfterCall.antt =====
-- A call of `mmap` or `sbrk` (kernel/mm/heap.cpp) keeps the pages of all callers: what has to be shown.
use unnamed.Prelude.{ℕ, ◌+◌, ◌%◌, ◌≤◌, ◌≡◌, ◌∙◌, List, arith, All}
use unnamed.Prelude.Words.{add64}
use unnamed.Pma.Blocks.{Block}
use unnamed.Pma.Spec.{IsFreeList}
use unnamed.Vmm.Walk.{Owner, IsTables}
use unnamed.Vma.Zipper.{Cell}
use unnamed.Vma.AllocPages.{IsAllocator}
use unnamed.Heap.{System, current_top}
use unnamed.Heap.Live.{IsLive, Differ, Carries}
use unnamed.Heap.Isolation.{IsIsolated}

-- The list, the tables and the register that says where they are.
abbrev pub InOrder : System → List Block → (root : ℕ) → Owner → Type 0
InOrder s bs root own =
    IsFreeList s.kernel bs
    × IsTables s.kernel.boot s.kernel.mem bs root own
    × (root ≡ add64 s.kernel.cr3 s.kernel.memory_slide)

module _ (s : System) (bs : List Block) (root : ℕ) (own : Owner) (cells : List Cell) (live : List ℕ)
    (good : IsIsolated s bs root own cells live) where
  -- The invariant after a call, from what each part of the state is then.
  pub assemble :
      (s' : System) (left : List Block) (own' : Owner) (cells' : List Cell) (live' : List ℕ)
      → Carries s s' bs left root cells cells'
      → InOrder s' left root own'
      → IsAllocator s'.allocator cells'
      → s'.is_initialized ≡ s.is_initialized
      → current_top s' ≤ s.heap_base + s.heap_size
      → current_top s' % 4096 ≡ 0
      → All (IsLive s' left root cells') live'
      → Differ s'.kernel root live'
      → IsIsolated s' left root own' cells' live'
  assemble s' left own' cells' live' c (list, tables, active) alloc started inside aligned each
        distinct =
      record {
        system = record {
          list = list;
          tables = tables;
          active = active;
          addresses = alloc;
          base_page = rw c.base good.system.base_page;
          some_base = rw c.base good.system.some_base;
        };
        heap = record {
          list = list;
          tables = tables;
          active = active;
          started = started ∙ good.heap.started;
          some_base = rw c.heap_base good.heap.some_base;
          from_base = omega (arith, c.heap_base, c.top, good.heap.from_base);
          in_range = omega (arith, c.heap_base, c.heap_size);
          aligned = aligned;
          reach = omega (arith, c.heap_base, c.heap_size, good.heap.reach);
        };
        span = rw c.total good.span;
        heap_index = good.heap_index;
        heap_place = rw (c.base, c.heap_base) good.heap_place;
        heap_inside = omega (arith, c.base, c.total, c.heap_base, c.heap_size, good.heap_inside);
        heap_used = λ q lo hi. c.used q (
            good.heap_used q (omega (arith, c.base, c.heap_base))
              (omega (arith, c.base, c.heap_base, c.heap_size)));
        each = each;
        distinct = distinct;
      }
