-- ===== src/Vma/Tests.antt =====
-- Runs of the allocator of virtual addresses, kernel/mm/vma.hpp, and the theorems at concrete states.
use unnamed.Prelude.{◌≡◌, refl, inl, true, false, Option, none, some, List, [], ◌∷◌, arith}
use unnamed.Run.{Outcome, ok, ◌>>◌}
use unnamed.Run.Ensures.{Ensures}
use unnamed.Vma.{
  Node, Allocator, put, blank, lock, unlock, vaddr_from_page, page_from_vaddr, align_up,
  split_node_left,
}
use unnamed.Vma.Calls.{init, alloc_pages, free, free_pages_total}
use unnamed.Vma.Zipper.{Cell, IsZipper}
use unnamed.Vma.Pool.{IsPool}
use unnamed.Vma.AllocPages.{IsAllocator, AllocTo, alloc_pages-AllocTo}
use unnamed.Vma.FreeCall.{FreeTo, free-FreeTo}
use unnamed.Vma.Held.{Lease, step_alloc}
use unnamed.Vma.Leases.{Steps, none_yet, one_more, Served, Steps-Served}

-- No memory for nodes of the heap, a pool of four.
abbrev pub empty : Allocator
empty = record {
  max_nodes = 4;
  new_node = λ m. 0;
  new_maps = λ m. false;
  delete_unmaps = λ m. false;
  nodes = λ q. blank false false;
  free_stack = [];
  head = 0;
  base = 0;
  total_pages = 0;
  locked = false;
}

-- Two used pages at 0x10000, and six that are free.
abbrev pub used_cell : Cell
used_cell = record { ptr = 1; is_free = false; start = 0; npages = 2 }

abbrev pub free_cell : Cell
free_cell = record { ptr = 2; is_free = true; start = 2; npages = 6 }

abbrev pub cells : List Cell
cells = used_cell ∷ free_cell ∷ []

abbrev pub node_1 : Node
node_1 = record {
  valid = true;
  dynamic = false;
  is_free = false;
  start = 0;
  npages = 2;
  prev = 0;
  next = 2;
}

abbrev pub node_2 : Node
node_2 = record {
  valid = true;
  dynamic = false;
  is_free = true;
  start = 2;
  npages = 6;
  prev = 1;
  next = 0;
}

abbrev pub two_ranges : Allocator
two_ranges = record {
  max_nodes = 4;
  new_node = λ m. 0;
  new_maps = λ m. false;
  delete_unmaps = λ m. false;
  nodes = put (put (λ q. blank false false) 1 node_1) 2 node_2;
  free_stack = 2 ∷ 3 ∷ [];
  head = 1;
  base = 0x10000;
  total_pages = 8;
  locked = false;
}

two_ranges-IsZipper : IsZipper two_ranges [] cells 0
two_ranges-IsZipper = record {
  ahead = (
    record { ne_null = omega arith; holds = refl },
    (record { ne_null = omega arith; holds = refl }, tt),
  );
  behind = tt;
  tiles = (refl, omega arith, (refl, omega arith, refl));
  tiles_back = refl;
  leads = refl;
}

two_ranges-IsPool : IsPool two_ranges
two_ranges-IsPool = record {
  unused = ((omega arith, refl), ((omega arith, refl), tt));
  distinct = ((λ e. absurd (omega arith), tt), (tt, tt));
  fresh = λ m. (refl, refl, inl refl);
}

pub two_ranges-IsAllocator : IsAllocator two_ranges cells
two_ranges-IsAllocator = record {
  zipper = two_ranges-IsZipper;
  pool = two_ranges-IsPool;
  unlocked = refl;
  reach = omega arith;
}

value : {A : Type 0} → Outcome Allocator A → Option A
value (ok x a) = some x
value _ = none

-- Four pages on a boundary of four begin at page 4, and the padding remains free.
alloc_runs : value (alloc_pages 9 4 4 two_ranges) ≡ some (some 0x14000)
unfolding value alloc_pages lock unlock vaddr_from_page align_up split_node_left
alloc_runs = refl

full_runs : value (alloc_pages 9 7 1 two_ranges) ≡ some none
unfolding value alloc_pages lock unlock vaddr_from_page align_up split_node_left
full_runs = refl

-- After the first of the used pages is freed, seven pages are free.
free_runs : value ((free 9 0x10000 1 >> free_pages_total 9) two_ranges) ≡ some 7
unfolding value free free_pages_total lock unlock page_from_vaddr split_node_left
free_runs = refl

init_runs : value ((init 0x10000 0x8000 >> free_pages_total 9) empty) ≡ some 8
unfolding value init free_pages_total
init_runs = refl

alloc_pages-AllocTo_example : Ensures (alloc_pages 9 4 4 two_ranges) (AllocTo two_ranges cells 4 2)
alloc_pages-AllocTo_example =
    alloc_pages-AllocTo two_ranges cells two_ranges-IsAllocator 4 2 (omega arith) (omega arith) 9
      (omega arith)

free-FreeTo_example :
    Ensures
      (free 9 0x11000 1 two_ranges)
      (FreeTo two_ranges cells 1 (page_from_vaddr two_ranges 0x11000))
free-FreeTo_example =
    free-FreeTo two_ranges cells two_ranges-IsAllocator 1 0x11000 (omega arith) (omega arith) 9
      (omega arith)

-- The state after a run.
state : {A : Type 0} → Outcome Allocator A → Allocator
state (ok x a) = a
state _ = empty

abbrev lease : Lease
lease = record { page = 4; npages = 4 }

served : Served two_ranges []
served = (cells, record { good = two_ranges-IsAllocator; held = tt; apart = tt })

abbrev after_alloc : Allocator
after_alloc = state (alloc_pages 9 4 4 two_ranges)

alloc_gives : alloc_pages 9 4 4 two_ranges ≡ ok (some 0x14000) after_alloc
unfolding state alloc_pages lock unlock vaddr_from_page align_up split_node_left
alloc_gives = refl

one_call : Steps two_ranges [] after_alloc (lease ∷ [])
one_call =
    one_more (step_alloc 9 2 lease (omega arith) (omega arith) (omega arith) alloc_gives) none_yet

Steps-Served_example : Served after_alloc (lease ∷ [])
Steps-Served_example = Steps-Served two_ranges [] after_alloc (lease ∷ []) one_call served
