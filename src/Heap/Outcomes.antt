-- ===== src/Heap/Outcomes.antt =====
-- A system in order, and the three ways in which `mmap` of kernel/mm/heap.cpp ends.
use unnamed.Prelude.{ℕ, ◌+◌, ◌*◌, ◌%◌, ◌<◌, ◌≡◌, ◌≤◌, ◌⊎◌, inl, inr, some, true, false, List}
use unnamed.Prelude.Words.{add64}
use unnamed.Run.{Outcome, ok, halted, fault, out_of_fuel}
use unnamed.Run.Ensures.{Ensures}
use unnamed.Machine.{Kernel, ErrorCode, out_of_memory, map_fail}
use unnamed.Pma.Blocks.{Block}
use unnamed.Pma.Spec.{IsFreeList, TooSmall}
use unnamed.Vmm.Walk.{Owner, IsTables}
use unnamed.Vma.{Allocator}
use unnamed.Vma.Zipper.{Cell, free_at}
use unnamed.Vma.Mark.{within, marked}
use unnamed.Vma.AllocPages.{IsAllocator, IsKept, IsHandedOut, IsRefused}
use unnamed.Vma.FreeCall.{IsNotFreed}
use unnamed.Heap.{
  System, kernel_outcome, allocator_outcome, map_failed, Backed, no_memory, no_mapping, back_pages,
  allocate_virtual_memory,
}
use unnamed.Heap.Backing.{IsBacked}

module _ {A : Type 0} (s : System) (Q : A → System → Type 0) where
  -- A call of one of the parts is judged by what it does to that part.
  pub allocator-Ensures :
      (o : Outcome Allocator A) (P : A → Allocator → Type 0)
      → Ensures o P
      → ((x : A) (a : Allocator) → P x a → Q x (record s { allocator = a }))
      → Ensures (allocator_outcome s o) Q
  allocator-Ensures (ok x a) P p next = next x a p
  allocator-Ensures halted P p next = absurd p
  allocator-Ensures fault P p next = absurd p
  allocator-Ensures out_of_fuel P p next = absurd p

  pub kernel-Ensures :
      (o : Outcome Kernel A) (P : A → Kernel → Type 0)
      → Ensures o P
      → ((x : A) (k : Kernel) → P x k → Q x (record s { kernel = k }))
      → Ensures (kernel_outcome s o) Q
  kernel-Ensures (ok x k) P p next = next x k p
  kernel-Ensures halted P p next = absurd p
  kernel-Ensures fault P p next = absurd p
  kernel-Ensures out_of_fuel P p next = absurd p

-- The free memory, the page tables in use and the free addresses are in order.
pub record IsSystem (s : System) (bs : List Block) (root : ℕ) (own : Owner) (cells : List Cell)
    : Type 0 where
  pub list : IsFreeList s.kernel bs
  pub tables : IsTables s.kernel.boot s.kernel.mem bs root own
  pub active : root ≡ add64 s.kernel.cr3 s.kernel.memory_slide
  pub addresses : IsAllocator s.allocator cells
  -- the addresses begin at a page that is not the null page
  pub base_page : s.allocator.base % 4096 ≡ 0
  pub some_base : 0 < s.allocator.base

-- What every outcome of a call of `mmap` leaves alone.
pub record Stays (s s' : System) : Type 0 where
  pub kept : IsKept s.allocator s'.allocator
  pub rest : s' ≡ record s { kernel = s'.kernel; allocator = s'.allocator }

-- Pages of addresses were free and are handed out, each with a page of memory behind it.
pub record IsMmapped (s : System) (bs : List Block) (root : ℕ) (own : Owner) (cells : List Cell)
    (n r : ℕ) (s' : System) (page : ℕ) (cells' : List Cell) (left : List Block) (own' : Owner)
    : Type 0 where
  pub stays : Stays s s'
  pub good : IsAllocator s'.allocator cells'
  pub handed : IsHandedOut s.allocator cells cells' n 0 r page
  pub memory : IsBacked s.kernel bs root own r n s'.kernel left own'

-- There were no addresses: neither memory nor tables have changed.
pub record HasNoAddress (s : System) (cells : List Cell) (n r : ℕ) (s' : System)
    (cells' : List Cell) : Type 0 where
  pub failed : r ≡ map_failed
  pub stays : Stays s s'
  pub good : IsAllocator s'.allocator cells'
  pub refused : IsRefused s.allocator cells cells' n 0
  pub same : s'.kernel ≡ s.kernel

-- The outcome of the loop over the pages decides the error that is left.
abbrev pub Reported : Outcome Kernel Backed → (k' k2 : Kernel) → Type 0
Reported loop k' k2 =
    ((loop ≡ ok no_memory k') × (k2 ≡ record k' { error = out_of_memory }))
    ⊎ ((loop ≡ ok no_mapping k') × (k2 ≡ record k' { error = map_fail }))

pub Reported-code :
    (loop : Outcome Kernel Backed) (k' k2 : Kernel)
    → Reported loop k' k2
    → (code : ErrorCode) × (k2 ≡ record k' { error = code })
Reported-code loop k' k2 (inl (e, same)) = (out_of_memory, same)
Reported-code loop k' k2 (inr (e, same)) = (map_fail, same)

-- The allocator of addresses, as it is after they have been handed out, does not take them back.
abbrev pub Refused : System → List Cell → (n page : ℕ) → List Cell → Type 0
Refused s cells n page cells' =
    (a : Allocator) × (held : List Cell) × (allocate_virtual_memory (n * 4096) s
      ≡ ok (some (s.allocator.base + page * 4096)) (record s { allocator = a }))
    × IsAllocator a held
    × IsNotFreed a held cells' n page

-- The addresses are given back where a page of memory was missing, unless the allocator refuses that; and
-- they stay taken where a table was missing.
abbrev pub Returned : System → List Cell → (n page : ℕ) → Outcome Kernel Backed → List Cell → Type 0
Returned s cells n page loop cells' =
    (((q : ℕ) → free_at cells' q ≡ free_at cells q) × ((k' : Kernel) × (loop ≡ ok no_memory k')))
    ⊎ (((q : ℕ) → free_at cells' q ≡ marked (free_at cells) page n false q)
        × (((k' : Kernel) × (loop ≡ ok no_mapping k')) ⊎ Refused s cells n page cells'))

-- There was no memory for a page, or for a table: the pages before it stay mapped, an error says which it
-- was, and with it whether the addresses are given back.
pub record HasNoMemory (s : System) (bs : List Block) (root : ℕ) (own : Owner) (cells : List Cell)
    (n r : ℕ) (s' : System) (page done : ℕ) (k' : Kernel) (cells' : List Cell) (left : List Block)
    (own' : Owner) : Type 0 where
  pub failed : r ≡ map_failed
  pub stays : Stays s s'
  pub good : IsAllocator s'.allocator cells'
  pub memory : IsBacked s.kernel bs root own (s.allocator.base + page * 4096) done k' left own'
  pub fewer : done < n
  pub bounded : page + n ≤ s.allocator.total_pages
  pub were_free : (q : ℕ) → within page n q ≡ true → free_at cells q ≡ true
  pub none_left : TooSmall 4096 left
  pub given_back :
      Returned s cells n page (back_pages n 0 (s.allocator.base + page * 4096) s.kernel) cells'
  pub reported : Reported (back_pages n 0 (s.allocator.base + page * 4096) s.kernel) k' s'.kernel

abbrev pub MmapTo :
    System → List Block → (root : ℕ) → Owner → List Cell → (n r : ℕ) → System → Type 0
MmapTo s bs root own cells n r s' =
    ((page : ℕ) × (cells' : List Cell) × (left : List Block) × (own' : Owner) × IsMmapped s bs root
        own cells n r s' page cells' left own')
    ⊎ (((cells' : List Cell) × HasNoAddress s cells n r s' cells')
        ⊎ ((page : ℕ) × (done : ℕ) × (k' : Kernel) × (cells' : List Cell) × (left : List Block)
            × (own' : Owner) × HasNoMemory s bs root own cells n r s' page done k' cells' left
                own'))
