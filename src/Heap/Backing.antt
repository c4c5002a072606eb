-- ===== src/Heap/Backing.antt =====
-- What the loop of `mmap` and `sbrk` in kernel/mm/heap.cpp is to do: pages of memory behind a range of
-- addresses.
use unnamed.Prelude.{ℕ, ◌+◌, ◌*◌, ◌^◌, ◌<◌, ◌≡◌, ◌≢◌, some, List, All}
use unnamed.Machine.{Kernel}
use unnamed.Pma.Handed.{Covers}
use unnamed.Pma.Blocks.{Block, Apart}
use unnamed.Pma.Spec.{IsFreeList, TooSmall}
use unnamed.Vmm.Entries.{frame, low_flags}
use unnamed.Vmm.Walk.{translate, Owner, IsTables, Extends}
use unnamed.Vmm.Descent.{page_of}
use unnamed.Vmm.Mapping.{IsPage}
use unnamed.Heap.{Backed, backed, no_memory, no_mapping, read_write}

-- A page of memory, by its physical address, that was free and is free no more.
pub record IsTaken (slide : ℕ) (bs left : List Block) (phys : ℕ) : Type 0 where
  pub page : IsPage phys
  pub small : phys < 2 ^ 52
  pub was_free : (x : Block) → All (Apart x) bs → Apart x (slide + phys, 4096)
  pub fresh : All (Apart (slide + phys, 4096)) left

abbrev pub IsTakenAt : (slide : ℕ) (bs left : List Block) → Kernel → (root virt : ℕ) → Type 0
IsTakenAt slide bs left k' root virt =
    (phys : ℕ) × IsTaken slide bs left phys
    × (translate k' root virt ≡ some (2 ^ 63 + frame phys + low_flags read_write))

-- Pages from the address `first` on are mapped with read and write access, each to a page of memory of
-- its own that was free, and every other page is translated as before.
pub record IsBacked (k : Kernel) (bs : List Block) (root : ℕ) (own : Owner) (first count : ℕ)
    (k' : Kernel) (left : List Block) (own' : Owner) : Type 0 where
  pub list : IsFreeList k' left
  pub tables : IsTables k'.boot k'.mem left root own'
  pub extends : Extends own own'
  pub covered : Covers bs left
  pub found : (j : ℕ) → j < count → IsTakenAt k.memory_slide bs left k' root (first + j * 4096)
  pub distinct :
      (i j : ℕ)
      → i < j
      → j < count
      → translate k' root (first + i * 4096) ≢ translate k' root (first + j * 4096)
  pub others :
      (w : ℕ)
      → ((j : ℕ) → j < count → page_of w ≢ page_of (first + j * 4096))
      → translate k' root w ≡ translate k root w
  pub rest : k' ≡ record k { mem = k'.mem; invalidated = k'.invalidated }

-- All of the pages, or, where it says so, fewer, since no free block has room for a page.
abbrev pub Extent : List Block → (count done : ℕ) → Backed → Type 0
Extent left count done backed = done ≡ count
Extent left count done no_memory = (done < count) × TooSmall 4096 left
Extent left count done no_mapping = (done < count) × TooSmall 4096 left

abbrev pub BackedTo :
    Kernel → List Block → (root : ℕ) → Owner → (first count : ℕ) → Backed → Kernel → Type 0
BackedTo k bs root own first count result k' =
    (done : ℕ) × (left : List Block) × (own' : Owner) × IsBacked k bs root own first done k' left
      own'
    × Extent left count done result
