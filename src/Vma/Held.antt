-- ===== src/Vma/Held.antt =====
-- Calls of `alloc_pages` and `free` in kernel/mm/vma.hpp, and the ranges that the callers hold.
use unnamed.Prelude.{
  ℕ, ◌+◌, ◌*◌, ◌^◌, ◌≤◌, ◌<◌, ◌≡◌, true, false, none, some, List, [], ◌∷◌, ◌++◌, All,
}
use unnamed.Run.{ok}
use unnamed.Vma.{Allocator, page_size}
use unnamed.Vma.Calls.{alloc_pages, free}
use unnamed.Vma.Zipper.{Cell, free_at}
use unnamed.Vma.Mark.{within}
use unnamed.Vma.AllocPages.{IsAllocator}

-- A range of pages that a caller holds.
pub record Lease : Type 0 where
  pub page : ℕ
  pub npages : ℕ

abbrev pub address : Allocator → Lease → ℕ
address a l = a.base + l.page * page_size

-- A call, and what it does to the ranges held: those who hold a range may give it back.
pub data Step : Allocator → List Lease → Allocator → List Lease → Type 0 where
  step_alloc :
      {a a' : Allocator} {ls : List Lease} (fuel k : ℕ) (l : Lease)
      → a.total_pages < fuel
      → 0 < l.npages
      → k < 64
      → alloc_pages fuel l.npages (2 ^ k) a ≡ ok (some (address a l)) a'
      → Step a ls a' (l ∷ ls)
  step_refused :
      {a a' : Allocator} {ls : List Lease} (fuel k n : ℕ)
      → a.total_pages < fuel
      → 0 < n
      → k < 64
      → alloc_pages fuel n (2 ^ k) a ≡ ok none a'
      → Step a ls a' ls
  step_free :
      {a a' : Allocator} (before after : List Lease) (fuel : ℕ) (l : Lease)
      → a.total_pages < fuel
      → free fuel (address a l) l.npages a ≡ ok true a'
      → Step a (before ++ l ∷ after) a' (before ++ after)
  step_not_freed :
      {a a' : Allocator} {ls : List Lease} (fuel : ℕ) (vaddr n : ℕ)
      → a.total_pages < fuel
      → 0 < n
      → n < 2 ^ 63
      → free fuel vaddr n a ≡ ok false a'
      → Step a ls a' ls

-- No page is in both ranges.
abbrev pub Apart : Lease → Lease → Type 0
Apart l m = (q : ℕ) → within l.page l.npages q ≡ true → within m.page m.npages q ≡ false

abbrev pub AllApart : List Lease → Type 0
AllApart [] = Unit
AllApart (l ∷ ls) = All (λ m. Apart l m) ls × AllApart ls

-- The range has pages of the allocator, none of which is free.
pub record IsHeld (total : ℕ) (cells : List Cell) (l : Lease) : Type 0 where
  pub some_pages : 0 < l.npages
  pub bounded : l.page + l.npages ≤ total
  pub used : (q : ℕ) → within l.page l.npages q ≡ true → free_at cells q ≡ false

-- The allocator is well-formed, the ranges held are not free, and no two of them share a page.
pub record IsServed (a : Allocator) (ls : List Lease) (cells : List Cell) : Type 0 where
  pub good : IsAllocator a cells
  pub held : All (IsHeld a.total_pages cells) ls
  pub apart : AllApart ls
