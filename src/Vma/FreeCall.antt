-- ===== src/Vma/FreeCall.antt =====
-- The call of `free` in kernel/mm/vma.hpp as a whole, with its early returns and the lock.
use unnamed.Prelude.{
  ℕ, ◌+◌, ◌^◌, ◌≤◌, ◌<◌, ◌≡◌, refl, ◌⊎◌, inl, inr, Bool, true, false, List, [], ◌∷◌, leb, arith,
  ◌==◌, Bool-cases, length, All,
}
use unnamed.Run.{ok}
use unnamed.Run.Ensures.{Ensures, Ensures-arg, and_then-Ensures}
use unnamed.Vma.{Allocator, page_from_vaddr, lock, unlock}
use unnamed.Vma.Calls.{free_loop, free}
use unnamed.Vma.Zipper.{Cell, first, Tiles, zip, free_at}
use unnamed.Vma.Link.{Tiles-le}
use unnamed.Vma.Mark.{within, marked}
use unnamed.Vma.AllocPages.{
  IsAllocator, IsKept, length-Tiles, with_lock, held, held-IsState, released, pages_fit,
}
use unnamed.Vma.FreeParts.{holds_pages, FreedTo}
use unnamed.Vma.FreePages.{Passed, free_loop-FreedTo}

-- The pages were used and are free, all others are as free as before.
pub record IsGivenBack (cells cells' : List Cell) (n page : ℕ) : Type 0 where
  pub were_used : (q : ℕ) → within page n q ≡ true → free_at cells q ≡ false
  pub after : (q : ℕ) → free_at cells' q ≡ marked (free_at cells) page n true q

-- Nothing is made free: no used range holds the pages, or fewer than two nodes were on the stack.
pub record IsNotFreed (a : Allocator) (cells cells' : List Cell) (n page : ℕ) : Type 0 where
  pub after : (q : ℕ) → free_at cells' q ≡ free_at cells q
  pub why : (length a.free_stack < 2) ⊎ All (λ c. holds_pages n page c ≡ false) cells

abbrev pub FreeTo : Allocator → List Cell → (n page : ℕ) → Bool → Allocator → Type 0
FreeTo a cells n page true a' =
    (cells' : List Cell) × IsAllocator a' cells' × IsKept a a' × IsGivenBack cells cells' n page
FreeTo a cells n page false a' =
    (cells' : List Cell) × IsAllocator a' cells' × IsKept a a' × IsNotFreed a cells cells' n page

-- No range holds pages that are not in the allocator.
All-before :
    (n page total pos : ℕ) (xs : List Cell)
    → 0 < n
    → total ≤ page
    → Tiles total pos xs
    → All (λ c. holds_pages n page c ≡ false) xs
All-before n page total pos [] some_pages le t = tt
All-before n page total pos (c ∷ xs) some_pages le t =
    let at = t.0 in
    let fit = Tiles-le total (pos + c.npages) xs t.2 in
    (ground arith, All-before n page total (pos + c.npages) xs some_pages le t.2)

module _ (a : Allocator) (cells : List Cell) (good : IsAllocator a cells) (n page : ℕ)
    (some_pages : 0 < n) where
  unlock_result :
      (done : Bool) (a' : Allocator)
      → FreedTo
          (held a cells good)
          (free_at cells)
          n
          page
          (Passed
            (held a cells good)
            (free_at cells)
            n
            page
            (let l = pages_fit a cells good in omega arith)
            some_pages
            cells)
          done
          a'
      → FreeTo a cells n page done (with_lock a' false)
  unlock_result true a' (left, right, pos, s, were_used) =
      let rel = released a cells good (marked (free_at cells) page n true) a' left right pos s in
      (zip left right, rel.0, rel.1, record { were_used = were_used; after = s.same })
  unlock_result false a' (left, right, pos, s, why) =
      let rel = released a cells good (free_at cells) a' left right pos s in
      (zip left right, rel.0, rel.1, record { after = s.same; why = why })

module _ (a : Allocator) (cells : List Cell) (good : IsAllocator a cells) (n vaddr : ℕ)
    (some_pages : 0 < n) (small : n < 2 ^ 63) where
  -- On a well-formed allocator, where the memory allocator behind `new` and `delete` calls none of `mmap`,
  -- `munmap` and `sbrk`, for at least one and fewer than 2^63 pages, `free` ends within one round of its loop for
  -- each page and one more, and leaves the allocator well-formed. Where it returns true, the pages from
  -- the address on were used, and exactly these have become free. Where it returns false, the same pages
  -- are free as before, and either no used range holds the pages, or fewer than two nodes were on the stack.
  pub free-FreeTo :
      (fuel : ℕ)
      → a.total_pages < fuel
      → Ensures (free fuel vaddr n a) (FreeTo a cells n (page_from_vaddr a vaddr))
  unfolding free lock unlock
  free-FreeTo fuel enough =
      let page : ℕ = page_from_vaddr a vaddr in
      let some_n : (n == 0) ≡ false = ground arith in
      let tiles = good.zipper.tiles in
      let short = length-Tiles a.total_pages 0 cells tiles in
      let limit = pages_fit a cells good in
      simp some_n (elim (Bool-cases (leb a.total_pages page)) [
        | inl beyond ↦ simp beyond (
          cells,
          good,
          record { base = refl; total_pages = refl },
          record {
            after = λ q. refl;
            why = inr (All-before n page a.total_pages 0 cells some_pages (ground arith) tiles);
          },
        )
        | inr inside ↦
            let below : page < a.total_pages = ground arith in
            simp (inside, good.unlocked)
              (and_then-Ensures (free_loop fuel n page a.head (held a cells good))
                (λ done a'. ok done (with_lock a' false))
                (FreedTo (held a cells good) (free_at cells) n page (
                  Passed (held a cells good) (free_at cells) n page (omega arith) some_pages cells))
                (FreeTo a cells n page)
                (Ensures-arg (λ cur. free_loop fuel n page cur (held a cells good)) a.head
                  (first cells)
                  (FreedTo (held a cells good) (free_at cells) n page (
                    Passed (held a cells good) (free_at cells) n page (omega arith) some_pages
                      cells))
                  good.zipper.leads
                  (free_loop-FreedTo (held a cells good) (free_at cells) n page (omega arith)
                    some_pages (omega arith) cells fuel (omega arith) [] 0
                    (held-IsState a cells good)))
                (unlock_result a cells good n page some_pages))
      ])
