-- ===== src/Vma/AllocPages.antt =====
-- `alloc_pages` of kernel/mm/vma.hpp: the well-formed allocator, and what a call returns and keeps.
use native.Mathlib.Nat.{mod_self}
use unnamed.Prelude.{
  ℕ, ◌+◌, ◌*◌, ◌%◌, ◌^◌, ◌≤◌, ◌<◌, ◌≡◌, refl, ap, ◌∙◌, ◌⊎◌, inl, inr, Bool, true, false, Option,
  none, some, List, [], ◌∷◌, leb, arith, ◌==◌, length, All, bit_and,
}
use unnamed.Prelude.Bits.{pow-pos, bit_and_low}
use unnamed.Prelude.Words.{sub64, sub64_one}
use unnamed.Run.{ok}
use unnamed.Run.Ensures.{Ensures, Ensures-arg, and_then-Ensures}
use unnamed.Vma.{Allocator, page_size, vaddr_from_page, lock, unlock}
use unnamed.Vma.Calls.{alloc_loop, alloc_pages}
use unnamed.Vma.Zipper.{Cell, first, Tiles, IsZipper, IsZipper-zip, zip, free_at}
use unnamed.Vma.Pool.{IsPool}
use unnamed.Vma.Mark.{IsState, within, marked}
use unnamed.Vma.Fit.{fits}
use unnamed.Vma.AllocLoop.{LoopTo, alloc_loop-LoopTo}

-- The allocator between calls: its ranges in order, from the first page to the last.
pub record IsAllocator (a : Allocator) (cells : List Cell) : Type 0 where
  pub zipper : IsZipper a [] cells 0
  pub pool : IsPool a
  pub unlocked : a.locked ≡ false
  -- its addresses are words
  pub reach : a.base + a.total_pages * page_size ≤ 2 ^ 64

-- A call changes nodes and the stack only.
pub record IsKept (a a' : Allocator) : Type 0 where
  pub base : a'.base ≡ a.base
  pub total_pages : a'.total_pages ≡ a.total_pages

-- The pages `page` to `page + n` were free and are handed out, all others are as free as before.
pub record IsHandedOut (a : Allocator) (cells cells' : List Cell) (n k vaddr page : ℕ)
    : Type 0 where
  pub address : vaddr ≡ a.base + page * page_size
  pub multiple : page % 2 ^ k ≡ 0
  pub bounded : page + n ≤ a.total_pages
  pub were_free : (q : ℕ) → within page n q ≡ true → free_at cells q ≡ true
  pub after : (q : ℕ) → free_at cells' q ≡ marked (free_at cells) page n false q

-- Nothing is handed out, and either no range fits or fewer than two nodes were on the stack.
pub record IsRefused (a : Allocator) (cells cells' : List Cell) (n k : ℕ) : Type 0 where
  pub after : (q : ℕ) → free_at cells' q ≡ free_at cells q
  pub why : (length a.free_stack < 2) ⊎ All (λ c. fits n (2 ^ k) c ≡ false) cells

abbrev pub AllocTo : Allocator → List Cell → (n k : ℕ) → Option ℕ → Allocator → Type 0
AllocTo a cells n k (some vaddr) a' =
    (cells' : List Cell) × (page : ℕ) × IsAllocator a' cells'
    × IsKept a a'
    × IsHandedOut a cells cells' n k vaddr page
AllocTo a cells n k none a' =
    (cells' : List Cell) × IsAllocator a' cells' × IsKept a a' × IsRefused a cells cells' n k

-- There are no more ranges than pages.
pub length-Tiles : (total pos : ℕ) (cs : List Cell) → Tiles total pos cs → pos + length cs ≤ total
length-Tiles total pos [] t = omega (arith, t)
length-Tiles total pos (c ∷ cs) t = omega (arith, length-Tiles total (pos + c.npages) cs t.2, t.1)

abbrev pub with_lock : Allocator → Bool → Allocator
with_lock a b = record a { locked = b }

-- The lock is no part of the list.
pub with_lock-IsZipper :
    (a : Allocator) (b : Bool) (left right : List Cell) (pos : ℕ)
    → IsZipper a left right pos
    → IsZipper (with_lock a b) left right pos
with_lock-IsZipper a b left right pos z = record {
  ahead = z.ahead;
  behind = z.behind;
  tiles = z.tiles;
  tiles_back = z.tiles_back;
  leads = z.leads;
}

pub with_lock-IsPool : (a : Allocator) (b : Bool) → IsPool a → IsPool (with_lock a b)
with_lock-IsPool a b p = record { unused = p.unused; distinct = p.distinct; fresh = p.fresh }

module _ (a : Allocator) (cells : List Cell) (good : IsAllocator a cells) where
  abbrev pub held : Allocator
  held = with_lock a true

  -- The state under the lock, before the loop.
  pub held-IsState : IsState held (free_at cells) held [] cells 0
  held-IsState = record {
    zipper = with_lock-IsZipper a true [] cells 0 good.zipper;
    pool = with_lock-IsPool a true good.pool;
    kept = refl;
    same = λ page. refl;
  }

  -- The state when the lock is released.
  pub released :
      (free : ℕ → Bool) (a' : Allocator) (left right : List Cell) (pos : ℕ)
      → IsState held free a' left right pos
      → IsAllocator (with_lock a' false) (zip left right) × IsKept a (with_lock a' false)
  released free a' left right pos s =
      let base : a'.base ≡ a.base = ap (λ x. x.base) s.kept in
      let total : a'.total_pages ≡ a.total_pages = ap (λ x. x.total_pages) s.kept in
      (
        record {
          zipper =
              with_lock-IsZipper a' false [] (zip left right) 0
                (IsZipper-zip a' left right pos s.zipper);
          pool = with_lock-IsPool a' false s.pool;
          unlocked = refl;
          reach = rw (base, total) good.reach;
        },
        record { base = base; total_pages = total },
      )

  pub pages_fit : a.total_pages ≤ 2 ^ 52
  pages_fit = omega (arith, good.reach)

-- The result and state of the loop as those of the call.
module _ (a : Allocator) (cells : List Cell) (good : IsAllocator a cells) (n k : ℕ)
    (some_pages : 0 < n) (exponent : k < 64) where
  unlock_result :
      (result : Option ℕ) (a' : Allocator)
      → LoopTo
          (held a cells good)
          (free_at cells)
          n
          k
          some_pages
          (let l = pages_fit a cells good in omega arith)
          exponent
          cells
          result
          a'
      → AllocTo a cells n k result (with_lock a' false)
  unfolding vaddr_from_page
  unlock_result (some vaddr) a' (page, left, right, pos, t) =
      let limit = pages_fit a cells good in
      let done =
        released a cells good (marked (free_at cells) page n false) a' left right pos t.state in
      let exact : vaddr_from_page (held a cells good) page ≡ a.base + page * page_size =
        omega (arith, t.bounded, good.reach) in
      (
        zip left right,
        page,
        done.0,
        done.1,
        record {
          address = t.address ∙ exact;
          multiple = t.multiple;
          bounded = t.bounded;
          were_free = t.were_free;
          after = t.state.same;
        },
      )
  unlock_result none a' (left, right, pos, s, why) =
      let done = released a cells good (free_at cells) a' left right pos s in
      (
        zip left right,
        done.0,
        done.1,
        record {
          after = s.same;
          why = elim why [ inl short ↦ inl short | inr (same, unfit) ↦ inr unfit ];
        },
      )

  -- On a well-formed allocator, where the memory allocator behind `new` and `delete` calls none of `mmap`,
  -- `munmap` and `sbrk`, with at least one page asked for and an alignment 2^k of fewer than 64 digits,
  -- `alloc_pages` ends, within one round of its loop for each page and one more, and leaves the allocator
  -- well-formed. Where it returns an address, that is the address of a page that 2^k divides, it and
  -- the pages behind it were free, and exactly these are free no more. Otherwise the free pages are
  -- as before, and either no free range has room for the pages, or fewer than two nodes were on the
  -- stack.
  pub alloc_pages-AllocTo :
      (fuel : ℕ)
      → a.total_pages < fuel
      → Ensures (alloc_pages fuel n (2 ^ k) a) (AllocTo a cells n k)
  unfolding alloc_pages lock unlock
  alloc_pages-AllocTo fuel enough =
      let some_n : (n == 0) ≡ false = ground arith in
      let digit : (bit_and (2 ^ k) (sub64 (2 ^ k) 1) == 0) ≡ true =
        rw (sub64_one k exponent, bit_and_low k (2 ^ k), mod_self (2 ^ k)) (ground arith) in
      let least : leb 1 (2 ^ k) ≡ true = (let p = pow-pos k in ground arith) in
      let short = length-Tiles a.total_pages 0 cells good.zipper.tiles in
      let limit = pages_fit a cells good in
      simp (some_n, digit, least, good.unlocked)
        (and_then-Ensures (alloc_loop fuel n (2 ^ k) a.head (held a cells good))
          (λ result a'. ok result (with_lock a' false))
          (LoopTo (held a cells good) (free_at cells) n k some_pages (omega arith) exponent cells)
          (AllocTo a cells n k)
          (Ensures-arg (λ cur. alloc_loop fuel n (2 ^ k) cur (held a cells good)) a.head
            (first cells)
            (LoopTo (held a cells good) (free_at cells) n k some_pages (omega arith) exponent cells)
            good.zipper.leads
            (alloc_loop-LoopTo (held a cells good) (free_at cells) n k some_pages (omega arith)
              exponent cells fuel (omega arith) (held a cells good) [] 0 (held-IsState a cells good)
              (inr refl)))
          unlock_result)
