-- ===== src/Vma/Leases.antt =====
-- Sequences of calls of `alloc_pages` and `free` in kernel/mm/vma.hpp, against the ranges that the
-- callers hold.
use unnamed.Prelude.{
  ℕ, ◌^◌, ◌<◌, ◌≡◌, refl, sym, ◌∙◌, inl, inr, true, false, none, some, List, [], ◌∷◌, ◌++◌, arith,
  All, Bool-cases,
}
use unnamed.Run.{Outcome, ok}
use unnamed.Run.Ensures.{Ensures}
use unnamed.Vma.{Allocator, page_from_vaddr}
use unnamed.Vma.Calls.{alloc_pages, free}
use unnamed.Vma.Zipper.{Cell, free_at}
use unnamed.Vma.Mark.{within, marked}
use unnamed.Vma.AllocPages.{IsAllocator, IsKept, AllocTo, alloc_pages-AllocTo, pages_fit}
use unnamed.Vma.FreeCall.{FreeTo, free-FreeTo}
use unnamed.Vma.Held.{
  Lease, address, Step, step_alloc, step_refused, step_free, step_not_freed, Apart, AllApart,
  IsHeld, IsServed,
}

-- The postcondition of a call, at what it gave.
gave :
    {A : Type 0} (r : Outcome Allocator A) (P : A → Allocator → Type 0) (x : A) (a' : Allocator)
    → r ≡ ok x a'
    → Ensures r P
    → P x a'
gave r P x a' e h = rw e at h

Apart-sym : (l m : Lease) → Apart l m → Apart m l
Apart-sym l m h q in_m = elim (Bool-cases (within l.page l.npages q)) [
  | inl in_l ↦ (let out = h q in_l in let e : true ≡ false = sym in_m ∙ out in cc)
  | inr out ↦ out
]

module _ (l : Lease) (P : Lease → Type 0) where
  All-middle :
      (before after : List Lease) → All P (before ++ l ∷ after) → P l × All P (before ++ after)
  All-middle [] after h = h
  All-middle (m ∷ before) after h =
      let rest = All-middle before after h.1 in (rest.0, (h.0, rest.1))

AllApart-middle :
    (l : Lease) (before after : List Lease)
    → AllApart (before ++ l ∷ after)
    → All (Apart l) (before ++ after) × AllApart (before ++ after)
AllApart-middle l [] after h = h
AllApart-middle l (m ∷ before) after h =
    let rest = AllApart-middle l before after h.1 in
    let split = All-middle l (Apart m) before after h.0 in
    ((Apart-sym m l split.0, rest.0), (split.1, rest.1))

page-address :
    (a : Allocator) (cells : List Cell) (l : Lease)
    → IsAllocator a cells
    → l.page < a.total_pages
    → page_from_vaddr a (address a l) ≡ l.page
unfolding page_from_vaddr
page-address a cells l good lt = omega (arith, good.reach)

-- The ranges held stay held where no page of theirs becomes free.
All-IsHeld :
    (total total' : ℕ) (cells cells' : List Cell) (Spared : Lease → Type 0) (ls : List Lease)
    → total' ≡ total
    → ((m : Lease)
        → Spared m
        → (q : ℕ) → within m.page m.npages q ≡ true
        → free_at cells q ≡ false
        → free_at cells' q ≡ false)
    → All Spared ls
    → All (IsHeld total cells) ls
    → All (IsHeld total' cells') ls
All-IsHeld total total' cells cells' Spared [] e keep s h = tt
All-IsHeld total total' cells cells' Spared (m ∷ ls) e keep s h = (
  record {
    some_pages = h.0.some_pages;
    bounded = rw e h.0.bounded;
    used = λ q inside. keep m s.0 q inside (h.0.used q inside);
  },
  All-IsHeld total total' cells cells' Spared ls e keep s.1 h.1,
)

All-any : (ls : List Lease) → All (λ m. Unit {0}) ls
All-any [] = tt
All-any (m ∷ ls) = (tt, All-any ls)

-- The pages handed out were free, so no range held has them.
handed_apart :
    (total : ℕ) (cells : List Cell) (l : Lease)
    → ((q : ℕ) → within l.page l.npages q ≡ true → free_at cells q ≡ true)
    → (ls : List Lease) → All (IsHeld total cells) ls
    → All (Apart l) ls
handed_apart total cells l were_free [] h = tt
handed_apart total cells l were_free (m ∷ ls) h = (
  λ q in_l. elim (Bool-cases (within m.page m.npages q)) [
    | inl in_m ↦ (let e : true ≡ false = sym (were_free q in_l) ∙ h.0.used q in_m in cc)
    | inr out ↦ out
  ],
  handed_apart total cells l were_free ls h.1,
)

abbrev pub Served : Allocator → List Lease → Type 0
Served a ls = (cells : List Cell) × IsServed a ls cells

Served-same :
    (a a' : Allocator) (ls : List Lease) (cells cells' : List Cell)
    → IsServed a ls cells
    → IsAllocator a' cells'
    → IsKept a a'
    → ((q : ℕ) → free_at cells' q ≡ free_at cells q)
    → Served a' ls
Served-same a a' ls cells cells' s good kept same = (
  cells',
  record {
    good = good;
    held =
        All-IsHeld a.total_pages a'.total_pages cells cells' (λ m. Unit {0}) ls kept.total_pages
          (λ m u q inside was. same q ∙ was) (All-any ls) s.held;
    apart = s.apart;
  },
)

-- Every call of `alloc_pages` and `free` keeps the ranges held apart and in use.
pub Step-Served :
    (a : Allocator) (ls : List Lease) (a' : Allocator) (ls' : List Lease)
    → Step a ls a' ls'
    → Served a ls
    → Served a' ls'
Step-Served a ls a' ls' (step_alloc fuel k l enough some_pages small e) (cells, s) =
    let (cells', page, good, kept, out) =
      gave (alloc_pages fuel l.npages (2 ^ k) a) (AllocTo a cells l.npages k) (some (address a l))
        a' e (alloc_pages-AllocTo a cells s.good l.npages k some_pages small fuel enough) in
    let same_page : page ≡ l.page = omega (arith, out.address) in
    let after : (q : ℕ) → free_at cells' q ≡ marked (free_at cells) l.page l.npages false q =
      λ q. rw (sym same_page) (out.after q) in
    (
      cells',
      record {
        good = good;
        held = (
          record {
            some_pages = some_pages;
            bounded = rw (kept.total_pages, sym same_page) out.bounded;
            used = λ q inside. after q ∙ rw inside refl;
          },
          All-IsHeld a.total_pages a'.total_pages cells cells' (λ m. Unit {0}) ls kept.total_pages
              (λ m u q inside was. after q ∙ ground arith) (All-any ls) s.held,
        );
        apart = (
          handed_apart a.total_pages cells l (rw (sym same_page) out.were_free) ls s.held,
          s.apart,
        );
      },
    )
Step-Served a ls a' ls' (step_refused fuel k n enough some_pages small e) (cells, s) =
    let (cells', good, kept, out) =
      gave (alloc_pages fuel n (2 ^ k) a) (AllocTo a cells n k) none a' e
        (alloc_pages-AllocTo a cells s.good n k some_pages small fuel enough) in
    Served-same a a' ls cells cells' s good kept out.after
Step-Served a ls a' ls' (step_not_freed fuel vaddr n enough some_pages small e) (cells, s) =
    let (cells', good, kept, out) =
      gave (free fuel vaddr n a) (FreeTo a cells n (page_from_vaddr a vaddr)) false a' e
        (free-FreeTo a cells s.good n vaddr some_pages small fuel enough) in
    Served-same a a' ls cells cells' s good kept out.after
Step-Served a ls a' ls' (step_free before after fuel l enough e) (cells, s) =
    let (mine, others) = All-middle l (IsHeld a.total_pages cells) before after s.held in
    let (apart, rest) = AllApart-middle l before after s.apart in
    let limit = pages_fit a cells s.good in
    let at = page-address a cells l s.good (omega (arith, mine.bounded, mine.some_pages)) in
    let (cells', good, kept, out) =
      gave (free fuel (address a l) l.npages a)
        (FreeTo a cells l.npages (page_from_vaddr a (address a l))) true a' e
        (free-FreeTo a cells s.good l.npages (address a l) mine.some_pages
          (omega (arith, mine.bounded)) fuel enough) in
    (
      cells',
      record {
        good = good;
        held =
            All-IsHeld a.total_pages a'.total_pages cells cells' (Apart l) (before ++ after)
              kept.total_pages
              (λ m spared q inside was. out.after q ∙ rw (at, Apart-sym l m spared q inside) was)
              apart others;
        apart = rest;
      },
    )

-- Sequences of calls, the first one first.
pub data Steps : Allocator → List Lease → Allocator → List Lease → Type 0 where
  none_yet : {a : Allocator} {ls : List Lease} → Steps a ls a ls
  one_more :
      {a b c : Allocator} {ls ms ns : List Lease}
      → Step a ls b ms
      → Steps b ms c ns
      → Steps a ls c ns

-- After any sequence of calls that end on a well-formed allocator, where callers free the ranges they
-- hold, or are refused, and the memory allocator behind `new` and `delete` calls none of `mmap`, `munmap` and `sbrk`,
-- the allocator is well-formed, every range held is in use and lies within the pages, and no page is in
-- two of them, if this holds before the sequence.
pub Steps-Served :
    (a : Allocator) (ls : List Lease) (a' : Allocator) (ls' : List Lease)
    → Steps a ls a' ls'
    → Served a ls
    → Served a' ls'
Steps-Served a ls a' ls' none_yet s = s
Steps-Served a ls a' ls' (one_more {b} {ms} step rest) s =
    Steps-Served b ms a' ls' rest (Step-Served a ls b ms step s)
