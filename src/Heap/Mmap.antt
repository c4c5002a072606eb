-- ===== src/Heap/Mmap.antt =====
-- `mmap` of kernel/mm/heap.cpp, over the allocators of addresses and of memory and the page tables.
use mathlib.Core.Path.{subst}
use unnamed.Prelude.{
  ℕ, ◌+◌, ◌*◌, ◌/◌, ◌^◌, ◌≤◌, ◌<◌, ◌≡◌, refl, ap, sym, ◌∙◌, inl, inr, Bool, true, false, Option,
  none, some, List, arith, ◌==◌,
}
use unnamed.Helpers.{check_aligned, is_flag_set, align_up}
use unnamed.Helpers.Align.{check_aligned_iff, align_up-div}
use unnamed.Run.{Outcome, ok, pure}
use unnamed.Run.Ensures.{Ensures, and_then-Ensures, and_then-known, Ensures-ok}
use unnamed.Machine.{Kernel, out_of_memory, set_error, page_size}
use unnamed.Pma.Blocks.{Block}
use unnamed.Pma.Spec.{TooSmall}
use unnamed.Vmm.Walk.{Owner}
use unnamed.Vma.{Allocator, page_from_vaddr}
use unnamed.Vma.Calls.{alloc_pages, free}
use unnamed.Vma.Zipper.{Cell, free_at}
use unnamed.Vma.Mark.{marked}
use unnamed.Vma.AllocPages.{
  IsAllocator, IsKept, IsHandedOut, AllocTo, alloc_pages-AllocTo, pages_fit,
}
use unnamed.Vma.FreeCall.{FreeTo, free-FreeTo}
use unnamed.Heap.{
  System, kernel_outcome, allocator_outcome, rounds, map_failed, map_private, map_anonymous, Backed,
  backed, no_memory, no_mapping, back_pages, allocate_virtual_memory, deallocate_virtual_memory,
  mmap, mmap_at, mmap_finish,
}
use unnamed.Heap.Loop.{back_pages-BackedTo}
use unnamed.Heap.Backing.{IsBacked, BackedTo}
use unnamed.Heap.Outcomes.{allocator-Ensures, IsSystem, Stays, MmapTo, Reported, Returned}

module _ (s : System) (bs : List Block) (root : ℕ) (own : Owner) (cells : List Cell)
    (good : IsSystem s bs root own cells) (n : ℕ) (some_pages : 0 < n) (few : n ≤ 2 ^ 36) where
  whole : check_aligned (n * 4096) page_size ≡ true
  whole = (check_aligned_iff 12 (n * 4096) (omega arith)).1 (omega arith)

  pub allocate-AllocTo : Ensures (allocate_virtual_memory (n * 4096) s) (λ r s'.
      (s' ≡ record s { allocator = s'.allocator }) × AllocTo s.allocator cells n 0 r s'.allocator)
  unfolding allocate_virtual_memory
  allocate-AllocTo =
      let pages : n * 4096 / page_size ≡ n = omega arith in
      simp (whole, pages)
        (allocator-Ensures s _ (alloc_pages (rounds s) n 1 s.allocator)
          (AllocTo s.allocator cells n 0)
          (alloc_pages-AllocTo s.allocator cells good.addresses n 0 some_pages (omega arith)
            (rounds s) (omega arith))
          (λ r a post. (refl, post)))

  -- What follows once the addresses are there.
  module _ (a1 : Allocator) (cells1 : List Cell) (page base : ℕ) (good1 : IsAllocator a1 cells1)
      (kept : IsKept s.allocator a1) (handed : IsHandedOut s.allocator cells cells1 n 0 base page)
      (allocated : allocate_virtual_memory (n * 4096) s
        ≡ ok (some base) (record s { allocator = a1 })) where
    abbrev s1 : System
    s1 = record s { allocator = a1 }

    limit : s.allocator.total_pages ≤ 2 ^ 52
    limit = pages_fit s.allocator cells good.addresses

    same_page : page_from_vaddr a1 base ≡ page
    unfolding page_from_vaddr
    same_page =
        let l = limit in
        omega (arith, handed.address, kept.base, handed.bounded, good.addresses.reach)

    -- Pages that were free are free again.
    restored :
        (cells2 : List Cell)
        → ((q : ℕ) → free_at cells2 q ≡ marked (free_at cells1) page n true q)
        → (q : ℕ) → free_at cells2 q ≡ free_at cells q
    restored cells2 after q =
        let e = after q in let f = handed.after q in let w = handed.were_free q in ground (arith, w)

    abbrev loop : Outcome Kernel Backed
    loop = back_pages n 0 base s.kernel

    abbrev Failed : (k' : Kernel) (done : ℕ) (left : List Block) (own' : Owner) → Type 0
    Failed k' done left own' =
        IsBacked s.kernel bs root own base done k' left own' × ((done < n) × TooSmall 4096 left)

    module _ (k' : Kernel) (done : ℕ) (left : List Block) (own' : Owner)
        (b : Failed k' done left own') where
      no_memory_lem :
          (r : ℕ) (s' : System) (cells' : List Cell)
          → r ≡ map_failed
          → Stays s s'
          → Reported loop k' s'.kernel
          → IsAllocator s'.allocator cells'
          → Returned s cells n page loop cells'
          → MmapTo s bs root own cells n r s'
      no_memory_lem r s' cells' failed stays reported good' back = inr (
          inr (
            page,
            done,
            k',
            cells',
            left,
            own',
            record {
              failed = failed;
              stays = stays;
              good = good';
              memory = rw (sym handed.address) b.0;
              fewer = b.1.0;
              bounded = handed.bounded;
              were_free = handed.were_free;
              none_left = b.1.1;
              given_back =
                  subst (λ v. Returned s cells n page (back_pages n 0 v s.kernel) cells')
                    handed.address back;
              reported =
                  subst (λ v. Reported (back_pages n 0 v s.kernel) k' s'.kernel) handed.address
                    reported;
            },
          ))

      stay_through :
          (a2 : Allocator)
          → IsKept a1 a2
          → Stays s (record s { kernel = record k' { error = out_of_memory }; allocator = a2 })
      stay_through a2 kept2 = record {
        kept = record {
          base = kept2.base ∙ kept.base;
          total_pages = kept2.total_pages ∙ kept.total_pages;
        };
        rest = refl;
      }

      given_back :
          loop ≡ ok no_memory k'
          → (done' : Bool) (a2 : Allocator) → FreeTo a1 cells1 n page done' a2
          → MmapTo s bs root own cells n map_failed
              (record s { kernel = record k' { error = out_of_memory }; allocator = a2 })
      given_back run true a2 (cells2, good2, kept2, back) =
          no_memory_lem map_failed _ cells2 refl (stay_through a2 kept2) (inl (run, refl)) good2
            (inl (restored cells2 back.after, (k', run)))
      given_back run false a2 (cells2, good2, kept2, stay) =
          no_memory_lem map_failed _ cells2 refl (stay_through a2 kept2) (inl (run, refl)) good2 (
            inr (
              λ q. stay.after q ∙ handed.after q,
              inr (
                a1,
                cells1,
                subst (λ v. allocate_virtual_memory (n * 4096) s ≡ ok (some v) s1) handed.address
                    allocated,
                good1,
                stay,
              ),
            ))

    deallocate-FreeTo :
        (k : Kernel)
        → Ensures (deallocate_virtual_memory base (n * 4096) (record s1 { kernel = k })) (λ _ s3.
          (done : Bool) × (s3 ≡ record s { kernel = k; allocator = s3.allocator })
          × FreeTo a1 cells1 n page done s3.allocator)
    unfolding deallocate_virtual_memory
    deallocate-FreeTo k =
        let pages : n * 4096 / page_size ≡ n = omega arith in
        let l = limit in
        let s2 : System = record s1 { kernel = k } in
        simp pages (
          and_then-Ensures (allocator_outcome s2 (free (rounds s2) base n a1)) (λ _. pure tt)
            (λ done s3.
              (s3 ≡ record s2 { allocator = s3.allocator })
              × FreeTo a1 cells1 n page done s3.allocator)
            (λ _ s3.
              (done : Bool) × (s3 ≡ record s { kernel = k; allocator = s3.allocator })
              × FreeTo a1 cells1 n page done s3.allocator)
            (allocator-Ensures s2 _ (free (rounds s2) base n a1) (FreeTo a1 cells1 n page)
              (subst (λ p. Ensures (free (rounds s2) base n a1) (FreeTo a1 cells1 n p)) same_page
                (free-FreeTo a1 cells1 good1 n base some_pages (omega arith) (rounds s2)
                  (omega arith)))
              (λ x a2 post. (refl, post)))
            (λ done s3 (e, post). (done, e, post)))

    mmap_finish-MmapTo :
        (result : Backed) (k' : Kernel)
        → loop ≡ ok result k'
        → BackedTo s.kernel bs root own base n result k'
        → Ensures
            (mmap_finish base (n * 4096) result (record s1 { kernel = k' }))
            (MmapTo s bs root own cells n)
    unfolding mmap_finish set_error
    mmap_finish-MmapTo backed k' run (done, left, own', b, all) = inl (
      page,
      cells1,
      left,
      own',
      record {
        stays = record { kept = kept; rest = refl };
        good = good1;
        handed = handed;
        memory = rw all at b;
      },
    )
    mmap_finish-MmapTo no_memory k' run (done, left, own', b, less) =
        let q : Kernel = record k' { error = out_of_memory } in
        and_then-Ensures (deallocate_virtual_memory base (n * 4096) (record s1 { kernel = q }))
          (λ _. pure map_failed)
          (λ _ s3.
            (done : Bool) × (s3 ≡ record s { kernel = q; allocator = s3.allocator })
            × FreeTo a1 cells1 n page done s3.allocator)
          (MmapTo s bs root own cells n) (deallocate-FreeTo q)
          (λ _ s3 (done', e, post).
            subst (MmapTo s bs root own cells n map_failed) (sym e)
              (given_back k' done left own' (b, less) run done' s3.allocator post))
    mmap_finish-MmapTo no_mapping k' run (done, left, own', b, less) =
        no_memory_lem k' done left own' (b, less) map_failed _ cells1 refl
          (record { kept = kept; rest = refl }) (inr (run, refl)) good1
          (inr (handed.after, inl (k', run)))

    mmap_at-MmapTo : Ensures (mmap_at (n * 4096) (some base) s1) (MmapTo s bs root own cells n)
    unfolding mmap_at
    mmap_at-MmapTo =
        let pages : n * 4096 / page_size ≡ n = omega arith in
        let start : base + 0 * 4096 ≡ base = omega arith in
        let l = limit in
        let at = handed.address in
        let some_base = good.some_base in
        let base_page = good.base_page in
        let (result, k', run, post) = Ensures-ok loop (BackedTo s.kernel bs root own base n) (
          subst (λ v. Ensures loop (BackedTo s.kernel bs root own v n)) start
            (back_pages-BackedTo root base (omega arith) (omega arith) n 0 s.kernel bs own
              good.active (omega (arith, handed.bounded, good.addresses.reach)) few good.list
              good.tables)) in
        simp pages (
          and_then-known (kernel_outcome s1 loop) (mmap_finish base (n * 4096))
            (MmapTo s bs root own cells n) result (record s1 { kernel = k' })
            (ap (kernel_outcome s1) run) (mmap_finish-MmapTo result k' run post))

  mmap_lem :
      (result : Option ℕ) (a1 : Allocator)
      → allocate_virtual_memory (n * 4096) s ≡ ok result (record s { allocator = a1 })
      → AllocTo s.allocator cells n 0 result a1
      → Ensures
          (mmap_at (n * 4096) result (record s { allocator = a1 }))
          (MmapTo s bs root own cells n)
  unfolding mmap_at
  mmap_lem none a1 run (cells1, good1, kept, refused) = inr (
      inl (
        cells1,
        record {
          failed = refl;
          stays = record { kept = kept; rest = refl };
          good = good1;
          refused = refused;
          same = refl;
        },
      ))
  mmap_lem (some base) a1 run (cells1, page, good1, kept, handed) =
      mmap_at-MmapTo a1 cells1 page base good1 kept handed run

-- On a system in order, where the memory allocator behind `new` and `delete` calls none of `mmap`, `munmap` and `sbrk`,
-- with both flags and at least one byte and at most 2^36 pages asked for, `mmap`
-- ends in one of three ways. It returns the address of pages that were free and are handed out, and
-- each of them is mapped for reading and writing to a page of memory of its own, which was free and is
-- free no more, and every other page is translated as before. Or no range of addresses fits, or nodes were
-- short, and the page tables and the memory have not changed. Or there is no block of memory for a page or a
-- table: then the pages before that one stay mapped. For a page, the error is out_of_memory and the addresses
-- are free again, or the allocator has refused to take them back and they stay taken; for a table, the error is
-- map_fail and the addresses stay taken.
pub mmap-MmapTo :
    (s : System) (bs : List Block) (root : ℕ) (own : Owner) (cells : List Cell) (length flags : ℕ)
    → IsSystem s bs root own cells
    → 0 < length
    → length ≤ 2 ^ 48
    → is_flag_set flags map_private ≡ true
    → is_flag_set flags map_anonymous ≡ true
    → Ensures (mmap length flags s) (MmapTo s bs root own cells ((length + 4095) / 4096))
unfolding mmap
mmap-MmapTo s bs root own cells length flags good some_bytes few private anonymous =
    let n : ℕ = (length + 4095) / 4096 in
    let some_length : (length == 0) ≡ false = ground arith in
    let rounded : align_up length page_size ≡ n * 4096 =
      align_up-div 12 length (omega arith) (omega arith) ∙ omega arith in
    let (r, s', run, (e, post)) =
      Ensures-ok (allocate_virtual_memory (n * 4096) s)
        (λ r s'.
          (s' ≡ record s { allocator = s'.allocator })
          × AllocTo s.allocator cells n 0 r s'.allocator)
        (allocate-AllocTo s bs root own cells good n (omega arith) (omega arith)) in
    let run' : allocate_virtual_memory (n * 4096) s ≡ ok r (record s { allocator = s'.allocator }) =
      run ∙ ap (ok r) e in
    simp (private, anonymous, some_length, rounded)
      (and_then-known (allocate_virtual_memory (n * 4096) s) (mmap_at (n * 4096))
        (MmapTo s bs root own cells n) r (record s { allocator = s'.allocator }) run'
        (mmap_lem s bs root own cells good n (omega arith) (omega arith) r s'.allocator run' post))
