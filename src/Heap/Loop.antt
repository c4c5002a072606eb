-- ===== src/Heap/Loop.antt =====
-- The loop of `mmap` and `sbrk` in kernel/mm/heap.cpp, over the pages of a range of addresses.
use mathlib.Core.Path.{subst}
use mathlib.Core.Option.{some-injective}
use unnamed.Prelude.{
  ℕ, zero, suc, ◌+◌, ◌*◌, ◌%◌, ◌^◌, ◌≤◌, ◌<◌, ◌≡◌, ◌≢◌, refl, ap, sym, ◌-◌, ◌∙◌, some, List, arith,
}
use unnamed.Prelude.Words.{add64, mul64}
use unnamed.Machine.{Kernel, Cmd, pure, page_size}
use unnamed.Machine.Ensures.{Ensures, Ensures-mono, and_then-Ensures}
use unnamed.Pma.Blocks.{Block}
use unnamed.Pma.Spec.{IsFreeList}
use unnamed.Vmm.Entries.{frame, low_flags}
use unnamed.Vmm.Walk.{translate, Owner, IsTables}
use unnamed.Heap.{Backed, backed, no_memory, no_mapping, back_page, back_pages, read_write}
use unnamed.Heap.Backing.{IsTaken, IsTakenAt, IsBacked, BackedTo}
use unnamed.Heap.Pages.{IsBacked-none, back_page-BackedTo}

-- Pages that are taken one after the other have different entries.
taken_apart :
    (slide : ℕ) (bs l1 l2 : List Block) (phys phys' : ℕ)
    → IsTaken slide bs l1 phys
    → IsTaken slide l1 l2 phys'
    → some (2 ^ 63 + frame phys + low_flags read_write)
      ≢ some (2 ^ 63 + frame phys' + low_flags read_write)
taken_apart slide bs l1 l2 phys phys' t u e =
    let apart = u.was_free (slide + phys, 4096) t.fresh in
    let same = some-injective _ _ e in
    let a = t.page in let b = u.page in let c = t.small in let d = u.small in absurd (omega arith)

-- A page is mapped, and then pages behind it.
module _ (k k1 k2 : Kernel) (root : ℕ) (own own1 own2 : Owner) (first d : ℕ) (bs l1 l2 : List Block)
    (few : suc d ≤ 2 ^ 36) (a : IsBacked k bs root own first 1 k1 l1 own1)
    (b : IsBacked k1 l1 root own1 (first + 4096) d k2 l2 own2) where
  slide : k1.memory_slide ≡ k.memory_slide
  slide = ap (λ q. q.memory_slide) a.rest

  -- A page that was free in between was free before.
  later : (phys : ℕ) → IsTaken k1.memory_slide l1 l2 phys → IsTaken k.memory_slide bs l2 phys
  later phys t = record {
    page = t.page;
    small = t.small;
    was_free = λ x o. rw slide at (t.was_free x (a.covered x o));
    fresh = rw slide at t.fresh;
  }

  -- The first page is mapped as it was.
  first_kept : translate k2 root (first + 0 * 4096) ≡ translate k1 root (first + 0 * 4096)
  first_kept = b.others (first + 0 * 4096) (λ i l e. absurd (omega arith))

  first_found : IsTakenAt k.memory_slide bs l2 k2 root (first + 0 * 4096)
  first_found =
      let (phys, t, maps) = a.found 0 (omega arith) in
      (
        phys,
        record {
          page = t.page;
          small = t.small;
          was_free = t.was_free;
          fresh = b.covered (k.memory_slide + phys, 4096) t.fresh;
        },
        first_kept ∙ maps,
      )

  first_distinct :
      (j : ℕ)
      → j < d
      → translate k2 root (first + 0 * 4096) ≢ translate k2 root (first + 4096 + j * 4096)
  first_distinct j lt e =
      let (phys, t, maps) = a.found 0 (omega arith) in
      let (phys', u, maps') = b.found j lt in
      taken_apart k.memory_slide bs l1 l2 phys phys' t (subst (λ z. IsTaken z l1 l2 phys') slide u)
        (sym (first_kept ∙ maps) ∙ e ∙ maps')

  IsBacked-more : IsBacked k bs root own first (suc d) k2 l2 own2
  IsBacked-more = record {
    list = b.list;
    tables = b.tables;
    extends = λ t x o. b.extends t x (a.extends t x o);
    covered = λ x o. b.covered x (a.covered x o);
    found = λ j.
        elim j as (λ j. j < suc d → IsTakenAt k.memory_slide bs l2 k2 root (first + j * 4096)) [
          | zero ↦ λ lt. first_found
          | suc i ↦ λ lt.
              let e : first + suc i * 4096 ≡ first + 4096 + i * 4096 = omega arith in
              let (phys, taken, maps) = b.found i (omega arith) in
              (phys, later phys taken, rw e maps)
        ];
    distinct = λ i j.
        elim i
          as (λ i.
            i < j
            → j < suc d
            → translate k2 root (first + i * 4096) ≢ translate k2 root (first + j * 4096)) [
              | zero ↦ λ lt lim.
                  let to : first + j * 4096 ≡ first + 4096 + (j - 1) * 4096 = omega arith in
                  rw to (first_distinct (j - 1) (omega arith))
              | suc i ↦ λ lt lim.
                  let from : first + suc i * 4096 ≡ first + 4096 + i * 4096 = omega arith in
                  let to : first + j * 4096 ≡ first + 4096 + (j - 1) * 4096 = omega arith in
                  rw (from, to) (b.distinct i (j - 1) (omega arith) (omega arith))
            ];
    others = λ w apart.
        b.others w (λ j lt.
          let e : first + suc j * 4096 ≡ first + 4096 + j * 4096 = omega arith in
          rw e at (apart (suc j) (omega arith)))
        ∙ a.others w (λ j lt. let e : j ≡ 0 = omega arith in rw e (apart 0 (omega arith)));
    rest =
        b.rest
        ∙ ap (λ (q : Kernel). record q { mem = k2.mem; invalidated = k2.invalidated }) a.rest;
  }

module _ (root base : ℕ) (some_base : 0 < base) (aligned : base % 4096 ≡ 0) where
  more_backed :
      (k k1 : Kernel) (own own1 : Owner) (first count : ℕ) (bs l1 : List Block) (result : Backed)
      (k2 : Kernel)
      → suc count ≤ 2 ^ 36
      → IsBacked k bs root own first 1 k1 l1 own1
      → BackedTo k1 l1 root own1 (first + 4096) count result k2
      → BackedTo k bs root own first (suc count) result k2
  more_backed k k1 own own1 first count bs l1 backed k2 few a (d, l2, own2, b, all) = (
    suc d,
    l2,
    own2,
    IsBacked-more k k1 k2 root own own1 own2 first d bs l1 l2 (omega arith) a b,
    ap suc all,
  )
  more_backed k k1 own own1 first count bs l1 no_memory k2 few a (d, l2, own2, b, less) = (
    suc d,
    l2,
    own2,
    IsBacked-more k k1 k2 root own own1 own2 first d bs l1 l2 (let l = less.0 in omega arith) a b,
    (let l = less.0 in omega arith, less.1),
  )
  more_backed k k1 own own1 first count bs l1 no_mapping k2 few a (d, l2, own2, b, less) = (
    suc d,
    l2,
    own2,
    IsBacked-more k k1 k2 root own own1 own2 first d bs l1 l2 (let l = less.0 in omega arith) a b,
    (let l = less.0 in omega arith, less.1),
  )

  abbrev go_on : (n i : ℕ) → Backed → Cmd Backed
  go_on n i result = elim result [
    | backed ↦ back_pages n (suc i) base
    | no_memory ↦ pure no_memory
    | no_mapping ↦ pure no_mapping
  ]

  -- On tables and a free list in order, the loop ends, and maps all of the pages; or it stops at a page
  -- for which no free block has room, with the pages before it mapped.
  pub back_pages-BackedTo :
      (n i : ℕ) (k : Kernel) (bs : List Block) (own : Owner)
      → root ≡ add64 k.cr3 k.memory_slide
      → base + (i + n) * 4096 ≤ 2 ^ 64
      → n ≤ 2 ^ 36
      → IsFreeList k bs
      → IsTables k.boot k.mem bs root own
      → Ensures (back_pages n i base k) (BackedTo k bs root own (base + i * 4096) n)
  unfolding back_pages
  back_pages-BackedTo zero i k bs own active fits few is ts = (
    0,
    bs,
    own,
    IsBacked-none k bs root own (base + i * 4096) (omega arith, omega arith) active k bs own is ts
        (λ t x o. o) (λ x o. o) (λ w. refl) refl,
    refl,
  )
  back_pages-BackedTo (suc n) i k bs own active fits few is ts =
      let virt : add64 base (mul64 i page_size) ≡ base + i * 4096 = omega arith in
      rw virt (
        and_then-Ensures (back_page (base + i * 4096) k) (go_on n i)
          (BackedTo k bs root own (base + i * 4096) 1)
          (BackedTo k bs root own (base + i * 4096) (suc n))
          (back_page-BackedTo k bs root own (base + i * 4096) (omega arith, omega arith) active is
            ts)
          (λ result k'.
            elim result
              as (λ result.
                BackedTo k bs root own (base + i * 4096) 1 result k'
                → Ensures (go_on n i result k')
                    (BackedTo k bs root own (base + i * 4096) (suc n))) [
                      | backed ↦ λ (d, left, own', b, all).
                          let one : IsBacked k bs root own (base + i * 4096) 1 k' left own' =
                            rw all at b in
                          let next : base + suc i * 4096 ≡ base + i * 4096 + 4096 = omega arith in
                          let same_cr3 : k'.cr3 ≡ k.cr3 = ap (λ q. q.cr3) b.rest in
                          let same_slide : k'.memory_slide ≡ k.memory_slide =
                            ap (λ q. q.memory_slide) b.rest in
                          Ensures-mono (back_pages n (suc i) base k')
                            (BackedTo k' left root own' (base + i * 4096 + 4096) n)
                            (BackedTo k bs root own (base + i * 4096) (suc n))
                            (λ r k2.
                              more_backed k k' own own' (base + i * 4096) n bs left r k2 few one)
                            (rw next at (
                              back_pages-BackedTo n (suc i) k' left own'
                                (rw (same_cr3, same_slide) active) (omega arith) (omega arith)
                                b.list b.tables))
                      | no_memory ↦ λ (d, left, own', b, less).
                          (d, left, own', b, (let l = less.0 in omega arith, less.1))
                      | no_mapping ↦ λ (d, left, own', b, less).
                          (d, left, own', b, (let l = less.0 in omega arith, less.1))
                    ]))
