-- ===== src/Core/Ready.antt =====
-- The start of the memory managers in kernel/kernel/core.cpp: the system that it leaves.
use mathlib.Core.Path.{subst}
use unnamed.Prelude.{
  ℕ, ◌+◌, ◌*◌, ◌/◌, ◌%◌, ◌^◌, ◌≤◌, ◌<◌, ◌≡◌, refl, ap, ◌∙◌, inl, inr, false, none, List, [], ◌∷◌,
  arith, All, if◌then◌else◌,
}
use unnamed.Prelude.Words.{add64}
use unnamed.Helpers.Align.{align_down-div}
use unnamed.Run.{ok, halted}
use unnamed.Run.Ensures.{Ensures-ok}
use unnamed.Machine.{MemmapEntry}
use unnamed.Pma.{init_pma, highest_loop}
use unnamed.Pma.Blocks.{Block}
use unnamed.Pma.Init.{
  usable_blocks, Initialized, init_pma-IsFreeList, get_highest_physical_address-loop,
}
use unnamed.Vmm.Walk.{translate, Owner}
use unnamed.Vma.{Allocator, align_up}
use unnamed.Vma.Fit.{fits}
use unnamed.Vma.Calls.{init}
use unnamed.Vma.Zipper.{Cell, free_at}
use unnamed.Vma.Mark.{within, marked}
use unnamed.Vma.Start.{whole, IsStarted, init-IsStarted}
use unnamed.Heap.{System, init_kernel_virtual_allocator, init_heap}
use unnamed.Heap.Outcomes.{IsSystem}
use unnamed.Heap.Sbrk.{IsHeap}
use unnamed.Heap.Initial.{heap_pages, init_heap-InitTo}
use unnamed.Core.{init_memory}
use unnamed.Core.Memory.{range_start, range_size, IsBooted, same-IsTables, same-translate}

module _ (s : System) (entries : List MemmapEntry) (root : ℕ) (own : Owner)
    (booted : IsBooted s entries root own) where
  abbrev pub blocks : List Block
  blocks = usable_blocks s.kernel.memory_slide entries []

  abbrev start : ℕ
  start = range_start s.kernel entries

  abbrev size : ℕ
  size = range_size s.kernel entries

  -- What `init_heap` finds.
  record IsRanged (s' : System) : Type 0 where
    system : IsSystem s' blocks root own (whole size ∷ [])
    addresses : IsStarted s.allocator.max_nodes start size s'.allocator
    no_top : s'.heap_top ≡ s.heap_top
    same : (w : ℕ) → translate s'.kernel root w ≡ translate s.kernel root w

  start_aligned : start % 4096 ≡ 0
  start_aligned =
      let sum : ℕ = add64 s.kernel.memory_slide (highest_loop 0 entries) in
      rw (align_down-div 12 sum (omega arith) (omega arith)) (omega arith)

  ranged :
      (m : ℕ → ℕ) (a : Allocator)
      → Initialized s.kernel blocks (record s.kernel { mem = m })
      → IsStarted s.allocator.max_nodes start size a
      → IsRanged (record s { kernel = record s.kernel { mem = m }; allocator = a })
  ranged m a (list, same, rest) started = record {
    system = record {
      list = list;
      tables = same-IsTables s.kernel blocks root own m booted.tables same;
      active = booted.active;
      addresses = started.good;
      base_page = rw started.base_set start_aligned;
      some_base = rw started.base_set booted.some_start;
    };
    addresses = started;
    no_top = refl;
    same = same-translate s.kernel blocks root own m booted.tables same;
  }

  init_kernel_virtual_allocator-run :
      (m : ℕ → ℕ) (a : Allocator)
      → init start size s.allocator ≡ ok tt a
      → init_kernel_virtual_allocator (record s { kernel = record s.kernel { mem = m } })
        ≡ ok tt (record s { kernel = record s.kernel { mem = m }; allocator = a })
  unfolding init_kernel_virtual_allocator
  init_kernel_virtual_allocator-run m a run =
      rw (get_highest_physical_address-loop (record s.kernel { mem = m }) entries booted.memmap)
        (rw run refl)

  -- The system is in order; the heap lies inside the range, and all pages but its own are free; the
  -- tables translate as before.
  pub record IsReady (s' : System) (page : ℕ) (cells : List Cell) : Type 0 where
    pub system : IsSystem s' blocks root own cells
    pub heap : IsHeap s' blocks root own
    pub first_address : s'.allocator.base ≡ start
    pub page_count : s'.allocator.total_pages ≡ size / 4096
    pub heap_place : s'.heap_base ≡ start + page * 4096
    pub inside : s'.heap_base + 2 ^ 25 ≤ start + size
    pub heap_bytes : s'.heap_size ≡ 2 ^ 25
    pub empty : s'.heap_top ≡ none
    pub free : (q : ℕ) → free_at cells q ≡ marked (within 0 (size / 4096)) page heap_pages false q
    pub same : (w : ℕ) → translate s'.kernel root w ≡ translate s.kernel root w

  abbrev pub ReadyTo : Type 0
  ReadyTo =
      (2 ^ 25 ≤ size
        → (s' : System) × (page : ℕ) × (cells : List Cell) × (init_memory s ≡ ok tt s')
          × IsReady s' page cells)
      × (size < 2 ^ 25 → init_memory s ≡ halted)

  heap_fits : 2 ^ 25 ≤ size → All (λ c. fits heap_pages (2 ^ 0) c ≡ false) (whole size ∷ []) → ⊥
  unfolding align_up
  heap_fits enough all = (let no = all.0 in ground arith)

  started-ReadyTo : (s2 : System) → init_memory s ≡ init_heap s2 → IsRanged s2 → ReadyTo
  started-ReadyTo s2 run r =
      let pages = r.addresses.pages_set in
      let base = r.addresses.base_set in
      let end = booted.end in
      elim (init_heap-InitTo s2 blocks root own (whole size ∷ []) r.system
        (r.no_top ∙ booted.no_top) (omega arith)) [
          | inl (s', page, cells, ends, t) ↦
              let address = t.handed.address in
              let inside = t.handed.bounded in
              (
                λ enough. (
                  s',
                  page,
                  cells,
                  run ∙ ends,
                  record {
                    system = t.system;
                    heap = t.heap;
                    first_address = t.kept.base ∙ base;
                    page_count = t.kept.total_pages ∙ pages;
                    heap_place = rw base at address;
                    inside = omega arith;
                    heap_bytes = t.size_set;
                    empty = t.empty;
                    free = λ q.
                        t.handed.after q
                        ∙ ap (λ b. if within page heap_pages q then false else b)
                            (r.addresses.all_free q ∙ ap (λ n. within 0 n q) pages);
                    same = λ w. ap (λ k. translate k root w) t.same ∙ r.same w;
                  },
                ),
                λ short. absurd (omega arith),
              )
          | inr (stops, (cells, refused)) ↦ (
            λ enough. absurd (elim refused.why [
              | inl few ↦ (let left = r.addresses.nodes_left in let n = booted.nodes in omega arith)
              | inr all ↦ heap_fits enough all
            ]),
            λ short. run ∙ stops,
          )
        ]

  -- From what the boot loader leaves, the start of the three memory managers gives a system in order,
  -- with an empty heap in order, if the range of addresses between the direct map and the kernel has
  -- 32 MiB or more; the heap takes 32 MiB of it, all other pages are free, and every address is translated
  -- as before. If the range has less, it halts the machine.
  pub init_memory-ReadyTo : ReadyTo
  unfolding init_memory
  init_memory-ReadyTo =
      let (_, k', run, post) =
        Ensures-ok (init_pma s.kernel) (λ _. Initialized s.kernel blocks)
          (init_pma-IsFreeList s.kernel entries booted.memmap booted.head_reach booted.head_null
            booted.usable) in
      let (_, a, begin, started) =
        Ensures-ok (init start size s.allocator) (λ _. IsStarted s.allocator.max_nodes start size)
          (init-IsStarted s.allocator start size (let n = booted.nodes in omega arith)
            booted.unlocked booted.fresh booted.some_pages (let e = booted.end in omega arith)) in
      let rest = post.2 in
      started-ReadyTo (record s { kernel = record s.kernel { mem = k'.mem }; allocator = a })
        (rw (run, rest) (rw (init_kernel_virtual_allocator-run k'.mem a begin) refl))
        (ranged k'.mem a (subst (Initialized s.kernel blocks) rest post) started)
