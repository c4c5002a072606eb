-- ===== src/Heap/AfterSbrk.antt =====
-- One call of `sbrk` (kernel/mm/heap.cpp), and the pages of all callers.
use mathlib.Core.Path.{subst}
use unnamed.Prelude.{
  ℕ, ◌+◌, ◌-◌, ◌*◌, ◌/◌, ◌≤◌, ◌<◌, ◌≡◌, ◌≢◌, refl, ap, sym, ◌∙◌, inl, inr, true, false, some, List,
  ◌++◌, arith, if◌then◌else◌, ◌==◌, ==_iff,
}
use unnamed.Prelude.Words.{add64}
use unnamed.Machine.{Kernel, out_of_memory}
use unnamed.Pma.Blocks.{Block}
use unnamed.Pma.Handed.{Covers}
use unnamed.Pma.Spec.{IsFreeList}
use unnamed.Vmm.Walk.{translate, Owner, IsTables}
use unnamed.Vma.Zipper.{Cell, free_at}
use unnamed.Vma.AllocPages.{IsAllocator}
use unnamed.Heap.{System, current_top, back_pages}
use unnamed.Heap.Outcomes.{Reported-code}
use unnamed.Heap.Backing.{IsBacked}
use unnamed.Heap.Sbrk.{IsGrown, IsStopped, SbrkTo}
use unnamed.Heap.Live.{IsLive, Carries, carried-All, carried-Differ, pages_from}
use unnamed.Heap.Isolation.{
  IsIsolated, Isolated, kept_translation, after_error, error-IsFreeList, error_translate, more_live,
}
use unnamed.Heap.AfterCall.{assemble}

-- A call of `sbrk` changes memory, tables and the top only.
abbrev OnlyTop : System → System → Type 0
OnlyTop s s' = s' ≡ record s { kernel = s'.kernel; heap_top = s'.heap_top }

module _ (s : System) (bs : List Block) (root : ℕ) (own : Owner) (cells : List Cell) (live : List ℕ)
    (good : IsIsolated s bs root own cells live) where
  -- The page of the range at the top.
  abbrev top_page : ℕ
  top_page = (current_top s - s.allocator.base) / 4096

  top_place : s.allocator.base + top_page * 4096 ≡ current_top s
  top_place =
      let a = good.heap_place in
      let b = good.heap.from_base in
      let c = good.heap.aligned in let d = good.system.base_page in omega arith

  module _ (d : ℕ) (room : current_top s + d * 4096 ≤ s.heap_base + s.heap_size) where
    top_inside : top_page + d ≤ s.allocator.total_pages
    top_inside = (let a = top_place in let b = good.heap_inside in omega arith)

    top_used : (j : ℕ) → j < d → free_at cells (top_page + j) ≡ false
    top_used j lt =
        let a = top_place in
        let b = good.heap.from_base in good.heap_used (top_page + j) (omega arith) (omega arith)

    -- No caller has a page above the top of the heap.
    above_top : (v : ℕ) (l : IsLive s bs root cells v) (j : ℕ) → j < d → l.index ≢ top_page + j
    above_top v l j lt e =
        let a = top_place in
        let b = good.heap.from_base in
        let c = l.place in
        elim l.off_heap [
          | inl below ↦ absurd (omega arith)
          | inr (inl over) ↦ absurd (omega arith)
          | inr (inr under) ↦ absurd (omega arith)
        ]

  top_Carries :
      (s' : System) (left : List Block)
      → OnlyTop s s'
      → s'.kernel.memory_slide ≡ s.kernel.memory_slide
      → current_top s ≤ current_top s'
      → Covers bs left
      → ((v : ℕ)
          → IsLive s bs root cells v
          → translate s'.kernel root v ≡ translate s.kernel root v)
      → Carries s s' bs left root cells cells
  top_Carries s' left only slide top covered same = record {
    base = ap (λ z. z.allocator.base) only;
    total = ap (λ z. z.allocator.total_pages) only;
    slide = slide;
    heap_base = ap (λ z. z.heap_base) only;
    heap_size = ap (λ z. z.heap_size) only;
    top = top;
    used = λ q u. u;
    covered = covered;
    same = same;
  }

  same_addresses : (s' : System) → OnlyTop s s' → IsAllocator s'.allocator cells
  same_addresses s' only =
      subst (λ a. IsAllocator a cells) (sym (ap (λ z. z.allocator) only)) good.system.addresses

  grown-IsIsolated :
      (n r : ℕ) (s' : System) (left : List Block) (own' : Owner)
      → IsGrown s bs root own n r s' left own'
      → IsIsolated s' left root own' cells
          (pages_from (s.allocator.base + top_page * 4096) n ++ live)
  grown-IsIsolated n r s' left own' m =
      let only = m.rest in
      let moved = m.new_top in
      let end_base : s'.heap_base ≡ s.heap_base = ap (λ z. z.heap_base) only in
      let end_size : s'.heap_size ≡ s.heap_size = ap (λ z. z.heap_size) only in
      let room : current_top s + n * 4096 ≤ s.heap_base + s.heap_size =
        omega (arith, m.heap.in_range) in
      let inside = top_inside n room in
      let memory : IsBacked s.kernel bs root own (s.allocator.base + top_page * 4096) n s'.kernel
          left own' =
        rw top_place m.memory in
      let active = good.system.active in
      let base_page = good.system.base_page in
      let c =
        top_Carries s' left only (ap (λ k. k.memory_slide) memory.rest) (omega arith) memory.covered
          (λ v l.
            kept_translation s bs root own cells top_page n good.span base_page inside s'.kernel
              left own' memory active v l (above_top n room v l)) in
      let (each, distinct) =
        more_live s bs root own cells top_page n good.span base_page inside s'.kernel left own'
          memory active s' cells live refl c (top_used n room)
          (λ j lt. inr (inr (let a = top_place in omega arith))) good.each good.distinct in
      assemble s bs root own cells live good s' left own' cells _ c
        (m.heap.list, m.heap.tables, m.heap.active) (same_addresses s' only)
        (ap (λ z. z.is_initialized) only) (omega arith) m.heap.aligned each distinct

  no_room-IsIsolated :
      (s' : System)
      → current_top s' ≡ current_top s
      → OnlyTop s s'
      → s'.kernel ≡ record s.kernel { error = out_of_memory }
      → IsIsolated s' bs root own cells live
  no_room-IsIsolated s' top only e =
      let c =
        top_Carries s' bs only (ap (λ k. k.memory_slide) e) (omega arith) (λ x o. o)
          (λ v l. ap (λ k. translate k root v) e ∙ error_translate s.kernel out_of_memory root v) in
      assemble s bs root own cells live good s' bs own cells live c
        (subst
          (λ (k : Kernel).
            IsFreeList k bs
            × IsTables k.boot k.mem bs root own
            × (root ≡ add64 k.cr3 k.memory_slide))
          (sym e)
          (
            error-IsFreeList s.kernel bs out_of_memory good.system.list,
            good.system.tables,
            good.system.active,
          ))
        (same_addresses s' only) (ap (λ z. z.is_initialized) only) (rw top good.heap.in_range)
        (rw top good.heap.aligned) (carried-All s s' bs bs root cells cells c live good.each)
        (carried-Differ s s' bs bs root cells cells c live good.each good.distinct)

  stopped-IsIsolated :
      (n done r : ℕ) (s' : System) (k' : Kernel) (left : List Block) (own' : Owner)
      → IsStopped s bs root own n done r s' k' left own'
      → IsIsolated s' left root own' cells live
  stopped-IsIsolated n done r s' k' left own' m =
      let only = m.rest in
      let top = m.same_top in
      let inside = top_inside done m.room in
      let memory : IsBacked s.kernel bs root own (s.allocator.base + top_page * 4096) done k' left
          own' =
        rw top_place m.memory in
      let active = good.system.active in
      let base_page = good.system.base_page in
      let (code, e) =
        Reported-code (back_pages n 0 (current_top s) s.kernel) k' s'.kernel m.reported in
      let c =
        top_Carries s' left only (ap (λ k. k.memory_slide) e ∙ ap (λ k. k.memory_slide) memory.rest)
          (omega arith) memory.covered
          (λ v l.
            ap (λ k. translate k root v) e
            ∙ error_translate k' code root v
            ∙ kept_translation s bs root own cells top_page done good.span base_page inside k' left
                own' memory active v l (above_top done m.room v l)) in
      assemble s bs root own cells live good s' left own' cells live c
        (after_error s bs root own cells top_page done good.span base_page inside k' left own'
          memory active s' code e)
        (same_addresses s' only) (ap (λ z. z.is_initialized) only) (rw top good.heap.in_range)
        (rw top good.heap.aligned) (carried-All s s' bs left root cells cells c live good.each)
        (carried-Differ s s' bs left root cells cells c live good.each good.distinct)

  -- `sbrk(0)` tells where the top is, and the static variable is set then.
  pub top-IsIsolated :
      IsIsolated (record s { heap_top = some (current_top s) }) bs root own cells live
  top-IsIsolated =
      let s' : System = record s { heap_top = some (current_top s) } in
      let c = top_Carries s' bs refl refl (omega arith) (λ x o. o) (λ v l. refl) in
      assemble s bs root own cells live good s' bs own cells live c
        (good.system.list, good.system.tables, good.system.active) good.system.addresses refl
        good.heap.in_range good.heap.aligned
        (carried-All s s' bs bs root cells cells c live good.each)
        (carried-Differ s s' bs bs root cells cells c live good.each good.distinct)

  -- A call of `sbrk` adds the pages from the old top on, and keeps all others.
  pub sbrk-Isolated :
      (n r : ℕ) (s' : System)
      → SbrkTo s bs root own n r s'
      → Isolated s' root (if r == 0 then live else pages_from r n ++ live)
  sbrk-Isolated n r s' (inl (left, own', m)) =
      let pos = good.heap.some_base in
      let from = good.heap.from_base in
      let some_top : (current_top s == 0) ≡ false = ground arith in
      rw (m.old_top, some_top)
        (left, own', cells, rw top_place at (grown-IsIsolated n r s' left own' m))
  sbrk-Isolated n r s' (inr (inl (null, over, top, only, e))) =
      let failed : (r == 0) ≡ true = (==_iff r 0).1 null in
      rw failed (bs, own, cells, no_room-IsIsolated s' top only e)
  sbrk-Isolated n r s' (inr (inr (done, k', left, own', fewer, few, m))) =
      let failed : (r == 0) ≡ true = (==_iff r 0).1 m.null in
      rw failed (left, own', cells, stopped-IsIsolated n done r s' k' left own' m)
