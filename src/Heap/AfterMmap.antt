-- ===== src/Heap/AfterMmap.antt =====
-- One call of `mmap` (kernel/mm/heap.cpp), and the pages of all callers.
use mathlib.Core.Path.{subst}
use unnamed.Prelude.{
  ==_iff, ℕ, ◌+◌, ◌*◌, ◌≤◌, ◌<◌, ◌≡◌, ◌≢◌, refl, ap, sym, ◌∙◌, inl, inr, true, false, List, ◌++◌,
  arith, All, Bool-cases, ltb, ltb→lt, if◌then◌else◌, ◌==◌,
}
use unnamed.Prelude.Words.{add64}
use unnamed.Machine.{Kernel}
use unnamed.Pma.Blocks.{Block}
use unnamed.Pma.Handed.{Covers}
use unnamed.Pma.Spec.{IsFreeList}
use unnamed.Vmm.Walk.{translate, Owner, IsTables}
use unnamed.Vma.Zipper.{Cell, free_at}
use unnamed.Vma.Mark.{within, marked}
use unnamed.Vma.AllocPages.{IsAllocator}
use unnamed.Heap.{System, current_top, map_failed, back_pages}
use unnamed.Heap.Outcomes.{Stays, IsMmapped, HasNoAddress, HasNoMemory, MmapTo, Reported-code}
use unnamed.Heap.Live.{OffHeap, IsLive, Differ, Carries, carried-All, carried-Differ, pages_from}
use unnamed.Heap.Isolation.{
  IsIsolated, Isolated, kept_translation, after_error, error_translate, more_live,
}
use unnamed.Heap.AfterCall.{InOrder, assemble}

not_lt : (a b : ℕ) → ltb a b ≡ false → b ≤ a
not_lt a b h = ground arith

true-ne-false : ¬ (true ≡ false)
true-ne-false e = cc

module _ (s : System) (bs : List Block) (root : ℕ) (own : Owner) (cells : List Cell) (live : List ℕ)
    (good : IsIsolated s bs root own cells live) where
  -- A free page of the range is outside the heap.
  free_OffHeap : (q : ℕ) → free_at cells q ≡ true → OffHeap s (s.allocator.base + q * 4096)
  free_OffHeap q free =
      let at = good.heap_place in
      elim (Bool-cases (ltb (s.allocator.base + q * 4096) s.heap_base)) [
        | inl below ↦ (let lt = ltb→lt _ _ below in inl (omega arith))
        | inr from ↦
            elim (Bool-cases (ltb (s.allocator.base + q * 4096) (s.heap_base + s.heap_size))) [
              | inl in_heap ↦
                  let used = good.heap_used q (not_lt _ _ from) (ltb→lt _ _ in_heap) in
                  absurd (true-ne-false (sym free ∙ used))
              | inr over ↦ inr (inl (not_lt _ _ over))
            ]
      ]

  stay_Carries :
      (s' : System) (left : List Block) (cells' : List Cell)
      → Stays s s'
      → s'.kernel.memory_slide ≡ s.kernel.memory_slide
      → ((q : ℕ) → free_at cells q ≡ false → free_at cells' q ≡ false)
      → Covers bs left
      → ((v : ℕ)
          → IsLive s bs root cells v
          → translate s'.kernel root v ≡ translate s.kernel root v)
      → Carries s s' bs left root cells cells'
  stay_Carries s' left cells' st slide used covered same =
      let top : current_top s' ≡ current_top s = ap current_top st.rest in
      record {
        base = st.kept.base;
        total = st.kept.total_pages;
        slide = slide;
        heap_base = ap (λ z. z.heap_base) st.rest;
        heap_size = ap (λ z. z.heap_size) st.rest;
        top = omega arith;
        used = used;
        covered = covered;
        same = same;
      }

  stay_assemble :
      (s' : System) (left : List Block) (own' : Owner) (cells' : List Cell) (live' : List ℕ)
      → Stays s s'
      → Carries s s' bs left root cells cells'
      → InOrder s' left root own'
      → IsAllocator s'.allocator cells'
      → All (IsLive s' left root cells') live'
      → Differ s'.kernel root live'
      → IsIsolated s' left root own' cells' live'
  stay_assemble s' left own' cells' live' st c order alloc each distinct =
      let top : current_top s' ≡ current_top s = ap current_top st.rest in
      assemble s bs root own cells live good s' left own' cells' live' c order alloc
        (ap (λ z. z.is_initialized) st.rest) (rw top good.heap.in_range) (rw top good.heap.aligned)
        each distinct

  same_OffHeap : (s' : System) → Stays s s' → (v : ℕ) → OffHeap s v → OffHeap s' v
  same_OffHeap s' st v off = rw st.rest off

  module _ (page n : ℕ)
      (were_free : (q : ℕ) → within page n q ≡ true → free_at cells q ≡ true) where
    within_lem : (j : ℕ) → j < n → within page n (page + j) ≡ true
    within_lem j lt = ground arith

    -- Pages that were free are none that a caller has.
    not_live : (v : ℕ) (l : IsLive s bs root cells v) (j : ℕ) → j < n → l.index ≢ page + j
    not_live v l j lt e =
        let free : free_at cells l.index ≡ true = rw e (were_free (page + j) (within_lem j lt)) in
        true-ne-false (sym free ∙ l.in_use)

    marked_used :
        (cells' : List Cell)
        → ((q : ℕ) → free_at cells' q ≡ marked (free_at cells) page n false q)
        → (q : ℕ) → free_at cells q ≡ false
        → free_at cells' q ≡ false
    marked_used cells' after q used = after q ∙ ground (arith, used)

  mapped-IsIsolated :
      (n : ℕ) (s' : System) (page : ℕ) (cells' : List Cell) (left : List Block) (own' : Owner)
      → IsMmapped s bs root own cells n (s.allocator.base + page * 4096) s' page cells' left own'
      → IsIsolated s' left root own' cells' (pages_from (s.allocator.base + page * 4096) n ++ live)
  mapped-IsIsolated n s' page cells' left own' m =
      let free = m.handed.were_free in
      let memory = m.memory in
      let order =
        after_error s bs root own cells page n good.span good.system.base_page m.handed.bounded
          s'.kernel left own' memory good.system.active s' s'.kernel.error refl in
      let c =
        stay_Carries s' left cells' m.stays (ap (λ k. k.memory_slide) memory.rest)
          (marked_used page n free cells' m.handed.after) memory.covered
          (λ v l.
            kept_translation s bs root own cells page n good.span good.system.base_page
              m.handed.bounded s'.kernel left own' memory good.system.active v l
              (not_live page n free v l)) in
      let (each, distinct) =
        more_live s bs root own cells page n good.span good.system.base_page m.handed.bounded
          s'.kernel left own' memory good.system.active s' cells' live refl c
          (λ j lt. m.handed.after (page + j) ∙ rw (within_lem page n free j lt) refl)
          (λ j lt. new_off j lt) good.each good.distinct in
      stay_assemble s' left own' cells' _ m.stays c order m.good each distinct
    where
      new_off : (j : ℕ) → j < n → OffHeap s' (s.allocator.base + page * 4096 + j * 4096)
      new_off j lt =
          let e : s.allocator.base + page * 4096 + j * 4096 ≡ s.allocator.base + (page + j) * 4096 =
            omega arith in
          rw e (
            same_OffHeap s' m.stays _ (
              free_OffHeap (page + j)
                (m.handed.were_free (page + j) (within_lem page n m.handed.were_free j lt))))

  no_address-IsIsolated :
      (n r : ℕ) (s' : System) (cells' : List Cell)
      → HasNoAddress s cells n r s' cells'
      → IsIsolated s' bs root own cells' live
  no_address-IsIsolated n r s' cells' m =
      let c =
        stay_Carries s' bs cells' m.stays (ap (λ k. k.memory_slide) m.same)
          (λ q u. m.refused.after q ∙ u) (λ x o. o) (λ v l. ap (λ k. translate k root v) m.same) in
      stay_assemble s' bs own cells' live m.stays c
        (subst
          (λ (k : Kernel).
            IsFreeList k bs
            × IsTables k.boot k.mem bs root own
            × (root ≡ add64 k.cr3 k.memory_slide))
          (sym m.same) (good.system.list, good.system.tables, good.system.active))
        m.good (carried-All s s' bs bs root cells cells' c live good.each)
        (carried-Differ s s' bs bs root cells cells' c live good.each good.distinct)

  no_memory-IsIsolated :
      (n r : ℕ) (s' : System) (page done : ℕ) (k' : Kernel) (cells' : List Cell) (left : List Block)
      (own' : Owner)
      → HasNoMemory s bs root own cells n r s' page done k' cells' left own'
      → IsIsolated s' left root own' cells' live
  no_memory-IsIsolated n r s' page done k' cells' left own' m =
      let fewer = m.fewer in
      let bounded = m.bounded in
      let inside : page + done ≤ s.allocator.total_pages = omega arith in
      let (code, e) =
        Reported-code (back_pages n 0 (s.allocator.base + page * 4096) s.kernel) k' s'.kernel
          m.reported in
      let used : (q : ℕ) → free_at cells q ≡ false → free_at cells' q ≡ false = elim m.given_back [
        | inl (back, why) ↦ λ q u. back q ∙ u
        | inr (stay, why) ↦ marked_used page n m.were_free cells' stay
      ] in
      let c =
        stay_Carries s' left cells' m.stays
          (ap (λ k. k.memory_slide) e ∙ ap (λ k. k.memory_slide) m.memory.rest) used
          m.memory.covered
          (λ v l.
            ap (λ k. translate k root v) e
            ∙ error_translate k' code root v
            ∙ kept_translation s bs root own cells page done good.span good.system.base_page inside
                k' left own' m.memory good.system.active v l
                (λ j lt. not_live page n m.were_free v l j (omega arith))) in
      stay_assemble s' left own' cells' live m.stays c
        (after_error s bs root own cells page done good.span good.system.base_page inside k' left
          own' m.memory good.system.active s' code e)
        m.good (carried-All s s' bs left root cells cells' c live good.each)
        (carried-Differ s s' bs left root cells cells' c live good.each good.distinct)

  -- A call of `mmap` adds the pages that it returns, and keeps all others.
  pub mmap-Isolated :
      (n r : ℕ) (s' : System)
      → MmapTo s bs root own cells n r s'
      → Isolated s' root (if r == map_failed then live else pages_from r n ++ live)
  mmap-Isolated n r s' (inl (page, cells', left, own', m)) =
      let is = m.handed.address in
      let al = good.system.base_page in
      let some_address : (s.allocator.base + page * 4096 == map_failed) ≡ false = ground arith in
      rw (is, some_address)
        (left, own', cells', mapped-IsIsolated n s' page cells' left own' (rw is at m))
  mmap-Isolated n r s' (inr (inl (cells', m))) =
      let failed : (r == map_failed) ≡ true = (==_iff r map_failed).1 m.failed in
      rw failed (bs, own, cells', no_address-IsIsolated n r s' cells' m)
  mmap-Isolated n r s' (inr (inr (page, done, k', cells', left, own', m))) =
      let failed : (r == map_failed) ≡ true = (==_iff r map_failed).1 m.failed in
      rw failed (left, own', cells', no_memory-IsIsolated n r s' page done k' cells' left own' m)
