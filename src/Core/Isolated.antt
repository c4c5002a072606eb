-- ===== src/Core/Isolated.antt =====
-- From the start of the memory managers in kernel/kernel/core.cpp on: the memory that dlmalloc gets.
use unnamed.Prelude.{ℕ, ◌+◌, ◌^◌, ◌≤◌, ◌<◌, ◌≡◌, refl, ap, sym, ◌∙◌, true, List, [], arith}
use unnamed.Run.{ok}
use unnamed.Machine.{MemmapEntry}
use unnamed.Vmm.Walk.{Owner}
use unnamed.Vma.Zipper.{Cell}
use unnamed.Vma.Mark.{within}
use unnamed.Heap.{System}
use unnamed.Heap.Isolation.{IsIsolated, Isolated}
use unnamed.Heap.Sequence.{Calls, Calls-Isolated, state_of}
use unnamed.Core.{init_memory}
use unnamed.Core.Memory.{range_size, IsBooted}
use unnamed.Core.Ready.{IsReady, blocks, init_memory-ReadyTo}

module _ (s : System) (entries : List MemmapEntry) (root : ℕ) (own : Owner)
    (booted : IsBooted s entries root own) (room : 2 ^ 25 ≤ range_size s.kernel entries)
    (span : range_size s.kernel entries ≤ 2 ^ 48) where
  ready-IsIsolated :
      (s' : System) (page : ℕ) (cells : List Cell)
      → IsReady s entries root own booted s' page cells
      → IsIsolated s' (blocks s entries root own booted) root own cells []
  ready-IsIsolated s' page cells r =
      let base = r.first_address in
      let count = r.page_count in
      let place = r.heap_place in
      let bytes = r.heap_bytes in
      record {
        system = r.system;
        heap = r.heap;
        span = omega arith;
        heap_index = page;
        heap_place = omega arith;
        heap_inside = (let i = r.inside in omega arith);
        heap_used = λ q lo hi.
            let taken : within page 8192 q ≡ true = within_of page q (omega arith) (omega arith) in
            r.free q ∙ rw taken refl;
        each = tt;
        distinct = tt;
      }
    where
      within_of : (p q : ℕ) → p ≤ q → q < p + 8192 → within p 8192 q ≡ true
      within_of p q lo hi = ground arith

  pub start-Isolated :
      (s1 s2 : System) (live : List ℕ)
      → init_memory s ≡ ok tt s1
      → Calls s1 [] s2 live
      → Isolated s2 root live
  start-Isolated s1 s2 live run calls =
      let (s', page, cells, starts, ready) =
        (init_memory-ReadyTo s entries root own booted).0 room in
      let same : s' ≡ s1 = ap (state_of s) (sym starts ∙ run) in
      Calls-Isolated root s1 [] s2 live calls (
        rw (sym same)
          (blocks s entries root own booted, own, cells, ready-IsIsolated s' page cells ready))
