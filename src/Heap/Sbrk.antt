-- ===== src/Heap/Sbrk.antt =====
-- `sbrk` of kernel/mm/heap.cpp: the top of the heap moves up over pages that it maps.
use mathlib.Core.Path.{subst}
use unnamed.Prelude.{
  ℕ, ◌+◌, ◌*◌, ◌/◌, ◌%◌, ◌^◌, ◌≤◌, ◌<◌, ◌≡◌, refl, ap, ◌∙◌, ◌⊎◌, inl, inr, true, false, some, List,
  arith, ◌==◌, ltb, not, Bool-cases,
}
use unnamed.Prelude.Words.{add64}
use unnamed.Helpers.{align_up}
use unnamed.Helpers.Align.{align_up-div}
use unnamed.Run.{ok}
use unnamed.Run.Ensures.{Ensures, Ensures-ok}
use unnamed.Machine.{Kernel, out_of_memory, set_error, page_size}
use unnamed.Pma.Blocks.{Block}
use unnamed.Pma.Spec.{IsFreeList, TooSmall}
use unnamed.Vmm.Walk.{Owner, IsTables}
use unnamed.Heap.{
  System, current_top, Backed, backed, no_memory, no_mapping, back_pages, sbrk_finish, sbrk_grow,
  sbrk,
}
use unnamed.Heap.Loop.{back_pages-BackedTo}
use unnamed.Heap.Backing.{IsBacked, BackedTo}
use unnamed.Heap.Outcomes.{Reported}

-- The heap is a range of whole pages, and its top is on a page boundary inside.
pub record IsHeap (s : System) (bs : List Block) (root : ℕ) (own : Owner) : Type 0 where
  pub list : IsFreeList s.kernel bs
  pub tables : IsTables s.kernel.boot s.kernel.mem bs root own
  pub active : root ≡ add64 s.kernel.cr3 s.kernel.memory_slide
  pub started : s.is_initialized ≡ true
  pub some_base : 0 < s.heap_base
  pub from_base : s.heap_base ≤ current_top s
  pub in_range : current_top s ≤ s.heap_base + s.heap_size
  pub aligned : current_top s % 4096 ≡ 0
  pub reach : s.heap_base + s.heap_size < 2 ^ 64

-- The old top is returned, the pages from it on are mapped, and the top is behind them.
pub record IsGrown (s : System) (bs : List Block) (root : ℕ) (own : Owner) (n r : ℕ) (s' : System)
    (left : List Block) (own' : Owner) : Type 0 where
  pub old_top : r ≡ current_top s
  pub rest : s' ≡ record s { kernel = s'.kernel; heap_top = s'.heap_top }
  pub new_top : current_top s' ≡ current_top s + n * 4096
  pub memory : IsBacked s.kernel bs root own (current_top s) n s'.kernel left own'
  pub heap : IsHeap s' left root own'

-- Null is returned, the top is where it was, and `done` pages from it on are mapped.
pub record IsStopped (s : System) (bs : List Block) (root : ℕ) (own : Owner) (n done r : ℕ)
    (s' : System) (k' : Kernel) (left : List Block) (own' : Owner) : Type 0 where
  pub null : r ≡ 0
  pub same_top : current_top s' ≡ current_top s
  pub room : current_top s + done * 4096 ≤ s.heap_base + s.heap_size
  pub rest : s' ≡ record s { kernel = s'.kernel; heap_top = s'.heap_top }
  pub memory : IsBacked s.kernel bs root own (current_top s) done k' left own'
  pub reported : Reported (back_pages n 0 (current_top s) s.kernel) k' s'.kernel

-- No room in the range of the heap, or no block of memory for a page.
abbrev pub SbrkTo : System → List Block → (root : ℕ) → Owner → (n r : ℕ) → System → Type 0
SbrkTo s bs root own n r s' =
    ((left : List Block) × (own' : Owner) × IsGrown s bs root own n r s' left own')
    ⊎ (((r ≡ 0)
          × (s.heap_base + s.heap_size < current_top s + n * 4096)
          × (current_top s' ≡ current_top s)
          × (s' ≡ record s { kernel = s'.kernel; heap_top = s'.heap_top })
          × (s'.kernel ≡ record s.kernel { error = out_of_memory }))
        ⊎ ((done : ℕ) × (k' : Kernel) × (left : List Block) × (own' : Owner) × (done < n)
            × TooSmall 4096 left
            × IsStopped s bs root own n done r s' k' left own'))

module _ (s : System) (bs : List Block) (root : ℕ) (own : Owner) (h : IsHeap s bs root own) (n : ℕ)
    (few : n ≤ 2 ^ 36) (no_wrap : s.heap_base + s.heap_size + n * 4096 < 2 ^ 64) where
  abbrev top : ℕ
  top = current_top s

  abbrev begun : System
  begun = record s { heap_top = some top }

  sbrk_finish-SbrkTo :
      top + n * 4096 ≤ s.heap_base + s.heap_size
      → (result : Backed) (k' : Kernel) → back_pages n 0 top s.kernel ≡ ok result k'
      → BackedTo s.kernel bs root own top n result k'
      → Ensures
          (sbrk_finish top (n * 4096) result (record begun { kernel = k' }))
          (SbrkTo s bs root own n)
  unfolding sbrk_finish set_error
  sbrk_finish-SbrkTo room backed k' run (done, left, own', b, all) =
      let sum : add64 top (n * 4096) ≡ top + n * 4096 = omega arith in
      let whole : IsBacked s.kernel bs root own top n k' left own' = rw all at b in
      let same_cr3 : k'.cr3 ≡ s.kernel.cr3 = ap (λ q. q.cr3) b.rest in
      let same_slide : k'.memory_slide ≡ s.kernel.memory_slide = ap (λ q. q.memory_slide) b.rest in
      inl (
        left,
        own',
        record {
          old_top = refl;
          rest = refl;
          new_top = sum;
          memory = whole;
          heap = record {
            list = b.list;
            tables = b.tables;
            active = rw (same_cr3, same_slide) h.active;
            started = h.started;
            some_base = h.some_base;
            from_base = omega (arith, h.from_base, sum);
            in_range = omega (arith, sum);
            aligned = omega (arith, h.aligned, sum);
            reach = h.reach;
          };
        },
      )
  sbrk_finish-SbrkTo room no_memory k' run (done, left, own', b, less) = inr (
      inr (
        done,
        k',
        left,
        own',
        less.0,
        less.1,
        record {
          null = refl;
          same_top = refl;
          room = (let l = less.0 in omega arith);
          rest = refl;
          memory = b;
          reported = inl (run, refl);
        },
      ))
  sbrk_finish-SbrkTo room no_mapping k' run (done, left, own', b, less) = inr (
      inr (
        done,
        k',
        left,
        own',
        less.0,
        less.1,
        record {
          null = refl;
          same_top = refl;
          room = (let l = less.0 in omega arith);
          rest = refl;
          memory = b;
          reported = inr (run, refl);
        },
      ))

  sbrk_grow-SbrkTo : Ensures (sbrk_grow top (n * 4096) begun) (SbrkTo s bs root own n)
  unfolding sbrk_grow set_error
  sbrk_grow-SbrkTo =
      let pages : n * 4096 / page_size ≡ n = omega arith in
      let start : top + 0 * 4096 ≡ top = omega arith in
      let from = h.from_base in
      let inside = h.in_range in
      let pos = h.some_base in
      let sum : add64 top (n * 4096) ≡ top + n * 4096 = omega arith in
      let end : add64 s.heap_base s.heap_size ≡ s.heap_base + s.heap_size = omega arith in
      simp (pages, sum, end)
        (elim (Bool-cases (ltb (s.heap_base + s.heap_size) (top + n * 4096))) [
          | inl over ↦ simp over (inr (inl (refl, ground arith, refl, refl, refl)))
          | inr room ↦
              let fits : top + n * 4096 ≤ s.heap_base + s.heap_size = ground arith in
              let (result, k', run, post) =
                Ensures-ok (back_pages n 0 top s.kernel) (BackedTo s.kernel bs root own top n) (
                  subst
                    (λ v. Ensures (back_pages n 0 top s.kernel) (BackedTo s.kernel bs root own v n))
                    start
                    (back_pages-BackedTo root top (omega arith) h.aligned n 0 s.kernel bs own
                      h.active (omega arith) few h.list h.tables)) in
              simp (room, run) (sbrk_finish-SbrkTo fits result k' run post)
        ])

-- On a heap in order, for at least one and at most 2^48 bytes, so few that the end of the heap's range
-- with them and one page more is within the address space, `sbrk` ends in one of three ways. It returns the old top, maps the pages that hold the bytes from there on, each to a page of memory of its own, and the top
-- is behind them, in a heap in order. Or the range of the heap is too short, and only the error is
-- set. Or there is no block of memory for a page or a table: then it returns null, not the -1 that dlmalloc
-- takes for a failure, with the error out_of_memory for a page and map_fail for a table, and the top is as
-- before, though the pages before that one stay mapped.
pub sbrk-SbrkTo :
    (s : System) (bs : List Block) (root : ℕ) (own : Owner) (increment : ℕ)
    → IsHeap s bs root own
    → 0 < increment
    → increment ≤ 2 ^ 48
    → s.heap_base + s.heap_size + increment + 4096 ≤ 2 ^ 64
    → Ensures (sbrk increment s) (SbrkTo s bs root own ((increment + 4095) / 4096))
unfolding sbrk
sbrk-SbrkTo s bs root own increment h some_bytes few no_wrap =
    let n : ℕ = (increment + 4095) / 4096 in
    let some_increment : (increment == 0) ≡ false = ground arith in
    let positive : ltb increment (2 ^ 63) ≡ true = ground arith in
    let rounded : align_up increment page_size ≡ n * 4096 =
      align_up-div 12 increment (omega arith) (omega arith) ∙ omega arith in
    let ready : not s.is_initialized ≡ false = ap not h.started in
    simp (ready, some_increment, positive, rounded)
      (sbrk_grow-SbrkTo s bs root own h n (omega arith) (omega arith))
