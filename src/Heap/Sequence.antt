-- ===== src/Heap/Sequence.antt =====
-- Any sequence of the calls that dlmalloc makes of kernel/mm/heap.cpp: the pages that it has got.
use mathlib.Core.Path.{subst}
use unnamed.Prelude.{
  ℕ, ◌+◌, ◌/◌, ◌^◌, ◌≤◌, ◌<◌, ◌≡◌, sym, true, some, List, ◌++◌, if◌then◌else◌, ◌==◌, not, false, ap,
}
use unnamed.Helpers.{is_flag_set}
use unnamed.Run.{Outcome, ok}
use unnamed.Run.Ensures.{Ensures}
use unnamed.Pma.Blocks.{Block}
use unnamed.Vmm.Walk.{Owner}
use unnamed.Vma.Zipper.{Cell}
use unnamed.Heap.{System, current_top, map_failed, map_private, map_anonymous, mmap, sbrk}
use unnamed.Heap.Outcomes.{MmapTo}
use unnamed.Heap.Mmap.{mmap-MmapTo}
use unnamed.Heap.Sbrk.{SbrkTo, sbrk-SbrkTo}
use unnamed.Heap.Live.{pages_from}
use unnamed.Heap.Isolation.{IsIsolated, Isolated}
use unnamed.Heap.AfterMmap.{mmap-Isolated}
use unnamed.Heap.AfterSbrk.{top-IsIsolated, sbrk-Isolated}

abbrev pub pages_of : (length : ℕ) → ℕ
pages_of length = (length + 4095) / 4096

-- A call that returns, with the pages got before and after it. `mmap` has both flags, as dlmalloc
-- passes them, and no size is so large that sums of it wrap.
pub data Call (s : System) (live : List ℕ) : System → List ℕ → Type 0 where
  mmap_call :
      {s' : System} {live' : List ℕ} (length flags r : ℕ)
      → 0 < length
      → length ≤ 2 ^ 48
      → is_flag_set flags map_private ≡ true
      → is_flag_set flags map_anonymous ≡ true
      → mmap length flags s ≡ ok r s'
      → live' ≡ (if r == map_failed then live else pages_from r (pages_of length) ++ live)
      → Call s live s' live'
  sbrk_call :
      {s' : System} {live' : List ℕ} (increment r : ℕ)
      → 0 < increment
      → increment ≤ 2 ^ 48
      → s.heap_base + s.heap_size + increment + 4096 ≤ 2 ^ 64
      → sbrk increment s ≡ ok r s'
      → live' ≡ (if r == 0 then live else pages_from r (pages_of increment) ++ live)
      → Call s live s' live'
  top_call : {s' : System} (r : ℕ) → sbrk 0 s ≡ ok r s' → Call s live s' live

pub data Calls (s : System) (live : List ℕ) : System → List ℕ → Type 0 where
  no_call : Calls s live s live
  one_more :
      {s' s'' : System} {live' live'' : List ℕ}
      → Calls s live s' live'
      → Call s' live' s'' live''
      → Calls s live s'' live''

abbrev pub state_of : {A : Type 0} → System → Outcome System A → System
state_of s (ok x t) = t
state_of s _ = s

module _ (s : System) (live : List ℕ) (root : ℕ) (bs : List Block) (own : Owner) (cells : List Cell)
    (good : IsIsolated s bs root own cells live) where
  top_state : (r : ℕ) (s' : System) → sbrk 0 s ≡ ok r s' → Isolated s' root live
  unfolding sbrk
  top_state r s' run =
      let ready : not s.is_initialized ≡ false = ap not good.heap.started in
      let set : ok (current_top s) (record s { heap_top = some (current_top s) }) ≡ ok r s' =
        rw ready at run in
      let state : record s { heap_top = some (current_top s) } ≡ s' = ap (state_of s) set in
      rw (sym state) (bs, own, cells, top-IsIsolated s bs root own cells live good)

  Call-Isolated : (s' : System) (live' : List ℕ) → Call s live s' live' → Isolated s' root live'
  Call-Isolated s' live' (mmap_call length flags r pos few private anonymous run e) = rw e (
      mmap-Isolated s bs root own cells live good (pages_of length) r s' (
        subst (λ o. Ensures o (MmapTo s bs root own cells (pages_of length))) run
          (mmap-MmapTo s bs root own cells length flags good.system pos few private anonymous)))
  Call-Isolated s' live' (sbrk_call increment r pos few no_wrap run e) = rw e (
      sbrk-Isolated s bs root own cells live good (pages_of increment) r s' (
        subst (λ o. Ensures o (SbrkTo s bs root own (pages_of increment))) run
          (sbrk-SbrkTo s bs root own increment good.heap pos few no_wrap)))
  Call-Isolated s' live' (top_call r run) = top_state r s' run

-- Every call keeps the pages of all callers: each is mapped to a page of memory of its own that is not
-- free, and its addresses are in use.
pub Calls-Isolated :
    (root : ℕ) (s : System) (live : List ℕ) (s' : System) (live' : List ℕ)
    → Calls s live s' live'
    → Isolated s root live
    → Isolated s' root live'
Calls-Isolated root s live s' live' no_call good = good
Calls-Isolated root s live s'' live'' (one_more {s' = s'} {live' = live'} calls call) good =
    let (bs, own, cells, kept) = Calls-Isolated root s live s' live' calls good in
    Call-Isolated s' live' root bs own cells kept s'' live'' call
