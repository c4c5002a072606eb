-- ===== src/Heap/Isolation.antt =====
-- The pages of all callers of `mmap` and `sbrk` (kernel/mm/heap.cpp) together, and what a call leaves
-- of them.
use mathlib.Core.Option.{some-injective}
use mathlib.Core.Path.{subst}
use unnamed.Prelude.{
  ℕ, ◌+◌, ◌*◌, ◌/◌, ◌%◌, ◌^◌, ◌≤◌, ◌<◌, ◌≡◌, ◌≢◌, refl, ap, sym, ◌∙◌, false, some, List, [], ◌∷◌,
  ◌++◌, arith, All,
}
use unnamed.Prelude.Words.{add64}
use unnamed.Machine.{Kernel, ErrorCode}
use unnamed.Pma.Blocks.{Block, Apart}
use unnamed.Pma.Spec.{IsFreeList}
use unnamed.Vmm.Entries.{frame, low_flags}
use unnamed.Vmm.Walk.{translate, Owner, IsTables}
use unnamed.Vmm.Descent.{page_of}
use unnamed.Vmm.Mapping.{IsPage}
use unnamed.Vma.Zipper.{Cell, free_at}
use unnamed.Heap.{System, read_write}
use unnamed.Heap.Backing.{IsBacked}
use unnamed.Heap.Outcomes.{IsSystem}
use unnamed.Heap.Sbrk.{IsHeap}
use unnamed.Heap.Live.{
  OffHeap, IsLive, Differ, Carries, carried-All, carried-Differ, pages_from, All-pages_from,
  Differ-pages_from, All-append, Differ-append,
}

-- The system and its heap are in order, the range of the heap is in use, and every page that a caller
-- has got is mapped to a page of memory of its own.
pub record IsIsolated (s : System) (bs : List Block) (root : ℕ) (own : Owner) (cells : List Cell)
    (live : List ℕ) : Type 0 where
  pub system : IsSystem s bs root own cells
  pub heap : IsHeap s bs root own
  -- fewer pages than the processor translates
  pub span : s.allocator.total_pages ≤ 2 ^ 36
  pub heap_index : ℕ
  pub heap_place : s.heap_base ≡ s.allocator.base + heap_index * 4096
  pub heap_inside : s.heap_base + s.heap_size ≤ s.allocator.base + s.allocator.total_pages * 4096
  pub heap_used :
      (q : ℕ)
      → s.heap_base ≤ s.allocator.base + q * 4096
      → s.allocator.base + q * 4096 < s.heap_base + s.heap_size
      → free_at cells q ≡ false
  pub each : All (IsLive s bs root cells) live
  pub distinct : Differ s.kernel root live

abbrev pub Isolated : System → (root : ℕ) → List ℕ → Type 0
Isolated s root live =
    (bs : List Block) × (own : Owner) × (cells : List Cell) × IsIsolated s bs root own cells live

pages_ne :
    (base i p : ℕ)
    → base % 4096 ≡ 0
    → i < 2 ^ 36
    → p < 2 ^ 36
    → i ≢ p
    → page_of (base + i * 4096) ≢ page_of (base + p * 4096)
pages_ne base i p al li lp ne e =
    let a : page_of (base + i * 4096) ≡ (base / 4096 + i) % 2 ^ 36 = omega arith in
    let b : page_of (base + p * 4096) ≡ (base / 4096 + p) % 2 ^ 36 = omega arith in ne (omega arith)

entries_ne :
    (slide p q : ℕ)
    → Apart (slide + p, 4096) (slide + q, 4096)
    → IsPage p
    → IsPage q
    → p < 2 ^ 52
    → q < 2 ^ 52
    → some (2 ^ 63 + frame p + low_flags read_write)
      ≢ some (2 ^ 63 + frame q + low_flags read_write)
entries_ne slide p q apart a b c d e = let same = some-injective _ _ e in absurd (omega arith)

-- The error code is no part of the free list, nor of the tables.
pub error-IsFreeList :
    (k : Kernel) (bs : List Block) (code : ErrorCode)
    → IsFreeList k bs
    → IsFreeList (record k { error = code }) bs
error-IsFreeList k bs code list = record {
  blocks = list.blocks;
  reach = list.reach;
  out = list.out;
  chain = list.chain;
  enough = list.enough;
}

pub error_translate :
    (k : Kernel) (code : ErrorCode) (root v : ℕ)
    → translate (record k { error = code }) root v ≡ translate k root v
unfolding translate
error_translate k code root v = refl

-- A call maps pages of the range, from the page `p` on.
module _ (s : System) (bs : List Block) (root : ℕ) (own : Owner) (cells : List Cell) (p d : ℕ)
    (span : s.allocator.total_pages ≤ 2 ^ 36) (base_page : s.allocator.base % 4096 ≡ 0)
    (inside : p + d ≤ s.allocator.total_pages) (k' : Kernel) (left : List Block) (own' : Owner)
    (memory : IsBacked s.kernel bs root own (s.allocator.base + p * 4096) d k' left own')
    (active : root ≡ add64 s.kernel.cr3 s.kernel.memory_slide) where
  abbrev pub first : ℕ
  first = s.allocator.base + p * 4096

  -- Pages that were in use are translated as before.
  pub kept_translation :
      (v : ℕ) (l : IsLive s bs root cells v)
      → ((j : ℕ) → j < d → l.index ≢ p + j)
      → translate k' root v ≡ translate s.kernel root v
  kept_translation v l apart =
      let in_range = l.inside in
      memory.others v (λ j lt.
        let at : first + j * 4096 ≡ s.allocator.base + (p + j) * 4096 = omega arith in
        rw (l.place, at)
          (pages_ne s.allocator.base l.index (p + j) base_page (omega arith) (omega arith)
            (apart j lt)))

  pub after_error :
      (s' : System) (code : ErrorCode)
      → s'.kernel ≡ record k' { error = code }
      → IsFreeList s'.kernel left
        × IsTables s'.kernel.boot s'.kernel.mem left root own'
        × (root ≡ add64 s'.kernel.cr3 s'.kernel.memory_slide)
  after_error s' code e =
      let same_cr3 : k'.cr3 ≡ s.kernel.cr3 = ap (λ q. q.cr3) memory.rest in
      let same_slide : k'.memory_slide ≡ s.kernel.memory_slide =
        ap (λ q. q.memory_slide) memory.rest in
      subst
        (λ (q : Kernel).
          IsFreeList q left
          × IsTables q.boot q.mem left root own'
          × (root ≡ add64 q.cr3 q.memory_slide))
        (sym e)
        (error-IsFreeList k' left code memory.list, memory.tables, rw (same_cr3, same_slide) active)

  module _ (s' : System) (cells' : List Cell) (live : List ℕ) (same : s'.kernel ≡ k')
      (c : Carries s s' bs left root cells cells')
      (used : (j : ℕ) → j < d → free_at cells' (p + j) ≡ false)
      (off : (j : ℕ) → j < d → OffHeap s' (first + j * 4096))
      (each : All (IsLive s bs root cells) live) (distinct : Differ s.kernel root live) where
    slide_same : s'.kernel.memory_slide ≡ s.kernel.memory_slide
    slide_same = c.slide

    new-IsLive : (j : ℕ) → j < d → IsLive s' left root cells' (first + j * 4096)
    new-IsLive j lt =
        let (phys, t, maps) = memory.found j lt in
        record {
          index = p + j;
          place = rw c.base (omega arith);
          inside = rw c.total (omega arith);
          in_use = used j lt;
          off_heap = off j lt;
          phys = phys;
          page = t.page;
          small = t.small;
          taken = rw slide_same t.fresh;
          maps = rw same maps;
        }

    new_old :
        (j : ℕ)
        → j < d
        → (vs : List ℕ) → All (IsLive s bs root cells) vs
        → All (λ w. translate s'.kernel root (first + j * 4096) ≢ translate s'.kernel root w) vs
    new_old j lt [] all = tt
    new_old j lt (w ∷ ws) all =
        let (phys, t, maps) = memory.found j lt in
        let l = all.0 in
        (
          λ e.
              entries_ne s.kernel.memory_slide l.phys phys
                (t.was_free (s.kernel.memory_slide + l.phys, 4096) l.taken) l.page t.page l.small
                t.small
                (sym (c.same w l ∙ l.maps)
                  ∙ sym e
                  ∙ (ap (λ k. translate k root (first + j * 4096)) same ∙ maps)),
          new_old j lt ws all.1,
        )

    -- The pages that there were and the new ones.
    pub more_live :
        All (IsLive s' left root cells') (pages_from first d ++ live)
        × Differ s'.kernel root (pages_from first d ++ live)
    more_live = (
      All-append (IsLive s' left root cells') (pages_from first d) live
          (All-pages_from (IsLive s' left root cells') d first new-IsLive)
          (carried-All s s' bs left root cells cells' c live each),
      Differ-append s'.kernel root (pages_from first d) live
          (Differ-pages_from s'.kernel root d first
            (λ i j lt few. rw same (memory.distinct i j lt few)))
          (carried-Differ s s' bs left root cells cells' c live each distinct)
          (All-pages_from
            (λ v. All (λ w. translate s'.kernel root v ≢ translate s'.kernel root w) live) d first
            (λ j lt. new_old j lt live each)),
    )
