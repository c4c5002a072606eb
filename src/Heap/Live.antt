-- ===== src/Heap/Live.antt =====
-- The pages that callers of `mmap` and `sbrk` (kernel/mm/heap.cpp) have got: what holds of each, and
-- what a call must leave alone for it to hold on.
use unnamed.Prelude.{
  ℕ, zero, suc, ◌+◌, ◌*◌, ◌^◌, ◌≤◌, ◌<◌, ◌≡◌, ◌≢◌, sym, ◌∙◌, ◌⊎◌, inl, inr, false, some, List, [],
  ◌∷◌, ◌++◌, arith, All,
}
use unnamed.Machine.{Kernel}
use unnamed.Pma.Blocks.{Block, Apart}
use unnamed.Pma.Handed.{Covers}
use unnamed.Vmm.Entries.{frame, low_flags}
use unnamed.Vmm.Walk.{translate}
use unnamed.Vmm.Mapping.{IsPage}
use unnamed.Vma.Zipper.{Cell, free_at}
use unnamed.Heap.{System, current_top, read_write}

-- The page is not above the top of the heap, where `sbrk` maps the next.
abbrev pub OffHeap : System → (v : ℕ) → Type 0
OffHeap s v =
    (v + 4096 ≤ s.heap_base) ⊎ ((s.heap_base + s.heap_size ≤ v) ⊎ (v + 4096 ≤ current_top s))

-- The page at `v` is in use, and is mapped to a page of memory that is not free.
pub record IsLive (s : System) (bs : List Block) (root : ℕ) (cells : List Cell) (v : ℕ)
    : Type 0 where
  pub index : ℕ
  pub place : v ≡ s.allocator.base + index * 4096
  pub inside : index < s.allocator.total_pages
  pub in_use : free_at cells index ≡ false
  pub off_heap : OffHeap s v
  pub phys : ℕ
  pub page : IsPage phys
  pub small : phys < 2 ^ 52
  pub taken : All (Apart (s.kernel.memory_slide + phys, 4096)) bs
  pub maps : translate s.kernel root v ≡ some (2 ^ 63 + frame phys + low_flags read_write)

-- No two of the pages have the same translation.
abbrev pub Differ : Kernel → (root : ℕ) → List ℕ → Type 0
Differ k root [] = Unit
Differ k root (v ∷ vs) = All (λ w. translate k root v ≢ translate k root w) vs × Differ k root vs

-- What a call leaves alone.
pub record Carries (s s' : System) (bs bs' : List Block) (root : ℕ) (cells cells' : List Cell)
    : Type 0 where
  pub base : s'.allocator.base ≡ s.allocator.base
  pub total : s'.allocator.total_pages ≡ s.allocator.total_pages
  pub slide : s'.kernel.memory_slide ≡ s.kernel.memory_slide
  pub heap_base : s'.heap_base ≡ s.heap_base
  pub heap_size : s'.heap_size ≡ s.heap_size
  pub top : current_top s ≤ current_top s'
  pub used : (q : ℕ) → free_at cells q ≡ false → free_at cells' q ≡ false
  pub covered : Covers bs bs'
  pub same :
      (v : ℕ) → IsLive s bs root cells v → translate s'.kernel root v ≡ translate s.kernel root v

module _ (s s' : System) (bs bs' : List Block) (root : ℕ) (cells cells' : List Cell)
    (c : Carries s s' bs bs' root cells cells') where
  carried-OffHeap : (v : ℕ) → OffHeap s v → OffHeap s' v
  carried-OffHeap v (inl below) = inl (omega (arith, c.heap_base))
  carried-OffHeap v (inr (inl over)) = inr (inl (omega (arith, c.heap_base, c.heap_size)))
  carried-OffHeap v (inr (inr under)) = inr (inr (omega (arith, c.top)))

  pub carried-IsLive : (v : ℕ) → IsLive s bs root cells v → IsLive s' bs' root cells' v
  carried-IsLive v l = record {
    index = l.index;
    place = rw c.base l.place;
    inside = rw c.total l.inside;
    in_use = c.used l.index l.in_use;
    off_heap = carried-OffHeap v l.off_heap;
    phys = l.phys;
    page = l.page;
    small = l.small;
    taken = rw c.slide (c.covered (s.kernel.memory_slide + l.phys, 4096) l.taken);
    maps = c.same v l ∙ l.maps;
  }

  pub carried-All :
      (live : List ℕ) → All (IsLive s bs root cells) live → All (IsLive s' bs' root cells') live
  carried-All [] all = tt
  carried-All (v ∷ vs) all = (carried-IsLive v all.0, carried-All vs all.1)

  carried-ne :
      (v : ℕ) (vs : List ℕ)
      → IsLive s bs root cells v
      → All (IsLive s bs root cells) vs
      → All (λ w. translate s.kernel root v ≢ translate s.kernel root w) vs
      → All (λ w. translate s'.kernel root v ≢ translate s'.kernel root w) vs
  carried-ne v [] l all ne = tt
  carried-ne v (w ∷ ws) l all ne =
      (λ e. ne.0 (sym (c.same v l) ∙ e ∙ c.same w all.0), carried-ne v ws l all.1 ne.1)

  pub carried-Differ :
      (live : List ℕ)
      → All (IsLive s bs root cells) live
      → Differ s.kernel root live
      → Differ s'.kernel root live
  carried-Differ [] all d = tt
  carried-Differ (v ∷ vs) all d = (carried-ne v vs all.0 all.1 d.0, carried-Differ vs all.1 d.1)

-- The pages from an address on.
abbrev pub pages_from : (first n : ℕ) → List ℕ
pages_from first zero = []
pages_from first (suc n) = first ∷ pages_from (first + 4096) n

pub All-pages_from :
    (P : ℕ → Type 0) (n first : ℕ)
    → ((j : ℕ) → j < n → P (first + j * 4096))
    → All P (pages_from first n)
All-pages_from P zero first h = tt
All-pages_from P (suc n) first h =
    let here : first + 0 * 4096 ≡ first = omega arith in
    (
      rw here at (h 0 (omega arith)),
      All-pages_from P n (first + 4096) (λ j lt.
          let e : first + suc j * 4096 ≡ first + 4096 + j * 4096 = omega arith in
          rw e at (h (suc j) (omega arith))),
    )

pub Differ-pages_from :
    (k : Kernel) (root n first : ℕ)
    → ((i j : ℕ)
        → i < j
        → j < n
        → translate k root (first + i * 4096) ≢ translate k root (first + j * 4096))
    → Differ k root (pages_from first n)
Differ-pages_from k root zero first h = tt
Differ-pages_from k root (suc n) first h =
    let here : first + 0 * 4096 ≡ first = omega arith in
    let next =
      λ (j : ℕ). (let e : first + suc j * 4096 ≡ first + 4096 + j * 4096 = omega arith in e) in
    (
      All-pages_from (λ w. translate k root first ≢ translate k root w) n (first + 4096)
          (λ j lt. rw (here, next j) at (h 0 (suc j) (omega arith) (omega arith))),
      Differ-pages_from k root n (first + 4096)
          (λ i j lt few. rw (next i, next j) at (h (suc i) (suc j) (omega arith) (omega arith))),
    )

pub All-append {ℓ} :
    {A : Type ℓ} (P : A → Type 0) (xs ys : List A) → All P xs → All P ys → All P (xs ++ ys)
All-append P [] ys a b = b
All-append P (x ∷ xs) ys a b = (a.0, All-append P xs ys a.1 b)

pub Differ-append :
    (k : Kernel) (root : ℕ) (xs ys : List ℕ)
    → Differ k root xs
    → Differ k root ys
    → All (λ v. All (λ w. translate k root v ≢ translate k root w) ys) xs
    → Differ k root (xs ++ ys)
Differ-append k root [] ys a b apart = b
Differ-append k root (x ∷ xs) ys a b apart =
    (All-append _ xs ys a.0 apart.0, Differ-append k root xs ys a.1 b apart.1)
