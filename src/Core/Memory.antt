-- ===== src/Core/Memory.antt =====
-- The start of the memory managers in kernel/kernel/core.cpp: what the boot loader leaves, and what
-- the first of them does not change.
use unnamed.Prelude.{
  ℕ, suc, ◌+◌, ◌*◌, ◌%◌, ◌^◌, ◌≤◌, ◌<◌, ◌≡◌, ◌≢◌, ap, ◌∙◌, ◌⊎◌, inl, true, false, none, some, List,
  [], arith,
}
use unnamed.Prelude.Words.{add64, sub64}
use unnamed.Helpers.{align_down}
use unnamed.Machine.{Kernel, MemmapEntry, accessible, page_size}
use unnamed.Pma.{highest_loop}
use unnamed.Pma.Blocks.{Block, Outside-of_Apart}
use unnamed.Pma.Split.{SameElsewhere}
use unnamed.Pma.Init.{usable_blocks, Fits}
use unnamed.Vmm.Walk.{above, translate, Owner, IsTables, walk-frame}
use unnamed.Vmm.Descent.{page_of}
use unnamed.Vma.{Nodes}
use unnamed.Heap.{System}

-- Tables are in order as before when no word of them changes.
module _ (k : Kernel) (bs : List Block) (root : ℕ) (own : Owner) (n : ℕ → ℕ)
    (ts : IsTables k.boot k.mem bs root own) (same : SameElsewhere k.head_addr bs k.mem n) where
  same_word :
      (t : ℕ) (x : ℕ × ℕ) → own t ≡ some x → (j : ℕ) → j < 512 → n (t + 8 * j) ≡ k.mem (t + 8 * j)
  same_word t x o j lt =
      let page = ts.page t x.0 x.1 o in
      let other : t + 8 * j ≢ k.head_addr = λ e. (let m = page.no_head in omega arith) in
      same (t + 8 * j) other
        (Outside-of_Apart (t + 8 * j) t 4096 bs page.apart (omega arith) (omega arith))

  pub same-IsTables : IsTables k.boot n bs root own
  same-IsTables = record {
    top = ts.top;
    page = ts.page;
    child = λ t l q i o lt on.
        let e = same_word t (suc l, q) o i lt in rw e (ts.child t l q i o lt (rw e at on));
    slide = ts.slide;
  }

  pub same-translate : (w : ℕ) → translate (record k { mem = n }) root w ≡ translate k root w
  unfolding translate
  same-translate w =
      walk-frame k.boot k.mem n bs root own (page_of w) ts
        (λ t l o.
          inl (
            same_word t (l, above (suc l) (page_of w)) o (above l (page_of w) % 512) (omega arith)))
        3 root (ts.top ∙ ap (λ z. some (3, z)) (omega arith))

-- The first address behind the direct map of all physical memory, and the bytes from there to the
-- kernel.
abbrev pub range_start : Kernel → List MemmapEntry → ℕ
range_start k entries = align_down (add64 k.memory_slide (highest_loop 0 entries)) page_size

abbrev pub range_size : Kernel → List MemmapEntry → ℕ
range_size k entries = sub64 (align_down k.kernel_base page_size) (range_start k entries)

-- What the boot loader leaves: a memory map whose usable ranges may lie in memory together, an empty
-- free list, tables in order of which no word is in the ranges, and variables that have not been used.
pub record IsBooted (s : System) (entries : List MemmapEntry) (root : ℕ) (own : Owner)
    : Type 0 where
  pub memmap : s.kernel.memmap ≡ some entries
  pub head_reach : accessible s.kernel.boot s.kernel.head_addr ≡ true
  pub head_null : s.kernel.mem s.kernel.head_addr ≡ 0
  pub usable : Fits s.kernel.boot (usable_blocks s.kernel.memory_slide entries [])
  pub tables :
      IsTables s.kernel.boot s.kernel.mem (usable_blocks s.kernel.memory_slide entries []) root own
  pub active : root ≡ add64 s.kernel.cr3 s.kernel.memory_slide
  -- two nodes are left when `init` has taken one
  pub nodes : 2 < s.allocator.max_nodes
  pub unlocked : s.allocator.locked ≡ false
  pub fresh :
      (m : Nodes)
      → (s.allocator.new_maps m ≡ false)
        × (s.allocator.delete_unmaps m ≡ false)
        × ((s.allocator.new_node m ≡ 0)
            ⊎ ((s.allocator.max_nodes < s.allocator.new_node m)
                × ((m (s.allocator.new_node m)).valid ≡ false)))
  pub no_top : s.heap_top ≡ none
  -- the range of addresses
  pub some_start : 0 < range_start s.kernel entries
  pub some_pages : page_size ≤ range_size s.kernel entries
  pub end : range_start s.kernel entries + range_size s.kernel entries < 2 ^ 64
