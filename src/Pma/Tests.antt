-- ===== src/Pma/Tests.antt =====
-- The physical allocator on a small machine, and its theorems there.
use unnamed.Prelude.{
  ℕ, ◌+◌, ◌%◌, ◌≤◌, ◌<◌, ◌≡◌, refl, ◌⊎◌, Bool, true, false, some, List, [], ◌∷◌, arith, All, ltb,
}
use unnamed.Prelude.Words.{add64}
use unnamed.Utils.{align_up}
use unnamed.Machine.{
  Boot, Kernel, MemmapEntry, incorrect_parameter, fault, ◌>>=◌, write, load, store,
}
use unnamed.Machine.Ensures.{Ensures}
use unnamed.Pma.{alloc, free, init_pma, get_highest_physical_address, coalesce}
use unnamed.Pma.Blocks.{Block, IsBlock}
use unnamed.Pma.FirstFit.{first_fit}
use unnamed.Pma.Split.{Allocated, SameElsewhere}
use unnamed.Pma.Spec.{IsFreeList, IsSize, AllocPost, alloc-first_fit, alloc-AllocPost}
use unnamed.Pma.Merge.{merge}
use unnamed.Pma.Free.{Merged, coalesce-merge, free-merge, alloc-free-fault}
use unnamed.Pma.Init.{
  Fits, EndsAt, Initialized, init_pma-IsFreeList, get_highest_physical_address-max,
}

abbrev entry : ℕ → ℕ → Bool → MemmapEntry
entry base length usable = record { base = base; length = length; usable = usable }

-- Two usable ranges that meet, with a reserved one behind.
abbrev entries : List MemmapEntry
entries = entry 0x4000 0x3000 true ∷ entry 0x1000 0x3000 true ∷ entry 0x7000 0x9000 false ∷ []

abbrev boot : Boot
boot = record {
  memory_slide = 0x10000;
  kernel_base = 0xffff_ffff_8000_0000;
  memmap = some entries;
  head_addr = 0x800;
  mapped = λ a. ltb a 0x20000;
  rounds = 9;
}

abbrev blank : Kernel
blank = record { boot = boot; mem = λ _. 0; error = incorrect_parameter; cr3 = 0; invalidated = [] }

-- After `init`: the later range is in front.
abbrev mem : ℕ → ℕ
mem =
    write
      (write (write (write (write (λ _. 0) 0x14000 0x3000) 0x14008 0) 0x11000 0x3000) 0x11008
        0x14000)
      0x800 0x11000

abbrev kernel : Kernel
kernel = record blank { mem = mem }

abbrev blocks : List Block
blocks = (0x11000, 0x3000) ∷ (0x14000, 0x3000) ∷ []

reach : (w : ℕ) → w < 0x20000 → boot.mapped w ≡ true
reach w h = ground arith

-- A block below the end of the mapped words.
is_block : (a s : ℕ) → 0x10000 ≤ a → a % 8 ≡ 0 → 16 ≤ s → a + s ≤ 0x20000 → IsBlock boot (a, s)
is_block a s above al room end = record {
  ne_null = omega arith;
  aligned = al;
  room = room;
  fits = omega arith;
  above = above;
  below = omega arith;
  reach = λ w lo hi. reach w (omega arith);
}

blocks-Fits : Fits boot blocks
blocks-Fits = record {
  blocks = record {
    each = (
      is_block 0x11000 0x3000 (omega arith) refl (omega arith) (omega arith),
      (is_block 0x14000 0x3000 (omega arith) refl (omega arith) (omega arith), tt),
    );
    apart = omega arith;
  };
  out = omega arith;
  enough = omega arith;
}

kernel-IsFreeList : IsFreeList kernel blocks
kernel-IsFreeList = record {
  blocks = blocks-Fits.blocks;
  reach = refl;
  out = blocks-Fits.out;
  chain = (refl, refl, (refl, refl, refl));
  enough = blocks-Fits.enough;
}

page-IsSize : IsSize 0x1000
page-IsSize = omega arith

-- The page behind the header's; the rest of the block is 0x1000 bytes behind it.
alloc_runs : Ensures (alloc 0x1000 kernel) (λ r k. (r ≡ 0x2000) × (k.mem 0x800 ≡ 0x13000))
unfolding alloc load store align_up
alloc_runs = (refl, refl)

init_runs : Ensures (init_pma blank) (λ _ k. (k.mem 0x800 ≡ 0x11000) × (k.mem 0x11008 ≡ 0x14000))
unfolding init_pma load store
init_runs = (refl, refl)

-- The two ranges become one block.
coalesce_runs : Ensures (coalesce kernel) (λ _ k. (k.mem 0x11000 ≡ 0x6000) × (k.mem 0x11008 ≡ 0))
unfolding coalesce load store
coalesce_runs = (refl, refl)

alloc-AllocPost_example : Ensures (alloc 0x1000 kernel) (AllocPost kernel blocks 0x1000)
alloc-AllocPost_example = alloc-AllocPost kernel blocks 0x1000 kernel-IsFreeList page-IsSize

alloc-first_fit_example :
    Ensures
      (alloc 0x1000 kernel)
      (Allocated 0x800 blocks kernel (some (0x12000, (0x13000, 0x1000) ∷ (0x14000, 0x3000) ∷ [])))
unfolding first_fit
alloc-first_fit_example = alloc-first_fit kernel blocks 0x1000 kernel-IsFreeList page-IsSize

coalesce-merge_example : Ensures (coalesce kernel) (λ _. Merged kernel blocks)
coalesce-merge_example = coalesce-merge kernel blocks kernel-IsFreeList

-- The page at 0x18000 of the direct map, freed by the address that `free` expects.
free-merge_example : Ensures (free 0x28000 0x1000 kernel) (λ _ k.
    IsFreeList k (merge ((0x18000, 0x1000) ∷ blocks))
    × SameElsewhere 0x800 ((0x18000, 0x1000) ∷ blocks) kernel.mem k.mem)
free-merge_example = free-merge kernel blocks kernel-IsFreeList 0x28000 0x1000 refl (record {
  block = is_block 0x18000 0x1000 (omega arith) refl (omega arith) (omega arith);
  apart = omega arith;
  no_head = omega arith;
  space = omega arith;
})

alloc-free-fault_example : (alloc 0x1000 >>= λ r. free r 0x1000) kernel ≡ fault
unfolding first_fit
alloc-free-fault_example =
    alloc-free-fault kernel blocks 0x1000 kernel-IsFreeList page-IsSize 0x12000 _ refl refl

init_pma-IsFreeList_example : Ensures (init_pma blank) (λ _. Initialized blank blocks)
init_pma-IsFreeList_example = init_pma-IsFreeList blank entries refl refl refl blocks-Fits

get_highest_physical_address-max_example : Ensures (get_highest_physical_address blank) (λ h k.
    All (λ e. add64 e.base e.length ≤ h) entries × ((h ≡ 0) ⊎ EndsAt entries h) × (k ≡ blank))
get_highest_physical_address-max_example = get_highest_physical_address-max blank entries refl
