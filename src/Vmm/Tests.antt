-- ===== src/Vmm/Tests.antt =====
-- The page tables on a small machine: an empty root table, and one free block for more.
use mathlib.Core.Option.{none-ne-some}
use unnamed.Prelude.{
  ℕ, suc, ◌+◌, ◌*◌, ◌<◌, ◌≡◌, refl, sym, ◌∙◌, inl, inr, Bool-cases, true, false, none, some, List,
  [], ◌∷◌, arith, ltb, ◌==◌, ==_iff, if◌then◌else◌,
}
use unnamed.Machine.{Boot, Kernel, MemmapEntry, incorrect_parameter, out_of_memory, ok, write}
use unnamed.Machine.Ensures.{Ensures}
use unnamed.Pma.Blocks.{Block}
use unnamed.Pma.Spec.{IsFreeList}
use unnamed.Pma.Init.{Fits}
use unnamed.Vmm.{map_virtual}
use unnamed.Vmm.Walk.{Owner, IsTable, IsTables}
use unnamed.Vmm.Outcome.{MapPost}
use unnamed.Vmm.Mapping.{map_virtual-MapPost, map_virtual-refused}

-- The memory for the free block, and the page of the root table.
abbrev pub entries : List MemmapEntry
entries =
    record { base = 0x2000; length = 0x6000; usable = true }
    ∷ record { base = 0x8000; length = 0x1000; usable = false }
    ∷ []

abbrev pub boot : Boot
boot = record {
  memory_slide = 0x10000;
  kernel_base = 0x1000_0000;
  memmap = some entries;
  head_addr = 0x800;
  mapped = λ a. ltb a 0x20000;
  rounds = 9;
}

-- The free block begins at 0x12000, and the root table is at 0x18000.
abbrev pub mem : ℕ → ℕ
mem = write (write (λ _. 0) 0x12000 0x6000) 0x800 0x12000

abbrev pub kernel : Kernel
kernel = record { boot = boot; mem = mem; error = out_of_memory; cr3 = 0x8000; invalidated = [] }

abbrev pub blocks : List Block
blocks = (0x12000, 0x6000) ∷ []

pub blocks-Fits : Fits boot blocks
blocks-Fits = record {
  blocks = record {
    each = (
      record {
        ne_null = omega arith;
        aligned = refl;
        room = omega arith;
        fits = omega arith;
        above = omega arith;
        below = omega arith;
        reach = λ w lo hi. ground arith;
      },
      tt,
    );
    apart = (tt, tt);
  };
  out = (omega arith, tt);
  enough = omega arith;
}

pub kernel-IsFreeList : IsFreeList kernel blocks
kernel-IsFreeList = record {
  blocks = blocks-Fits.blocks;
  reach = refl;
  out = blocks-Fits.out;
  chain = (refl, refl, refl);
  enough = blocks-Fits.enough;
}

abbrev pub own : Owner
own t = if t == 0x18000 then some (3, 0) else none

pub own_root : (t : ℕ) (x : ℕ × ℕ) → own t ≡ some x → t ≡ 0x18000
own_root t x o = elim (Bool-cases (t == 0x18000)) [
  | inl e ↦ (==_iff _ _).0 e
  | inr e ↦ absurd (none-ne-some _ (rw e at o))
]

pub root-IsTable : IsTable boot blocks 0x18000
root-IsTable = record {
  aligned = refl;
  ne_null = omega arith;
  fits = omega arith;
  reach = λ w lo hi. ground arith;
  apart = (omega arith, tt);
  no_head = omega arith;
}

empty_root : (i : ℕ) → i < 512 → mem (0x18000 + 8 * i) ≡ 0
empty_root i lt = ground arith

pub root-IsTables : IsTables boot mem blocks 0x18000 own
root-IsTables = record {
  top = refl;
  page = λ t l p o. rw (own_root t (l, p) o) root-IsTable;
  child = λ t l p i o lt on.
      let dark : mem (t + 8 * i) ≡ 0 = rw (own_root t (suc l, p) o) (empty_root i lt) in
      absurd (let c : true ≡ false = sym on ∙ rw dark in cc);
  slide = refl;
}

map_virtual-MapPost_example :
    Ensures
      (map_virtual 0x18000 0x40_0000 0x7000 6 kernel)
      (MapPost kernel blocks 0x18000 own 0x40_0000 0x7000 6)
map_virtual-MapPost_example =
    map_virtual-MapPost kernel blocks 0x18000 own 0x40_0000 0x7000 6 kernel-IsFreeList root-IsTables
      (omega arith, refl) (omega arith, refl)

map_virtual-refused_example :
    map_virtual 0x18000 0x40_0008 0x7000 6 kernel
    ≡ ok false (record kernel { error = incorrect_parameter })
map_virtual-refused_example =
    map_virtual-refused kernel 0x18000 0x40_0008 0x7000 6 (λ x. absurd (omega (arith, x.0.1)))
