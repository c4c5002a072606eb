-- ===== src/Vmm/Grown.antt =====
-- Tables that have got new ones below them (`map_virtual` of kernel/mm/vmm.cpp).
use unnamed.Prelude.{ℕ, ◌+◌, ◌*◌, ◌<◌, ◌≡◌, true, some, List, arith, ◌==◌, if◌then◌else◌}
use unnamed.Machine.{Boot, Kernel}
use unnamed.Pma.Blocks.{Block}
use unnamed.Pma.Handed.{Covers}
use unnamed.Pma.Spec.{IsFreeList}
use unnamed.Vmm.Entries.{is_present}
use unnamed.Vmm.Walk.{IsTable, Owner, IsTables, SameWalks, Extends}

-- What a step that adds tables leaves: memory `n`, owners, and free blocks among those that there were,
-- with every page translated as before and every present entry kept.
pub record Grown (k : Kernel) (bs : List Block) (root : ℕ) (own : Owner) (n : ℕ → ℕ)
    (left : List Block) (own' : Owner) : Type 0 where
  pub list : IsFreeList (record k { mem = n }) left
  pub tables : IsTables k.boot n left root own'
  pub extends : Extends own own'
  pub covered : Covers bs left
  pub walks : SameWalks own k.memory_slide k.mem n
  pub kept :
      (t i : ℕ) (x : ℕ × ℕ)
      → own t ≡ some x
      → i < 512
      → is_present (k.mem (t + 8 * i)) ≡ true
      → n (t + 8 * i) ≡ k.mem (t + 8 * i)

abbrev pub adopt : Owner → (virt : ℕ) → ℕ × ℕ → Owner
adopt own virt x t = if t == virt then some x else own t

-- Entries of tables at different addresses are different words.
pub entry_ne :
    (b : Boot) (bs : List Block) (t u i j : ℕ)
    → IsTable b bs t
    → IsTable b bs u
    → i < 512
    → j < 512
    → t + 8 * i ≡ u + 8 * j
    → (t ≡ u) × (i ≡ j)
entry_ne b bs t u i j it iu li lj e =
    let a = it.aligned in let c = iu.aligned in (omega arith, omega arith)
