-- ===== src/Vmm/Descent.antt =====
-- The three calls of `ensure_table` in `map_virtual`: the way down to the leaf table of a page.
use unnamed.Prelude.{ℕ, suc, ◌+◌, ◌*◌, ◌/◌, ◌%◌, ◌^◌, ◌≡◌, refl, ap, ◌∙◌, some, List, arith}
use unnamed.Prelude.Words.{add64}
use unnamed.Machine.{Kernel}
use unnamed.Machine.Ensures.{Ensures}
use unnamed.Pma.Blocks.{Block}
use unnamed.Pma.Spec.{IsFreeList}
use unnamed.Vmm.{ensure_table}
use unnamed.Vmm.Walk.{above, entry_at, walk, walk-next, Owner, IsTables}
use unnamed.Vmm.Grown.{Grown}
use unnamed.Vmm.Tables.{EnsuredTo, IsLinked, ensure_table-Ensured}

-- The number of the page of a virtual address.
abbrev pub page_of : ℕ → ℕ
page_of virt = virt / 4096 % 2 ^ 36

-- The table of the level `l` on the way to page `v` leads to `r` at the level below.
abbrev pub LinkedOn : (slide : ℕ) (n : ℕ → ℕ) → Owner → (v l t r : ℕ) → Type 0
LinkedOn slide n own v l t r = IsLinked slide n own (entry_at (suc l) t v) r (l, above (suc l) v)

module _ (k : Kernel) (bs : List Block) (root v l t i : ℕ) (own : Owner) (is : IsFreeList k bs)
    (ts : IsTables k.boot k.mem bs root own) (o : own t ≡ some (suc l, above (suc (suc l)) v))
    (index : i ≡ above (suc l) v % 512) where
  pub ensure_table-on :
      Ensures
        (ensure_table (add64 t (8 * i)) k)
        (EnsuredTo k bs root own (entry_at (suc l) t v) (l, above (suc l) v))
  ensure_table-on =
      let j = above (suc l) v % 512 in
      let fits = (ts.page t (suc l) (above (suc (suc l)) v) o).fits in
      let e : add64 t (8 * i) ≡ t + 8 * j = omega arith in
      let d : above (suc (suc l)) v * 512 + j ≡ above (suc l) v = omega arith in
      let down =
        ensure_table-Ensured k bs root t l (above (suc (suc l)) v) j own is ts o (omega arith) in
      rw e (rw d at down)

-- A link stays when tables are added.
pub IsLinked-Grown :
    (k : Kernel) (n : ℕ → ℕ) (bs left : List Block) (root v l t r : ℕ) (own own' : Owner)
    (x : ℕ × ℕ)
    → own t ≡ some x
    → Grown k bs root own n left own'
    → LinkedOn k.memory_slide k.mem own v l t r
    → LinkedOn k.memory_slide n own' v l t r
IsLinked-Grown k n bs left root v l t r own own' x o g s =
    let same = g.kept t (above (suc l) v % 512) x o (omega arith) s.on in
    record {
      on = rw same s.on;
      grants = rw same s.grants;
      next = rw same s.next;
      found = g.extends r (l, above (suc l) v) s.found;
    }

-- The way down is complete: tables of every level, from the root to `pt`.
pub record IsWay (slide : ℕ) (n : ℕ → ℕ) (own : Owner) (root v pdpt pd pt : ℕ) : Type 0 where
  pub first : LinkedOn slide n own v 2 root pdpt
  pub second : LinkedOn slide n own v 1 pdpt pd
  pub third : LinkedOn slide n own v 0 pd pt

pub walk-IsWay :
    (slide : ℕ) (n : ℕ → ℕ) (own : Owner) (root v pdpt pd pt : ℕ)
    → IsWay slide n own root v pdpt pd pt
    → walk n slide 3 root v ≡ walk n slide 0 pt v
walk-IsWay slide n own root v pdpt pd pt w =
    step 2 root pdpt w.first ∙ step 1 pdpt pd w.second ∙ step 0 pd pt w.third
  where
    step :
        (l t r : ℕ) → LinkedOn slide n own v l t r → walk n slide (suc l) t v ≡ walk n slide l r v
    step l t r s =
        walk-next n slide l t v (n (entry_at (suc l) t v)) refl s.on s.grants
        ∙ ap (λ q. walk n slide l q v) s.next
