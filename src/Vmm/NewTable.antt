-- ===== src/Vmm/NewTable.antt =====
-- `allocate_table` of kernel/mm/vmm.cpp: a zeroed page from the allocator, or nothing.
use mathlib.Core.Path.{subst}
use unnamed.Prelude.{
  ℕ, ◌+◌, ◌-◌, ◌*◌, ◌<◌, ◌≡◌, refl, ◌∙◌, sym, ◌≢◌, ◌⊎◌, inl, inr, false, List, arith, ◌==◌,
}
use unnamed.Prelude.Words.{add64}
use unnamed.Machine.{Boot, Kernel, pure}
use unnamed.Machine.Ensures.{Ensures, and_then-Ensures}
use unnamed.Pma.{alloc_page}
use unnamed.Pma.Blocks.{Block, Apart, Outside, Misses, Outside-of_Apart_one, IsBlock}
use unnamed.Pma.Handed.{Handed}
use unnamed.Pma.Spec.{IsFreeList, AllocPost, IsServed, TooSmall, alloc-AllocPost}
use unnamed.Vmm.{alloc_table, zero_page, zero_words}
use unnamed.Vmm.Frames.{IsFreeList-frame, Zeroed, ZeroedTo, zero_words-Zeroed}

-- The page at `virt` of the direct map is zeroed and belongs to the caller.
pub record IsNewTable (k : Kernel) (bs : List Block) (virt phys : ℕ) (n : ℕ → ℕ) (left : List Block)
    : Type 0 where
  pub handed : Handed k.boot bs 4096 virt left
  pub address : phys ≡ virt - k.memory_slide
  pub list : IsFreeList (record k { mem = n }) left
  pub zeros : (i : ℕ) → i < 512 → n (virt + 8 * i) ≡ 0
  pub same : (w : ℕ) → w ≢ k.head_addr → Outside w bs → n w ≡ k.mem w

abbrev pub NewTableTo : Kernel → List Block → ℕ × ℕ → Kernel → Type 0
NewTableTo k bs (virt, phys) k' =
    ((virt ≡ 0) × TooSmall 4096 bs × (k' ≡ k))
    ⊎ ((n : ℕ → ℕ) × (left : List Block) × (k' ≡ record k { mem = n })
        × IsNewTable k bs virt phys n left)

pub Misses-of_Handed :
    (b : Boot) (bs : List Block) (virt : ℕ) (left : List Block)
    → Handed b bs 4096 virt left
    → (w : ℕ) → Outside w bs
    → Misses w (virt, 4096)
Misses-of_Handed b bs virt left h w out =
    let a : Apart (w, 1) (virt, 4096) = h.was_free (w, 1) ((Outside-of_Apart_one w bs).1 out) in
    omega arith

module _ (k : Kernel) (bs : List Block) (is : IsFreeList k bs) where
  IsNewTable-Zeroed :
      (r p : ℕ) (left : List Block) (k' : Kernel) (n : ℕ → ℕ)
      → IsServed k bs 4096 r k' p left
      → Zeroed k' 512 p n
      → IsNewTable k bs p (p - k.memory_slide) n left
  IsNewTable-Zeroed r p left k' n s z = record {
    handed = s.handed;
    address = refl;
    list =
        subst (λ q. IsFreeList (record q { mem = n }) left) s.rest
          (IsFreeList-frame k' n (p, 4096) left s.handed.fresh no_head z.same s.list);
    zeros = z.zeros;
    same =
        λ w ne out. z.same w (Misses-of_Handed k.boot bs p left s.handed w out) ∙ s.same w ne out;
  }
    where
      no_head : Misses k'.head_addr (p, 4096)
      no_head = rw s.rest (Misses-of_Handed k.boot bs p left s.handed k.head_addr is.out)

  zero_page-new :
      (words phys p : ℕ) (left : List Block) (k' : Kernel)
      → words ≡ 512
      → IsServed k bs 4096 phys k' p left
      → Ensures (zero_page words phys k') (NewTableTo k bs)
  unfolding zero_page
  zero_page-new words phys p left k' whole s =
      let place : IsBlock k.boot (p, 4096) = s.handed.place (omega arith) in
      let up = s.handed.above in
      let lim = place.fits in
      let a : phys ≡ p - k.memory_slide = s.address ∙ omega arith in
      let ne : (phys == 0) ≡ false = ground arith in
      let slide : k'.memory_slide ≡ k.memory_slide = rw s.rest in
      let back : add64 phys k'.memory_slide ≡ p = rw slide (omega arith) in
      rw (ne, back)
        (and_then-Ensures (zero_words words p k') (λ _. pure (p, phys)) (ZeroedTo k' words p)
          (NewTableTo k bs)
          (zero_words-Zeroed words p k' (omega (arith, place.aligned)) (omega arith)
            (λ w lo hi. rw s.rest (place.reach w (omega arith) (omega arith))))
          (λ u k'' (n, e, z). inr (
            n,
            left,
            e ∙ rw s.rest,
            rw a (IsNewTable-Zeroed phys p left k' n s (subst (λ c. Zeroed k' c p n) whole z)),
          )))

  zero_page-none :
      (words : ℕ) (k' : Kernel)
      → TooSmall 4096 bs
      → k' ≡ k
      → Ensures (zero_page words 0 k') (NewTableTo k bs)
  unfolding zero_page
  zero_page-none words k' few same = inl (refl, few, same)

  pub alloc_page-AllocPost : Ensures (alloc_page k) (AllocPost k bs 4096)
  unfolding alloc_page
  alloc_page-AllocPost =
      alloc-AllocPost k bs 4096 is (record { whole = omega arith; small = omega arith })

  -- The allocation of a table returns, and gives a zeroed page or 0 with nothing changed.
  pub alloc_table-NewTable : Ensures (alloc_table k) (NewTableTo k bs)
  unfolding alloc_table
  alloc_table-NewTable =
      and_then-Ensures (alloc_page k) (zero_page 512) (AllocPost k bs 4096) (NewTableTo k bs)
        alloc_page-AllocPost
        (λ r k' post. elim post [
          | inl (few, z, same) ↦
              subst (λ q. Ensures (zero_page 512 q k') (NewTableTo k bs)) (sym z)
                (zero_page-none 512 k' few same)
          | inr (many, (p, left, s)) ↦ zero_page-new 512 r p left k' refl s
        ])
