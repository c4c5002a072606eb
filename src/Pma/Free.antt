-- ===== src/Pma/Free.antt =====
-- `free` and `init`: a block in front of the list, and what the caller's address has to be.
use mathlib.Core.Path.{subst}
use unnamed.Prelude.{
  ℕ, ◌+◌, ◌%◌, ◌<◌, ◌≡◌, ◌≢◌, refl, sym, ◌∙◌, true, false, some, List, ◌∷◌, arith, length, All,
  ◌==◌,
}
use unnamed.Prelude.Words.{sub64}
use unnamed.Machine.{
  Kernel, Outcome, ok, halted, fault, out_of_fuel, Cmd, and_then, ◌>>=◌, store, accessible, write,
}
use unnamed.Machine.Ensures.{Ensures, Ensures-mono, load-ok, store-ok}
use unnamed.Pma.{push_block, coalesce, alloc, free, coalesce_loop, next_of}
use unnamed.Pma.Blocks.{
  Block, Apart, Misses, IsBlock, Chain-frame, SameIn-write, SameIn-trans, Outside-of_Apart,
  Outside-of_Apart_one, next_of-lt, size-accessible, next-accessible,
}
use unnamed.Pma.FirstFit.{first_fit}
use unnamed.Pma.Split.{Allocated, SameElsewhere}
use unnamed.Pma.Spec.{IsFreeList, IsSize, alloc-first_fit}
use unnamed.Pma.Merge.{merge, total, total-merge, Absorbed-merge}
use unnamed.Pma.Coalesce.{Coalesces, coalesce_loop-ok}

-- A block that may be put on the list: apart from the blocks on it and from the list's head.
pub record IsNew (k : Kernel) (bs : List Block) (a s : ℕ) : Type 0 where
  pub block : IsBlock k.boot (a, s)
  pub apart : All (Apart (a, s)) bs
  pub no_head : Misses k.head_addr (a, s)
  pub space : length bs + 1 < k.rounds

module _ (k : Kernel) (bs : List Block) (is : IsFreeList k bs) (a s : ℕ)
    (new : IsNew k bs a s) where
  abbrev pub pushed_mem : ℕ → ℕ
  pushed_mem = write (write (write k.mem a s) (next_of a) (k.mem k.head_addr)) k.head_addr a

  pub push_block-ok : push_block k.head_addr a s k ≡ ok tt (record k { mem = pushed_mem })
  unfolding push_block
  push_block-ok =
      let k₁ : Kernel = record k { mem = write k.mem a s } in
      let k₂ : Kernel = record k { mem = write k₁.mem (next_of a) (k.mem k.head_addr) } in
      let n₁ : (k.head_addr == a) ≡ false = ground (arith, new.no_head, new.block.room) in
      rw (
        store-ok k a (size-accessible k.boot a s new.block) s,
        load-ok k₁ k.head_addr is.reach,
        n₁,
        store-ok k₁ (next_of a) (next-accessible k.boot a s new.block) (k.mem k.head_addr),
        store-ok k₂ k.head_addr is.reach a,
      )

  -- A push writes the list head and the words of its block only.
  pub pushed-same : (w : ℕ) → w ≢ k.head_addr → Misses w (a, s) → pushed_mem w ≡ k.mem w
  pushed-same w other misses =
      let room = new.block.room in
      let e : next_of a ≡ a + 8 = next_of-lt k.boot a s new.block in ground arith

  pub pushed-IsFreeList : IsFreeList (record k { mem = pushed_mem }) ((a, s) ∷ bs)
  pushed-IsFreeList =
      let x = new.block in
      let room = x.room in
      let e : next_of a ≡ a + 8 = next_of-lt k.boot a s x in
      let m₁ = write k.mem a s in
      let m₂ = write m₁ (next_of a) (k.mem k.head_addr) in
      let head : pushed_mem k.head_addr ≡ a = ground arith in
      let size : pushed_mem a ≡ s = ground (arith, new.no_head) in
      let next : pushed_mem (next_of a) ≡ k.mem k.head_addr = ground (arith, new.no_head) in
      record {
        blocks = record { each = (x, is.blocks.each); apart = (new.apart, is.blocks.apart) };
        reach = is.reach;
        out = (new.no_head, is.out);
        chain = (
          head,
          size,
          rw next (
              Chain-frame k.mem pushed_mem (k.mem k.head_addr) k.boot bs is.blocks.each
                (SameIn-trans k.mem m₂ pushed_mem bs
                  (SameIn-trans k.mem m₁ m₂ bs
                    (SameIn-write k.mem a s bs
                      (Outside-of_Apart a a s bs new.apart (omega arith) (omega arith)))
                    (SameIn-write m₁ (next_of a) _ bs
                      (Outside-of_Apart (next_of a) a s bs new.apart (omega arith) (omega arith))))
                  (SameIn-write m₂ k.head_addr a bs is.out))
                is.chain),
        );
        enough = omega (arith, new.space);
      }

-- What a pass of `coalesce` over the whole list leaves.
abbrev pub Merged : Kernel → List Block → Kernel → Type 0
Merged k bs k' =
    IsFreeList k' (merge bs)
    × (total (merge bs) ≡ total bs)
    × SameElsewhere k.head_addr bs k.mem k'.mem
    × (k' ≡ record k { mem = k'.mem })

module _ (k : Kernel) (bs : List Block) (is : IsFreeList k bs) where
  Merged-of_Coalesces :
      (k' : Kernel) → Coalesces (k.mem k.head_addr) bs (merge bs) k k' → Merged k bs k'
  Merged-of_Coalesces k' (chain, same, rest) =
      let m = Absorbed-merge k.boot bs is.blocks in
      let out = (Outside-of_Apart_one k.head_addr (merge bs)).0 (
        (m.apart (k.head_addr, 1) (omega arith)).0
          ((Outside-of_Apart_one k.head_addr bs).1 is.out)) in
      let list : IsFreeList (record k { mem = k'.mem }) (merge bs) = record {
        blocks = m.blocks;
        reach = is.reach;
        out = out;
        chain = rw (same k.head_addr is.out) chain;
        enough = omega (arith, m.shorter, is.enough);
      } in
      (
        subst (λ q. IsFreeList q (merge bs)) (sym rest) list,
        total-merge bs,
        λ w n o. same w o,
        rest,
      )

  -- `coalesce` turns the list into the merged one, and changes only words of its blocks.
  pub coalesce-merge : Ensures (coalesce k) (λ _. Merged k bs)
  unfolding coalesce merge
  coalesce-merge = rw (load-ok k k.head_addr is.reach) (
      Ensures-mono (coalesce_loop k.rounds (k.mem k.head_addr) k) _ _ (λ _. Merged-of_Coalesces)
        (coalesce_loop-ok k.rounds (length bs) (k.mem k.head_addr) bs k is.enough (omega arith)
          is.blocks is.chain))

module _ (k : Kernel) (bs : List Block) (is : IsFreeList k bs) where
  -- On a list in order, for a size of whole pages, `free` puts the block at `ptr - slide` in front of the list
  -- and merges; the list is in order again, and no other words change. The block lies in mapped memory of the direct map from
  -- an address that 8 divides on, has room for its header, shares no word with the blocks of the list or with
  -- the list's head, and there are rounds for one block more.
  pub free-merge :
      (ptr size : ℕ)
      → size % 4096 ≡ 0
      → IsNew k bs (sub64 ptr k.memory_slide) size
      → Ensures (free ptr size k) (λ _ k'.
        IsFreeList k' (merge ((sub64 ptr k.memory_slide, size) ∷ bs))
        × SameElsewhere k.head_addr ((sub64 ptr k.memory_slide, size) ∷ bs) k.mem k'.mem)
  unfolding free
  free-merge ptr size whole new =
      let a = sub64 ptr k.memory_slide in
      let e : (size % 4096 == 0) ≡ true = ground arith in
      let m = pushed_mem k bs is a size new in
      rw (e, push_block-ok k bs is a size new)
        (Ensures-mono (coalesce (record k { mem = m })) _ _
          (λ _ k' (list, _, same, rest).
            (list, λ w n o. same w n o ∙ pushed-same k bs is a size new w n o.0))
          (coalesce-merge (record k { mem = m }) _ (pushed-IsFreeList k bs is a size new)))

module _ (k : Kernel) where
  -- A block outside the mapped words cannot be freed: writing its header faults.
  pub free-fault :
      (ptr size : ℕ)
      → size % 4096 ≡ 0
      → k.mapped (sub64 ptr k.memory_slide) ≡ false
      → free ptr size k ≡ fault
  unfolding free push_block store
  free-fault ptr size whole gone =
      let e : (size % 4096 == 0) ≡ true = ground arith in
      let no : accessible k.boot (sub64 ptr k.memory_slide) ≡ false = ground arith in rw (e, no)

fault_of_Ensures :
    {A B : Type 0} (r : Outcome Kernel A) (f : A → Cmd B) (P : A → Kernel → Type 0)
    → Ensures r P
    → ((a : A) (k : Kernel) → P a k → f a k ≡ fault)
    → and_then r f ≡ fault
fault_of_Ensures (ok a k) f P e next = next a k e
fault_of_Ensures halted f P e next = absurd e
fault_of_Ensures fault f P e next = refl
fault_of_Ensures out_of_fuel f P e next = absurd e

module _ (k : Kernel) (bs : List Block) (size : ℕ) (is : IsFreeList k bs)
    (sized : IsSize size) where
  -- `alloc` subtracts the slide from the address of the pages, and `free` subtracts it once more.
  -- So freeing what `alloc` has returned faults, unless the word two slides below the pages happens
  -- to be mapped.
  pub alloc-free-fault :
      (p : ℕ) (left : List Block)
      → first_fit size bs ≡ some (p, left)
      → k.mapped (sub64 (sub64 p k.memory_slide) k.memory_slide) ≡ false
      → (alloc size >>= λ r. free r size) k ≡ fault
  alloc-free-fault p left e gone =
      fault_of_Ensures (alloc size k) (λ r. free r size)
        (Allocated k.head_addr bs k (some (p, left))) (rw e at (alloc-first_fit k bs size is sized))
        λ r k' (address, _, _, rest).
          rw (address, rest) (free-fault (record k { mem = k'.mem }) _ size sized.whole gone)
