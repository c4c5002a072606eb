-- ===== src/Pma/Split.antt =====
-- The split of a block in `alloc` of kernel/mm/pma.cpp.
use unnamed.Prelude.{
  ℕ, ◌+◌, ◌-◌, ◌%◌, ◌≤◌, ◌<◌, ◌≡◌, ◌≢◌, true, false, Option, none, some, List, [], ◌∷◌, arith, ◌==◌,
}
use unnamed.Prelude.Words.{add64, sub64}
use unnamed.Machine.{Kernel, ok, accessible, write}
use unnamed.Machine.Ensures.{load-ok, store-ok}
use unnamed.Pma.{split_block, unlink, next_of}
use unnamed.Pma.Blocks.{
  Block, Chain, IsBlock, Outside, next_of-lt, size-accessible, next-accessible, accessible_at,
}

-- The memory has changed at most at the word `c` and inside the blocks.
abbrev pub SameElsewhere : (c : ℕ) → List Block → (ℕ → ℕ) → (ℕ → ℕ) → Type 0
SameElsewhere c bs m n = (w : ℕ) → w ≢ c → Outside w bs → n w ≡ m w

-- What the allocation of `size` from the blocks `bs` behind the pointer at `c` leaves.
abbrev pub Allocated : (c : ℕ) → List Block → Kernel → Option (ℕ × List Block) → ℕ → Kernel → Type 0
Allocated c bs k none r k' = (r ≡ 0) × (k' ≡ k)
Allocated c bs k (some (p, left)) r k' =
    (r ≡ sub64 p k.memory_slide)
    × Chain k'.mem (k'.mem c) left
    × SameElsewhere c bs k.mem k'.mem
    × (k' ≡ record k { mem = k'.mem })

-- The memory after a split: the header of the rest, and the pointer that now leads to it.
abbrev pub split_mem : (ℕ → ℕ) → (c a s taken : ℕ) → ℕ → ℕ
split_mem m c a s taken =
    write (write (write m (a + taken) (s - taken)) (a + taken + 8) (m (next_of a))) c (a + taken)

-- The two ways in which the block at `a` is taken off the list.
module _ (k : Kernel) (c a s : ℕ) (is : IsBlock k.boot (a, s)) (reach : accessible k.boot c ≡ true)
    (at : k.mem c ≡ a) where
  pub unlink-ok : unlink c k ≡ ok tt (record k { mem = write k.mem c (k.mem (next_of a)) })
  unfolding unlink
  unlink-ok = rw (
    load-ok k c reach,
    at,
    load-ok k (next_of a) (next-accessible k.boot a s is),
    store-ok k c reach,
  )

  pub split_block-ok :
      (rest : ℕ)
      → k.mem a ≡ s
      → rest % 8 ≡ 0
      → 16 ≤ rest
      → rest + 16 < s
      → Outside c ((a, s) ∷ [])
      → split_block c rest k ≡ ok tt (record k { mem = split_mem k.mem c a s rest })
  unfolding split_block
  split_block-ok rest size whole lo hi out =
      let fits = is.fits in
      let e₁ : add64 a rest ≡ a + rest = omega arith in
      let e₂ : sub64 s rest ≡ s - rest = omega arith in
      let e₃ : add64 (a + rest) 8 ≡ a + rest + 8 = omega arith in
      let e₄ : next_of a ≡ a + 8 = next_of-lt k.boot a s is in
      let n₁ : (c == a + rest) ≡ false = ground (arith, out.0) in
      let n₂ : (a + 8 == a + rest) ≡ false = ground arith in
      let al = is.aligned in
      let k₁ : Kernel = record k { mem = write k.mem (a + rest) (s - rest) } in
      let k₂ : Kernel = record k { mem = write k₁.mem (a + rest + 8) (k.mem (a + 8)) } in
      let r₁ = accessible_at k.boot a s is (a + rest) (omega arith) (omega arith) (omega arith) in
      let r₂ =
        accessible_at k.boot a s is (a + rest + 8) (omega arith) (omega arith) (omega arith) in
      let r₃ = accessible_at k.boot a s is (a + 8) (omega arith) (omega arith) (omega arith) in
      rw (
        load-ok k c reach,
        at,
        load-ok k a (size-accessible k.boot a s is),
        size,
        e₁,
        e₂,
        store-ok k (a + rest) r₁ (s - rest),
        load-ok k₁ c reach,
        n₁,
        at,
        e₄,
        load-ok k₁ (a + 8) r₃,
        n₂,
        e₃,
        store-ok k₁ (a + rest + 8) r₂ (k.mem (a + 8)),
        store-ok k₂ c reach (a + rest),
      )

-- The block is off the list.
