-- ===== src/Vmm/Frames.antt =====
-- What the writes of `map_virtual` leave alone: the free list, and the memory around a zeroed page.
use unnamed.Prelude.{
  ℕ, zero, suc, ◌+◌, ◌*◌, ◌%◌, ◌^◌, ◌≤◌, ◌<◌, ◌≡◌, refl, ◌∙◌, List, [], ◌∷◌, arith, All, true,
}
use unnamed.Prelude.Words.{add64}
use unnamed.Machine.{Kernel, accessible, write}
use unnamed.Machine.Ensures.{Ensures, Ensures-mono, store-ok}
use unnamed.Pma.Blocks.{Block, Apart, Misses, SameIn, Chain-frame}
use unnamed.Pma.Spec.{IsFreeList}
use unnamed.Vmm.{zero_words}

-- Memory in which the words outside the block are as before.
abbrev pub SameAround : Block → (ℕ → ℕ) → (ℕ → ℕ) → Type 0
SameAround x m n = (w : ℕ) → Misses w x → n w ≡ m w

SameIn-around :
    (m n : ℕ → ℕ) (x : Block) (bs : List Block)
    → All (Apart x) bs
    → SameAround x m n
    → All (SameIn m n) bs
SameIn-around m n x [] a same = tt
SameIn-around m n x (y ∷ bs) a same =
    (λ w lo hi. same w (omega arith), SameIn-around m n x bs a.1 same)

-- A list stays in order when only words that are on none of its blocks and not the head's change.
pub IsFreeList-frame :
    (k : Kernel) (n : ℕ → ℕ) (x : Block) (bs : List Block)
    → All (Apart x) bs
    → Misses k.head_addr x
    → SameAround x k.mem n
    → IsFreeList k bs
    → IsFreeList (record k { mem = n }) bs
IsFreeList-frame k n x bs apart no_head same is = record {
  blocks = is.blocks;
  reach = is.reach;
  out = is.out;
  chain = rw (same k.head_addr no_head) (
      Chain-frame k.mem n (k.mem k.head_addr) k.boot bs is.blocks.each
        (SameIn-around k.mem n x bs apart same) is.chain);
  enough = is.enough;
}

-- The words from `a` on are zero, and the others as before.
pub record Zeroed (k : Kernel) (count a : ℕ) (n : ℕ → ℕ) : Type 0 where
  pub zeros : (i : ℕ) → i < count → n (a + 8 * i) ≡ 0
  pub same : SameAround (a, 8 * count) k.mem n

abbrev pub ZeroedTo : Kernel → (count a : ℕ) → Unit {0} → Kernel → Type 0
ZeroedTo k count a u k' = (n : ℕ → ℕ) × (k' ≡ record k { mem = n }) × Zeroed k count a n

Zeroed-step :
    (k : Kernel) (c a : ℕ) (n : ℕ → ℕ)
    → Zeroed (record k { mem = write k.mem a 0 }) c (a + 8) n
    → Zeroed k (suc c) a n
Zeroed-step k c a n z = record {
  zeros = λ i. elim i as (λ j. j < suc c → n (a + 8 * j) ≡ 0) [
    | zero ↦ λ lt. z.same (a + 8 * 0) (omega arith) ∙ ground arith
    | suc j ↦ λ lt.
        (let e : a + 8 * suc j ≡ a + 8 + 8 * j = omega arith in rw e (z.zeros j (omega arith)))
  ];
  same = λ w out. z.same w (omega arith) ∙ ground arith;
}

pub zero_words-Zeroed :
    (count a : ℕ) (k : Kernel)
    → a % 8 ≡ 0
    → a + 8 * count < 2 ^ 64
    → ((w : ℕ) → a ≤ w → w < a + 8 * count → k.mapped w ≡ true)
    → Ensures (zero_words count a k) (ZeroedTo k count a)
unfolding zero_words
zero_words-Zeroed zero a k al fits reach =
    (k.mem, refl, record { zeros = λ i lt. absurd (omega arith); same = λ w out. refl })
zero_words-Zeroed (suc c) a k al fits reach =
    let ok_at : accessible k.boot a ≡ true = ground (arith, reach a (omega arith) (omega arith)) in
    let next : add64 a 8 ≡ a + 8 = omega arith in
    rw (store-ok k a ok_at 0, next)
      (Ensures-mono (zero_words c (a + 8) (record k { mem = write k.mem a 0 }))
        (ZeroedTo (record k { mem = write k.mem a 0 }) c (a + 8)) (ZeroedTo k (suc c) a)
        (λ u k' (n, e, z). (n, e, Zeroed-step k c a n z))
        (zero_words-Zeroed c (a + 8) (record k { mem = write k.mem a 0 }) (omega arith)
          (omega arith) (λ w lo hi. reach w (omega arith) (omega arith))))
