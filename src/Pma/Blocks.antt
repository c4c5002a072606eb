-- ===== src/Pma/Blocks.antt =====
-- The free list as a list of blocks (address, size): how it lies in memory, and what keeps its
-- blocks apart. A frame lemma says which writes leave it alone.
use unnamed.Prelude.{
  ℕ, ◌+◌, ◌%◌, ◌^◌, ◌≤◌, ◌<◌, ◌≡◌, ◌∙◌, ◌⊎◌, ◌↔◌, true, List, [], ◌∷◌, arith, All,
}
use unnamed.Machine.{Boot, accessible, write}
use unnamed.Pma.{next_of, size_of}

abbrev pub Block : Type 0
Block = ℕ × ℕ

-- From the pointer `p` the headers lead through the blocks to null.
abbrev pub Chain : (ℕ → ℕ) → ℕ → List Block → Type 0
Chain m p [] = p ≡ 0
Chain m p ((a, s) ∷ bs) = (p ≡ a) × (m (size_of a) ≡ s) × Chain m (m (next_of a)) bs

-- A free block: 8-aligned, mapped, with room for its header, in the part of the direct map that has
-- physical addresses of 52 bits, and far enough from the end of the address space that rounding its
-- address up to a page does not wrap.
pub record IsBlock (b : Boot) (x : Block) : Type 0 where
  pub ne_null : 0 < x.0
  pub aligned : x.0 % 8 ≡ 0
  pub room : 16 ≤ x.1
  pub fits : x.0 + x.1 + 8192 ≤ 2 ^ 64
  pub above : b.memory_slide ≤ x.0
  pub below : x.0 + x.1 ≤ b.memory_slide + 2 ^ 52
  pub reach : (w : ℕ) → x.0 ≤ w → w < x.0 + x.1 → b.mapped w ≡ true

-- A word is not in the block.
abbrev pub Misses : ℕ → Block → Type 0
Misses w (a, s) = (w < a) ⊎ (a + s ≤ w)

abbrev pub Outside : ℕ → List Block → Type 0
Outside w = All (Misses w)

-- Two blocks share no word.
abbrev pub Apart : Block → Block → Type 0
Apart (a, s) (b, t) = (a + s ≤ b) ⊎ (b + t ≤ a)

abbrev pub Separate : List Block → Type 0
Separate [] = Unit
Separate (x ∷ xs) = All (Apart x) xs × Separate xs

-- All that is asked of a free list but its place in memory.
pub record AreBlocks (b : Boot) (bs : List Block) : Type 0 where
  pub each : All (IsBlock b) bs
  pub apart : Separate bs

-- The memories agree on the words of the block.
abbrev pub SameIn : (ℕ → ℕ) → (ℕ → ℕ) → Block → Type 0
SameIn m n (a, s) = (w : ℕ) → a ≤ w → w < a + s → n w ≡ m w

pub Outside-of_Apart :
    (w a s : ℕ) (bs : List Block) → All (Apart (a, s)) bs → a ≤ w → w < a + s → Outside w bs
Outside-of_Apart w a s [] h lo hi = tt
Outside-of_Apart w a s ((b, t) ∷ bs) h lo hi = (omega arith, Outside-of_Apart w a s bs h.1 lo hi)

pub Outside-of_Apart_one : (w : ℕ) (bs : List Block) → All (Apart (w, 1)) bs ↔ Outside w bs
Outside-of_Apart_one w [] = (λ h. h, λ h. h)
Outside-of_Apart_one w (x ∷ bs) = (
  λ h. (omega arith, (Outside-of_Apart_one w bs).0 h.1),
  λ h. (omega arith, (Outside-of_Apart_one w bs).1 h.1),
)

pub next_of-lt : (b : Boot) (a s : ℕ) → IsBlock b (a, s) → next_of a ≡ a + 8
next_of-lt b a s is = omega (arith, is.fits, is.room)

-- Memories that agree inside the blocks hold the same chain.
pub Chain-frame :
    (m n : ℕ → ℕ) (p : ℕ) (b : Boot) (bs : List Block)
    → All (IsBlock b) bs
    → All (SameIn m n) bs
    → Chain m p bs
    → Chain n p bs
Chain-frame m n p b [] is same c = c
Chain-frame m n p b ((a, s) ∷ bs) is same c =
    let e = next_of-lt b a s is.0 in
    let room = is.0.room in
    (
      c.0,
      same.0 a (omega arith) (omega arith) ∙ c.1,
      rw (same.0 (next_of a) (omega arith) (omega arith))
          (Chain-frame m n (m (next_of a)) b bs is.1 same.1 c.2),
    )

-- A write outside the blocks changes none of them.
pub SameIn-write :
    (m : ℕ → ℕ) (w v : ℕ) (bs : List Block) → Outside w bs → All (SameIn m (write m w v)) bs
SameIn-write m w v [] out = tt
SameIn-write m w v ((a, s) ∷ bs) out = (λ x lo hi. ground arith, SameIn-write m w v bs out.1)

pub SameIn-trans :
    (m n o : ℕ → ℕ) (bs : List Block)
    → All (SameIn m n) bs
    → All (SameIn n o) bs
    → All (SameIn m o) bs
SameIn-trans m n o [] p q = tt
SameIn-trans m n o (x ∷ bs) p q =
    (λ w lo hi. q.0 w lo hi ∙ p.0 w lo hi, SameIn-trans m n o bs p.1 q.1)

-- The words of a header can be reached.
module _ (b : Boot) (a s : ℕ) (is : IsBlock b (a, s)) where
  pub accessible_at : (w : ℕ) → a ≤ w → w < a + s → w % 8 ≡ 0 → accessible b w ≡ true
  accessible_at w lo hi e = ground (arith, is.reach w lo hi)

  pub size-accessible : accessible b (size_of a) ≡ true
  size-accessible = accessible_at a (omega arith) (omega (arith, is.room)) is.aligned

  pub next-accessible : accessible b (next_of a) ≡ true
  next-accessible =
      rw (next_of-lt b a s is)
        (accessible_at (a + 8) (omega arith) (omega (arith, is.room)) (omega (arith, is.aligned)))
