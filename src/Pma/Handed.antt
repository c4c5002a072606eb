-- ===== src/Pma/Handed.antt =====
-- What first fit hands out: pages that were free, are on no block that is left, and leave a free
-- list in order.
use mathlib.Core.Path.{subst}
use unnamed.Prelude.{
  ℕ, ◌+◌, ◌-◌, ◌%◌, ◌≤◌, ◌<◌, ◌≡◌, inl, inr, Option, none, some, List, [], ◌∷◌, arith, length, All,
  leb, ltb, ltb→lt, leb→le, Bool-cases,
}
use unnamed.Machine.{Boot}
use unnamed.Pma.Blocks.{Block, Apart, IsBlock, AreBlocks}
use unnamed.Pma.FirstFit.{page_above, needed, remainder, keep, first_fit}

-- Whatever shares no word with the blocks `bs` shares none with `left`.
abbrev pub Covers : List Block → List Block → Type 0
Covers bs left = (x : Block) → All (Apart x) bs → All (Apart x) left

pub record Handed (b : Boot) (bs : List Block) (size p : ℕ) (left : List Block) : Type 0 where
  -- page-aligned pages of the direct map, and not those at physical address 0
  pub aligned : p % 4096 ≡ 0
  pub above : b.memory_slide < p
  pub place : 0 < size → IsBlock b (p, size)
  -- no block that is left shares a word with the pages
  pub fresh : All (Apart (p, size)) left
  -- the pages were free, and so is all that is left
  pub was_free : (x : Block) → All (Apart x) bs → Apart x (p, size)
  pub covered : Covers bs left
  pub blocks : AreBlocks b left
  pub shorter : length left ≤ length bs

abbrev Serves : Boot → List Block → (size : ℕ) → Option (ℕ × List Block) → Type 0
Serves b bs size none = Unit
Serves b bs size (some (p, left)) = Handed b bs size p left

-- A part of a block is apart from whatever the block is apart from.
Apart-part :
    (a s a' s' : ℕ) (bs : List Block)
    → a ≤ a'
    → a' + s' ≤ a + s
    → All (Apart (a, s)) bs
    → All (Apart (a', s')) bs
Apart-part a s a' s' [] lo hi h = tt
Apart-part a s a' s' (y ∷ bs) lo hi h = (omega arith, Apart-part a s a' s' bs lo hi h.1)

module _ (b : Boot) (size : ℕ) (whole : size % 4096 ≡ 0) where
  record Rest (x : Block) (bs : List Block) (p : ℕ) (left : List Block) : Type 0 where
    fresh : All (Apart (p, size)) left
    covered : Covers (x ∷ bs) left
    blocks : AreBlocks b left
    shorter : length left ≤ length bs + 1

  Rest-unlink :
      (a s : ℕ) (bs : List Block)
      → AreBlocks b ((a, s) ∷ bs)
      → needed size a ≤ s
      → Rest (a, s) bs (page_above a) bs
  Rest-unlink a s bs is fit = record {
    fresh = Apart-part a s (page_above a) size bs (omega arith) (omega arith) is.apart.0;
    covered = λ x o. o.1;
    blocks = record { each = is.each.1; apart = is.apart.1 };
    shorter = omega arith;
  }

  Rest-split :
      (a s : ℕ) (bs : List Block)
      → AreBlocks b ((a, s) ∷ bs)
      → needed size a + 16 < s
      → Rest (a, s) bs (page_above a) ((a + needed size a, s - needed size a) ∷ bs)
  Rest-split a s bs is fit =
      let x = is.each.0 in
      record {
        fresh = (
          omega arith,
          Apart-part a s (page_above a) size bs (omega arith) (omega arith) is.apart.0,
        );
        covered = λ y o. (omega arith, o.1);
        blocks = record {
          each = (
            record {
              ne_null = omega (arith, x.ne_null);
              aligned = omega (arith, x.aligned);
              room = omega arith;
              fits = omega (arith, x.fits);
              above = omega (arith, x.above);
              below = omega (arith, x.below);
              reach = λ w lo hi. x.reach w (omega arith) (omega arith);
            },
            is.each.1,
          );
          apart = (Apart-part a s _ _ bs (omega arith) (omega arith) is.apart.0, is.apart.1);
        };
        shorter = omega arith;
      }

  Handed-head :
      (a s : ℕ) (bs : List Block)
      → AreBlocks b ((a, s) ∷ bs)
      → needed size a ≤ s
      → Handed b ((a, s) ∷ bs) size (page_above a) (remainder size (a, s) bs)
  Handed-head a s bs is fit = record {
    aligned = omega arith;
    above = omega (arith, is.each.0.above);
    place = λ pos.
        let x = is.each.0 in
        record {
          ne_null = omega arith;
          aligned = omega arith;
          room = omega arith;
          fits = omega (arith, x.fits);
          above = omega (arith, x.above);
          below = omega (arith, x.below);
          reach = λ w lo hi. x.reach w (omega arith) (omega arith);
        };
    fresh = rest.fresh;
    was_free = λ x o. omega arith;
    covered = rest.covered;
    blocks = rest.blocks;
    shorter = omega (arith, rest.shorter);
  }
    where
      rest : Rest (a, s) bs (page_above a) (remainder size (a, s) bs)
      rest = elim (Bool-cases (ltb (needed size a + 16) s)) [
        | inl big ↦ rw big (Rest-split a s bs is (ltb→lt _ _ big))
        | inr tight ↦ rw tight (Rest-unlink a s bs is fit)
      ]

  Handed-keep :
      (a s p : ℕ) (bs left : List Block)
      → AreBlocks b ((a, s) ∷ bs)
      → Handed b bs size p left
      → Handed b ((a, s) ∷ bs) size p ((a, s) ∷ left)
  Handed-keep a s p bs left is h = record {
    aligned = h.aligned;
    above = h.above;
    place = h.place;
    fresh = (let o = h.was_free (a, s) is.apart.0 in omega arith, h.fresh);
    was_free = λ x o. h.was_free x o.1;
    covered = λ x o. (o.0, h.covered x o.1);
    blocks = record {
      each = (is.each.0, h.blocks.each);
      apart = (h.covered (a, s) is.apart.0, h.blocks.apart);
    };
    shorter = omega (arith, h.shorter);
  }

  Serves-keep :
      (a s : ℕ) (bs : List Block) (o : Option (ℕ × List Block))
      → AreBlocks b ((a, s) ∷ bs)
      → Serves b bs size o
      → Serves b ((a, s) ∷ bs) size (keep (a, s) o)
  Serves-keep a s bs none is h = tt
  Serves-keep a s bs (some (p, left)) is h = Handed-keep a s p bs left is h

  Handed-first_fit_cases : (bs : List Block) → AreBlocks b bs → Serves b bs size (first_fit size bs)
  unfolding first_fit
  Handed-first_fit_cases [] is = tt
  Handed-first_fit_cases ((a, s) ∷ bs) is = elim (Bool-cases (leb (needed size a) s)) [
    | inl fit ↦ rw fit (Handed-head a s bs is (leb→le _ _ fit))
    | inr more ↦ rw more (
        Serves-keep a s bs (first_fit size bs) is
          (Handed-first_fit_cases bs (record { each = is.each.1; apart = is.apart.1 })))
  ]

  -- A request that first fit serves is served by free pages, on a page boundary, that are on none
  -- of the blocks left; these are in order, and no word is on them that was not free.
  pub first_fit-Handed :
      (bs : List Block) (p : ℕ) (left : List Block)
      → AreBlocks b bs
      → first_fit size bs ≡ some (p, left)
      → Handed b bs size p left
  first_fit-Handed bs p left is e = subst (Serves b bs size) e (Handed-first_fit_cases bs is)
