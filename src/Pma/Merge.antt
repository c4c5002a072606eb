-- ===== src/Pma/Merge.antt =====
-- The specification of `coalesce`: a block takes in the later blocks that begin where it ends.
use native.Mathlib.Decide.{dec_lt}
use unnamed.Prelude.{
  ℕ, zero, suc, ◌+◌, ◌≤◌, ◌<◌, ◌≡◌, refl, inl, inr, true, false, List, [], ◌∷◌, arith, length, All,
  ◌==◌, ==_iff, Bool-cases, ◌↔◌,
}
use unnamed.Machine.{Boot}
use unnamed.Pma.Blocks.{Block, Apart, IsBlock, AreBlocks}

-- The new size of the block at `a`, and the blocks that it has not taken in.
unfoldable pub absorb : (a s : ℕ) → List Block → ℕ × List Block
absorb a s [] = (s, [])
absorb a s ((b, t) ∷ xs) = elim (a + s == b) [
  | true ↦ absorb a (s + t) xs
  | false ↦ let (s', ys) = absorb a s xs in (s', (b, t) ∷ ys)
]

-- Each block of the list in turn; a list of `n` blocks takes `n` rounds.
unfoldable pub merge_from : (rounds : ℕ) → List Block → List Block
merge_from zero bs = bs
merge_from (suc n) [] = []
merge_from (suc n) ((a, s) ∷ xs) = (a, (absorb a s xs).0) ∷ merge_from n (absorb a s xs).1

unfoldable pub merge : List Block → List Block
unfolding merge_from absorb
merge bs = merge_from (length bs) bs

pub absorb_hit :
    (a s b t : ℕ) (xs : List Block)
    → (a + s == b) ≡ true
    → absorb a s ((b, t) ∷ xs) ≡ absorb a (s + t) xs
unfolding absorb
absorb_hit a s b t xs e = rw (e, absorb)

pub absorb_miss :
    (a s b t : ℕ) (xs : List Block)
    → (a + s == b) ≡ false
    → absorb a s ((b, t) ∷ xs) ≡ ((absorb a s xs).0, (b, t) ∷ (absorb a s xs).1)
unfolding absorb
absorb_miss a s b t xs e = rw (e, absorb)

-- The bytes on the list.
abbrev pub total : List Block → ℕ
total [] = 0
total ((a, s) ∷ bs) = s + total bs

-- No byte is lost or made up.
pub total-absorb :
    (a s : ℕ) (xs : List Block) → (absorb a s xs).0 + total (absorb a s xs).1 ≡ s + total xs
unfolding absorb
total-absorb a s [] = refl
total-absorb a s ((b, t) ∷ xs) = elim (Bool-cases (a + s == b)) [
  | inl e ↦ rw (absorb_hit a s b t xs e) (omega (arith, total-absorb a (s + t) xs))
  | inr e ↦ rw (absorb_miss a s b t xs e) (omega (arith, total-absorb a s xs))
]

pub total-merge_from : (n : ℕ) (bs : List Block) → total (merge_from n bs) ≡ total bs
unfolding merge_from
total-merge_from zero bs = refl
total-merge_from (suc n) [] = refl
total-merge_from (suc n) ((a, s) ∷ xs) =
    omega (arith, total-absorb a s xs, total-merge_from n (absorb a s xs).1)

Apart-union :
    (b : Boot) (a s c t : ℕ) (xs : List Block)
    → a + s ≡ c
    → All (IsBlock b) xs
    → All (Apart (a, s)) xs
    → All (Apart (c, t)) xs
    → All (Apart (a, s + t)) xs
Apart-union b a s c t [] e is p q = tt
Apart-union b a s c t (x ∷ xs) e is p q =
    (omega (arith, is.0.room), Apart-union b a s c t xs e is.1 p.1 q.1)

-- The blocks keep in order, and what is apart from the old ones is apart from the new ones, and
-- the other way round.
pub record Absorbed (b : Boot) (old new : List Block) : Type 0 where
  pub blocks : AreBlocks b new
  pub apart : (x : Block) → 0 < x.1 → All (Apart x) old ↔ All (Apart x) new
  pub shorter : length new ≤ length old

Absorbed-trans :
    (b : Boot) (old mid new : List Block)
    → Absorbed b old mid
    → Absorbed b mid new
    → Absorbed b old new
Absorbed-trans b old mid new p q = record {
  blocks = q.blocks;
  apart = λ x pos.
      (λ h. (q.apart x pos).0 ((p.apart x pos).0 h), λ h. (p.apart x pos).1 ((q.apart x pos).1 h));
  shorter = omega (arith, p.shorter, q.shorter);
}

-- Two blocks that meet, the first in front, are one.
pub Absorbed-meet :
    (b : Boot) (a s c t : ℕ) (xs : List Block)
    → AreBlocks b ((a, s) ∷ (c, t) ∷ xs)
    → a + s ≡ c
    → Absorbed b ((a, s) ∷ (c, t) ∷ xs) ((a, s + t) ∷ xs)
Absorbed-meet b a s c t xs is e = record {
  blocks = record {
    each = (
      record {
        ne_null = omega (arith, x.ne_null);
        aligned = x.aligned;
        room = omega (arith, x.room);
        fits = omega (arith, y.fits);
        above = x.above;
        below = omega (arith, y.below);
        reach = λ w lo hi. elim (dec_lt w c) [
          | yes p ↦ x.reach w lo (omega arith)
          | no p ↦ y.reach w (omega arith) (omega arith)
        ];
      },
      is.each.1.1,
    );
    apart = (Apart-union b a s c t xs e is.each.1.1 is.apart.0.1 is.apart.1.0, is.apart.1.1);
  };
  apart = λ z pos. (λ h. (omega arith, h.1.1), λ h. (omega arith, (omega arith, h.1)));
  shorter = omega arith;
}
  where
    x : IsBlock b (a, s)
    x = is.each.0

    y : IsBlock b (c, t)
    y = is.each.1.0

-- A block in front that the later blocks do not change.
Absorbed-behind :
    (b : Boot) (a s : ℕ) (old new : List Block)
    → AreBlocks b ((a, s) ∷ old)
    → Absorbed b old new
    → Absorbed b ((a, s) ∷ old) ((a, s) ∷ new)
Absorbed-behind b a s old new is h =
    let room = is.each.0.room in
    record {
      blocks = record {
        each = (is.each.0, h.blocks.each);
        apart = ((h.apart (a, s) (omega arith)).0 is.apart.0, h.blocks.apart);
      };
      apart = λ x pos. (λ o. (o.0, (h.apart x pos).0 o.1), λ o. (o.0, (h.apart x pos).1 o.1));
      shorter = omega (arith, h.shorter);
    }

Absorbed-skip :
    (b : Boot) (a s c t s' : ℕ) (xs ys : List Block)
    → AreBlocks b ((a, s) ∷ (c, t) ∷ xs)
    → Absorbed b ((a, s) ∷ xs) ((a, s') ∷ ys)
    → Absorbed b ((a, s) ∷ (c, t) ∷ xs) ((a, s') ∷ (c, t) ∷ ys)
Absorbed-skip b a s c t s' xs ys is h =
    let both = (h.apart (c, t) (omega (arith, is.each.1.0.room))).0 (omega arith, is.apart.1.0) in
    record {
      blocks = record {
        each = (h.blocks.each.0, (is.each.1.0, h.blocks.each.1));
        apart = ((omega (arith, both.0), h.blocks.apart.0), (both.1, h.blocks.apart.1));
      };
      apart = λ x pos. (
        λ o. let n = (h.apart x pos).0 (o.0, o.1.1) in (n.0, (o.1.0, n.1)),
        λ o. let n = (h.apart x pos).1 (o.0, o.1.1) in (n.0, (o.1.0, n.1)),
      );
      shorter = omega (arith, h.shorter);
    }

pub Absorbed-absorb :
    (b : Boot) (a s : ℕ) (xs : List Block)
    → AreBlocks b ((a, s) ∷ xs)
    → Absorbed b ((a, s) ∷ xs) ((a, (absorb a s xs).0) ∷ (absorb a s xs).1)
unfolding absorb
Absorbed-absorb b a s [] is = record {
  blocks = is;
  apart = λ x _. (λ h. h, λ h. h);
  shorter = omega arith;
}
Absorbed-absorb b a s ((c, t) ∷ xs) is = elim (Bool-cases (a + s == c)) [
  | inl e ↦
      let meet = Absorbed-meet b a s c t xs is ((==_iff _ _).0 e) in
      rw (absorb_hit a s c t xs e)
        (Absorbed-trans b _ ((a, s + t) ∷ xs) _ meet (Absorbed-absorb b a (s + t) xs meet.blocks))
  | inr e ↦ rw (absorb_miss a s c t xs e) (
      Absorbed-skip b a s c t _ xs _ is (
        Absorbed-absorb b a s xs
          (record { each = (is.each.0, is.each.1.1); apart = (is.apart.0.1, is.apart.1.1) })))
]

pub Absorbed-merge_from :
    (b : Boot) (n : ℕ) (bs : List Block) → AreBlocks b bs → Absorbed b bs (merge_from n bs)
unfolding merge_from
Absorbed-merge_from b zero bs is = record {
  blocks = is;
  apart = λ x _. (λ h. h, λ h. h);
  shorter = omega arith;
}
Absorbed-merge_from b (suc n) [] is = record {
  blocks = is;
  apart = λ x _. (λ h. h, λ h. h);
  shorter = omega arith;
}
Absorbed-merge_from b (suc n) ((a, s) ∷ xs) is =
    let first = Absorbed-absorb b a s xs is in
    let each = first.blocks.each in
    let apart = first.blocks.apart in
    Absorbed-trans b _ _ _ first (
      Absorbed-behind b a _ _ _ first.blocks
        (Absorbed-merge_from b n (absorb a s xs).1 (record { each = each.1; apart = apart.1 })))

-- `merge` keeps a list in order: what is apart from the old blocks is apart from the new ones, and
-- the other way round, and there are no more of them.
pub Absorbed-merge : (b : Boot) (bs : List Block) → AreBlocks b bs → Absorbed b bs (merge bs)
unfolding merge
Absorbed-merge b bs is = Absorbed-merge_from b (length bs) bs is

-- `merge` keeps the number of bytes.
pub total-merge : (bs : List Block) → total (merge bs) ≡ total bs
unfolding merge
total-merge bs = total-merge_from (length bs) bs
