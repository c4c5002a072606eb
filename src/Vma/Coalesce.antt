-- ===== src/Vma/Coalesce.antt =====
-- `coalesce` of kernel/mm/vma.hpp: a free range is merged with free neighbours, and the same pages
-- are free as before.
use unnamed.Prelude.{
  ℕ, ◌+◌, ◌^◌, ◌<◌, ◌≡◌, refl, ap, sym, ◌∙◌, inl, inr, true, false, List, [], ◌∷◌, arith, ◌==◌,
  Bool-cases,
}
use unnamed.Run.{ok}
use unnamed.Run.Ensures.{Ensures, Ensures-mono, and_then-Ensures}
use unnamed.Vma.{Allocator, absorb, merge_previous, merge_next, coalesce}
use unnamed.Vma.Zipper.{Cell, TilesBack, IsZipper, IsZipper-back, zip, free_at, free_at-zip}
use unnamed.Vma.Pool.{IsPool}
use unnamed.Vma.Split.{Kept, Kept-trans}
use unnamed.Vma.Takeover.{joined}
use unnamed.Vma.Absorb.{IsJoined, absorb-IsJoined}

-- Two free neighbours are as free as one range of their pages.
joined_free :
    (c d : Cell) (xs : List Cell) (page : ℕ)
    → c.is_free ≡ true
    → d.is_free ≡ true
    → d.start ≡ c.start + c.npages
    → free_at (joined c d ∷ xs) page ≡ free_at (c ∷ d ∷ xs) page
joined_free c d xs page fc fd at = ground arith

-- The same pages are free, at some place of the list.
pub record IsMerged (a : Allocator) (left right : List Cell) (a' : Allocator)
    (left' right' : List Cell) (pos : ℕ) : Type 0 where
  pub zipper : IsZipper a' left' right' pos
  pub pool : IsPool a'
  pub kept : Kept a a'
  pub same : (page : ℕ) → free_at (zip left' right') page ≡ free_at (zip left right) page

-- The pages are as free as before if they are as free ahead, from the place on.
pub zip_same :
    (left right right' : List Cell) (pos page : ℕ)
    → TilesBack pos left
    → free_at right' page ≡ free_at right page
    → free_at (zip left right') page ≡ free_at (zip left right) page
zip_same left right right' pos page t same =
    free_at-zip left right' pos page t ∙ rw same (sym (free_at-zip left right pos page t))

abbrev pub MergedNext :
    Allocator → (left : List Cell) → Cell → List Cell → (pos : ℕ) → Unit {0} → Allocator → Type 0
MergedNext a left c xs pos u a' = (right : List Cell) × IsMerged a left (c ∷ xs) a' left right pos

module _ (a : Allocator) (left : List Cell) (c : Cell) (pos : ℕ) (pool : IsPool a)
    (sized : a.total_pages < 2 ^ 64) (free : c.is_free ≡ true) where
  merge_next-Merged :
      (xs : List Cell)
      → IsZipper a left (c ∷ xs) pos
      → Ensures (merge_next c.ptr a) (MergedNext a left c xs pos)
  unfolding merge_next
  merge_next-Merged [] z =
      let none_next : ((a.nodes c.ptr).next == 0) ≡ true = rw (ap (λ x. x.next) z.ahead.0.holds) in
      rw none_next (c ∷ [], record { zipper = z; pool = pool; kept = refl; same = λ page. refl })
  merge_next-Merged (d ∷ xs) z =
      let next : (a.nodes c.ptr).next ≡ d.ptr = ap (λ x. x.next) z.ahead.0.holds in
      let some_next : (d.ptr == 0) ≡ false = ground (arith, z.ahead.1.0.ne_null) in
      let is_free : (a.nodes d.ptr).is_free ≡ d.is_free = ap (λ x. x.is_free) z.ahead.1.0.holds in
      elim (Bool-cases d.is_free) [
        | inl fd ↦
            let yes_free : (a.nodes d.ptr).is_free ≡ true = is_free ∙ fd in
            rw (next, some_next, yes_free)
              (Ensures-mono (absorb c.ptr d.ptr a) (IsJoined a left c d xs pos)
                (MergedNext a left c (d ∷ xs) pos)
                (λ u a' j. (
                  joined c d ∷ xs,
                  record {
                    zipper = j.zipper;
                    pool = j.pool;
                    kept = j.kept;
                    same = λ page.
                        zip_same left (c ∷ d ∷ xs) (joined c d ∷ xs) pos page z.tiles_back
                          (joined_free c d xs page free fd (rw z.tiles.0 z.tiles.2.0));
                  },
                ))
                (absorb-IsJoined a left c d xs pos z pool sized))
        | inr used ↦
            let not_free : (a.nodes d.ptr).is_free ≡ false = is_free ∙ used in
            rw (next, some_next, not_free)
              (c ∷ d ∷ xs, record { zipper = z; pool = pool; kept = refl; same = λ page. refl })
      ]

-- The place, the range there that is free, and what is ahead of it.
abbrev pub MergedPrevious :
    Allocator → (left : List Cell) → Cell → List Cell → (p : ℕ) → Allocator → Type 0
MergedPrevious a left c xs p a' =
    (left' : List Cell) × (c' : Cell) × (pos' : ℕ) × (c'.ptr ≡ p)
    × (c'.is_free ≡ true)
    × IsMerged a left (c ∷ xs) a' left' (c' ∷ xs) pos'

abbrev pub MergedTo : Allocator → (left right : List Cell) → Unit {0} → Allocator → Type 0
MergedTo a left right u a' =
    (left' : List Cell) × (right' : List Cell) × (pos' : ℕ) × IsMerged a left right a' left' right'
      pos'

module _ (a : Allocator) (c : Cell) (xs : List Cell) (pos : ℕ) (pool : IsPool a)
    (sized : a.total_pages < 2 ^ 64) (free : c.is_free ≡ true) where
  merge_previous-Merged :
      (left : List Cell)
      → IsZipper a left (c ∷ xs) pos
      → Ensures (merge_previous c.ptr a) (MergedPrevious a left c xs)
  unfolding merge_previous
  merge_previous-Merged [] z =
      let none_prev : ((a.nodes c.ptr).prev == 0) ≡ true = rw (ap (λ x. x.prev) z.ahead.0.holds) in
      rw none_prev (
        [],
        c,
        pos,
        refl,
        free,
        record { zipper = z; pool = pool; kept = refl; same = λ page. refl },
      )
  merge_previous-Merged (b ∷ left) z =
      let prev : (a.nodes c.ptr).prev ≡ b.ptr = ap (λ x. x.prev) z.ahead.0.holds in
      let some_prev : (b.ptr == 0) ≡ false = ground (arith, z.behind.0.ne_null) in
      let is_free : (a.nodes b.ptr).is_free ≡ b.is_free = ap (λ x. x.is_free) z.behind.0.holds in
      elim (Bool-cases b.is_free) [
        | inl fb ↦
            let yes_free : (a.nodes b.ptr).is_free ≡ true = is_free ∙ fb in
            let zb = IsZipper-back a b left (c ∷ xs) pos z in
            rw (prev, some_prev, yes_free)
              (and_then-Ensures (absorb b.ptr c.ptr a) (λ _. ok b.ptr)
                (IsJoined a left b c xs b.start) (MergedPrevious a (b ∷ left) c xs)
                (absorb-IsJoined a left b c xs b.start zb pool sized)
                (λ u a' j. (
                  left,
                  joined b c,
                  b.start,
                  refl,
                  fb,
                  record {
                    zipper = j.zipper;
                    pool = j.pool;
                    kept = j.kept;
                    same = λ page.
                        zip_same left (b ∷ c ∷ xs) (joined b c ∷ xs) b.start page zb.tiles_back
                          (joined_free b c xs page fb free zb.tiles.2.0);
                  },
                )))
        | inr used ↦
            let not_free : (a.nodes b.ptr).is_free ≡ false = is_free ∙ used in
            rw (prev, some_prev, not_free)
              (
                b ∷ left,
                c,
                pos,
                refl,
                free,
                record { zipper = z; pool = pool; kept = refl; same = λ page. refl },
              )
      ]

  -- After `coalesce` the same pages are free.
  pub coalesce-Merged :
      (left : List Cell)
      → IsZipper a left (c ∷ xs) pos
      → Ensures (coalesce c.ptr a) (MergedTo a left (c ∷ xs))
  unfolding coalesce
  coalesce-Merged left z =
      let some_node : (c.ptr == 0) ≡ false = ground (arith, z.ahead.0.ne_null) in
      rw some_node (
        and_then-Ensures (merge_previous c.ptr a) merge_next (MergedPrevious a left c xs)
          (MergedTo a left (c ∷ xs)) (merge_previous-Merged left z)
          (λ p a' (left', c', pos', at, fc, m).
            let limit : a'.total_pages ≡ a.total_pages = ap (λ x. x.total_pages) m.kept in
            rw (sym at) (
              Ensures-mono (merge_next c'.ptr a') (MergedNext a' left' c' xs pos')
                (MergedTo a left (c ∷ xs))
                (λ u a'' (right, m'). (
                  left',
                  right,
                  pos',
                  record {
                    zipper = m'.zipper;
                    pool = m'.pool;
                    kept = Kept-trans a a' a'' m.kept m'.kept;
                    same = λ page. m'.same page ∙ m.same page;
                  },
                ))
                (merge_next-Merged a' left' c' pos' m.pool (rw limit sized) fc xs m.zipper))))
