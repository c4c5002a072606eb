-- ===== src/Vma/Fit.antt =====
-- The visit of a node by `alloc_pages` in kernel/mm/vma.hpp: pages of it are taken, or it is passed.
use unnamed.Prelude.{
  ℕ, ◌+◌, ◌-◌, ◌%◌, ◌^◌, ◌≤◌, ◌<◌, ◌≡◌, refl, ap, sym, ◌∙◌, ◌⊎◌, inl, inr, Bool, true, false, List,
  [], ◌∷◌, ltb, leb, arith, ◌==◌, if◌then◌else◌, Bool-cases, ◌&&◌, length,
}
use native.Mathlib.Nat.{pow-le-pow_right}
use unnamed.Prelude.Bits.{pow-pos}
use unnamed.Prelude.Words.{add64, sub64}
use unnamed.Helpers
use unnamed.Helpers.Align.{IsRoundedUp, align_up-IsRoundedUp}
use unnamed.Run.{pure}
use unnamed.Run.Ensures.{Ensures, and_then-Ensures}
use unnamed.Vma.{Allocator, vaddr_from_page, align_up, split_node_left}
use unnamed.Vma.Calls.{Visit, found, skip, take, take_left, take_padded, visit}
use unnamed.Vma.Zipper.{Cell, IsZipper-step}
use unnamed.Vma.Link.{Tiles-le, ==-false, left_part, right_part}
use unnamed.Vma.Mark.{
  IsState, within, marked, with_flag, flagged-IsState, free_at-here, CutTo, split_node_left-CutTo,
}

-- `align_up` at a power of two, on page numbers.
pub align_up-Rounded :
    (k v : ℕ) → k < 64 → v + 2 ^ k ≤ 2 ^ 64 → IsRoundedUp k v (align_up v (2 ^ k))
unfolding align_up Helpers.align_up
align_up-Rounded k v h fits = elim (Bool-cases (leb (2 ^ k) 1)) [
  | inl one ↦
      let p = pow-pos k in
      let e : 2 ^ k ≡ 1 = ground arith in
      rw one
        (record { below = omega arith; close = omega (arith, e); multiple = rw e (omega arith) })
  | inr more ↦ rw more (align_up-IsRoundedUp k v h fits).0
]

pow-le_half : (k : ℕ) → k < 64 → 2 ^ k ≤ 2 ^ 63
pow-le_half k h = pow-le-pow_right (omega arith) {j = 63} (omega arith)

-- Pages of one free range were handed out.
pub record IsTakenAt (a0 : Allocator) (free : ℕ → Bool) (n k : ℕ) (vaddr : ℕ) (a' : Allocator)
    (page : ℕ) (left right : List Cell) (pos : ℕ) : Type 0 where
  pub state : IsState a0 (marked free page n false) a' left right pos
  pub address : vaddr ≡ vaddr_from_page a0 page
  pub multiple : page % 2 ^ k ≡ 0
  pub were_free : (q : ℕ) → within page n q ≡ true → free q ≡ true
  pub bounded : page + n ≤ a0.total_pages

-- The range has room for the pages behind its padding.
abbrev pub fits : (n align : ℕ) → Cell → Bool
fits n align c = c.is_free && leb (align_up c.start align - c.start + n) c.npages

abbrev pub TakenTo : Allocator → (ℕ → Bool) → (n k vaddr : ℕ) → Allocator → Type 0
TakenTo a0 free n k vaddr a' =
    (page : ℕ) × (left : List Cell) × (right : List Cell) × (pos : ℕ) × IsTakenAt a0 free n k vaddr
      a' page left right pos

-- The range does not fit, or there are too few nodes on the stack.
abbrev pub WhyNot : Allocator → (n k : ℕ) → Cell → Allocator → Type 0
WhyNot a n k c a' = (length a.free_stack < 2) ⊎ ((a' ≡ a) × (fits n (2 ^ k) c ≡ false))

-- The loop goes on behind the node `last`, before the same nodes as ever.
abbrev pub VisitTo :
    Allocator
    → (ℕ → Bool)
    → Allocator
    → (n k : ℕ) → (xs : List Cell) → (why : Allocator → Type 0) → Visit
    → Allocator
    → Type 0
VisitTo a0 free a n k xs why (found vaddr) a' = TakenTo a0 free n k vaddr a'
VisitTo a0 free a n k xs why (skip last) a' =
    (left : List Cell) × (c : Cell) × (pos : ℕ) × (c.ptr ≡ last)
    × IsState a0 free a' left (c ∷ xs) pos
    × why a'

module _ (a0 : Allocator) (free : ℕ → Bool) (n k : ℕ) (some_pages : 0 < n)
    (sized : a0.total_pages < 2 ^ 63) where
  module _ (a : Allocator) (left : List Cell) (c : Cell) (xs : List Cell) (pos : ℕ)
      (why : Allocator → Type 0) (s : IsState a0 free a left (c ∷ xs) pos)
      (is_free : c.is_free ≡ true) (multiple : c.start % 2 ^ k ≡ 0) where
    limit : a.total_pages ≡ a0.total_pages
    limit = ap (λ x. x.total_pages) s.kept

    bounded : pos + c.npages ≤ a0.total_pages
    bounded = rw (sym limit) (Tiles-le a.total_pages (pos + c.npages) xs s.zipper.tiles.2)

    take-VisitTo : c.npages ≡ n → Ensures (take c.ptr a) (VisitTo a0 free a n k xs why)
    unfolding take vaddr_from_page
    take-VisitTo exact =
        let at : (a.nodes c.ptr).start ≡ c.start = ap (λ x. x.start) s.zipper.ahead.0.holds in
        let same_base : a.base ≡ a0.base = ap (λ x. x.base) s.kept in
        (
          c.start,
          left,
          with_flag c false ∷ xs,
          pos,
          record {
            state = rw (sym exact) (flagged-IsState a0 free a left c xs pos s false);
            address = rw (at, same_base);
            multiple = multiple;
            were_free = λ q h.
                sym (s.same q) ∙ free_at-here a left c xs pos s.zipper q (rw exact h) ∙ is_free;
            bounded = omega (arith, exact, bounded, s.zipper.tiles.0);
          },
        )

  module _ (a : Allocator) (left : List Cell) (c : Cell) (xs : List Cell) (pos : ℕ)
      (why : Allocator → Type 0) (s : IsState a0 free a left (c ∷ xs) pos)
      (is_free : c.is_free ≡ true) (multiple : c.start % 2 ^ k ≡ 0) (room : n ≤ c.npages)
      (tight : a.free_stack ≡ [] → why a) where
    take_left-VisitTo : Ensures (take_left n c.ptr a) (VisitTo a0 free a n k xs why)
    unfolding take_left
    take_left-VisitTo =
        let npages : (a.nodes c.ptr).npages ≡ c.npages =
          ap (λ x. x.npages) s.zipper.ahead.0.holds in
        let limit : a.total_pages ≡ a0.total_pages = ap (λ x. x.total_pages) s.kept in
        rw npages (elim (Bool-cases (ltb n c.npages)) [
          | inl more ↦ rw more (
              and_then-Ensures (split_node_left c.ptr n a)
                (λ right. if right == c.ptr then pure (skip c.ptr) else take c.ptr)
                (CutTo a0 free a left c xs pos n) (VisitTo a0 free a n k xs why)
                (split_node_left-CutTo a0 free a left c xs pos s (omega (arith, limit)) n some_pages
                  (ground arith))
                (λ r a' post. elim post [
                  | inl (e, empty, same) ↦
                      let r_c : (r == c.ptr) ≡ true = ground arith in
                      rw (r_c, same) (left, c, pos, refl, s, tight empty)
                  | inr cut ↦ rw (==-false r c.ptr cut.ne) (
                      take-VisitTo a' left (left_part c n) (right_part c n r ∷ xs) pos why cut.state
                        is_free multiple refl)
                ]))
          | inr exact ↦
              rw exact (take-VisitTo a left c xs pos why s is_free multiple (ground arith))
        ])

  module _ (a : Allocator) (left : List Cell) (c : Cell) (xs : List Cell) (pos : ℕ)
      (s : IsState a0 free a left (c ∷ xs) pos) (exponent : k < 64) where
    module _ (is_free : c.is_free ≡ true) (padding : ℕ) (multiple : (c.start + padding) % 2 ^ k ≡ 0)
        (room : padding + n ≤ c.npages) where
      take_padded-VisitTo :
          Ensures (take_padded n c.ptr padding a) (VisitTo a0 free a n k xs (WhyNot a n k c))
      unfolding take_padded
      take_padded-VisitTo =
          let limit : a.total_pages ≡ a0.total_pages = ap (λ x. x.total_pages) s.kept in
          elim (Bool-cases (padding == 0)) [
            | inl none ↦
                let e : c.start + padding ≡ c.start = ground arith in
                rw none (
                  take_left-VisitTo a left c xs pos (WhyNot a n k c) s is_free (rw e at multiple)
                    (omega arith) (λ empty. inl (rw empty (omega arith))))
            | inr some_padding ↦ rw some_padding (
                and_then-Ensures (split_node_left c.ptr padding a)
                  (λ right. if right == c.ptr then pure (skip c.ptr) else take_left n right)
                  (CutTo a0 free a left c xs pos padding)
                  (VisitTo a0 free a n k xs (WhyNot a n k c))
                  (split_node_left-CutTo a0 free a left c xs pos s (omega (arith, limit)) padding
                    (ground arith) (omega arith))
                  (λ r a' post. elim post [
                    | inl (e, empty, same) ↦
                        let r_c : (r == c.ptr) ≡ true = ground arith in
                        rw (r_c, same) (left, c, pos, refl, s, inl (rw empty (omega arith)))
                    | inr cut ↦
                        let moved =
                          IsZipper-step a' (left_part c padding) left (right_part c padding r ∷ xs)
                            pos cut.state.zipper in
                        rw (==-false r c.ptr cut.ne) (
                          take_left-VisitTo a' (left_part c padding ∷ left) (right_part c padding r)
                            xs (pos + padding) (WhyNot a n k c)
                            (record {
                              zipper = moved;
                              pool = cut.state.pool;
                              kept = cut.state.kept;
                              same = cut.state.same;
                            })
                            is_free multiple (omega arith)
                            (λ empty. inl (omega (arith, cut.one_less, ap length empty))))
                  ]))
          ]

    skip_here : fits n (2 ^ k) c ≡ false → VisitTo a0 free a n k xs (WhyNot a n k c) (skip c.ptr) a
    skip_here unfit = (left, c, pos, refl, s, inr (refl, unfit))

    -- A visit takes pages of the range, or leads on to the nodes behind it.
    pub visit-VisitTo :
        Ensures (visit n (2 ^ k) c.ptr a) (VisitTo a0 free a n k xs (WhyNot a n k c))
    unfolding visit
    visit-VisitTo =
        let limit : a.total_pages ≡ a0.total_pages = ap (λ x. x.total_pages) s.kept in
        let bounded = Tiles-le a.total_pages (pos + c.npages) xs s.zipper.tiles.2 in
        let at = s.zipper.tiles.0 in
        let half = pow-le_half k exponent in
        let up = align_up-Rounded k c.start exponent (omega arith) in
        let node = s.zipper.ahead.0.holds in
        let start : (a.nodes c.ptr).start ≡ c.start = ap (λ x. x.start) node in
        let npages : (a.nodes c.ptr).npages ≡ c.npages = ap (λ x. x.npages) node in
        let padding : sub64 (align_up c.start (2 ^ k)) c.start
            ≡ align_up c.start (2 ^ k) - c.start =
          omega (arith, up.below, up.close) in
        let reached : c.start + (align_up c.start (2 ^ k) - c.start) ≡ align_up c.start (2 ^ k) =
          omega (arith, up.below) in
        rw (start, npages, padding)
          (elim (Bool-cases c.is_free) [
            | inr used ↦
                let e : (a.nodes c.ptr).is_free ≡ false = ap (λ x. x.is_free) node ∙ used in
                rw e (
                  skip_here
                    (ap (λ b. b && leb (align_up c.start (2 ^ k) - c.start + n) c.npages) used))
            | inl is_free ↦
                let e : (a.nodes c.ptr).is_free ≡ true = ap (λ x. x.is_free) node ∙ is_free in
                rw e (elim (Bool-cases (leb n c.npages)) [
                  | inr less ↦ rw less (skip_here (ground arith))
                  | inl enough ↦
                      let n_le : n ≤ c.npages = ground arith in
                      let sum : add64 (align_up c.start (2 ^ k) - c.start) n
                          ≡ align_up c.start (2 ^ k) - c.start + n =
                        omega (arith, up.close) in
                      rw (enough, sum)
                        (elim (Bool-cases (leb (align_up c.start (2 ^ k) - c.start + n) c.npages)) [
                          | inr less ↦ rw less (skip_here (ground arith))
                          | inl room ↦ rw room (
                              take_padded-VisitTo is_free (align_up c.start (2 ^ k) - c.start)
                                (rw reached up.multiple) (ground arith))
                        ])
                ])
          ])
