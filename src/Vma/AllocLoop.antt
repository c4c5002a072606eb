-- ===== src/Vma/AllocLoop.antt =====
-- The loop of `alloc_pages` in kernel/mm/vma.hpp, from any place of the list.
use unnamed.Prelude.{
  ℕ, zero, suc, ◌+◌, ◌^◌, ◌<◌, ◌≡◌, ap, sym, ◌∙◌, ◌⊎◌, inl, inr, Bool, false, Option, none, some,
  List, [], ◌∷◌, arith, ◌==◌, length, All,
}
use unnamed.Run.{Action, pure}
use unnamed.Run.Ensures.{Ensures, Ensures-mono, and_then-Ensures}
use unnamed.Vma.{Allocator}
use unnamed.Vma.Calls.{Visit, found, skip, visit, alloc_loop}
use unnamed.Vma.Zipper.{Cell, first, IsZipper-step}
use unnamed.Vma.Mark.{IsState}
use unnamed.Vma.Fit.{TakenTo, fits, WhyNot, VisitTo, visit-VisitTo}

module _ (a0 : Allocator) (free : ℕ → Bool) (n k : ℕ) (some_pages : 0 < n)
    (sized : a0.total_pages < 2 ^ 63) (exponent : k < 64) where
  -- No range from here on fits, or there were too few nodes on the stack.
  abbrev NoneFits : List Cell → Allocator → Type 0
  NoneFits xs a' = (length a0.free_stack < 2) ⊎ ((a' ≡ a0) × All (λ c. fits n (2 ^ k) c ≡ false) xs)

  abbrev pub LoopTo : List Cell → Option ℕ → Allocator → Type 0
  LoopTo xs (some vaddr) a' = TakenTo a0 free n k vaddr a'
  LoopTo xs none a' =
      (left : List Cell) × (right : List Cell) × (pos : ℕ) × IsState a0 free a' left right pos
      × NoneFits xs a'

  abbrev History : Allocator → Type 0
  History a = (length a0.free_stack < 2) ⊎ (a ≡ a0)

  why_not :
      (a a' : Allocator) (c : Cell)
      → History a
      → WhyNot a n k c a'
      → (length a0.free_stack < 2) ⊎ ((a' ≡ a0) × (fits n (2 ^ k) c ≡ false))
  why_not a a' c (inl short) w = inl short
  why_not a a' c (inr same) (inl short) = inl (rw (ap (λ x. x.free_stack) same) at short)
  why_not a a' c (inr same) (inr (e, unfit)) = inr (e ∙ same, unfit)

  longer :
      (c : Cell) (xs : List Cell)
      → (length a0.free_stack < 2) ⊎ (fits n (2 ^ k) c ≡ false)
      → (result : Option ℕ) (a'' : Allocator) → LoopTo xs result a''
      → LoopTo (c ∷ xs) result a''
  longer c xs w (some vaddr) a'' l = l
  longer c xs (inl short) none a'' (left, right, pos, s, none_fits) =
      (left, right, pos, s, inl short)
  longer c xs (inr unfit) none a'' (left, right, pos, s, inl short) =
      (left, right, pos, s, inl short)
  longer c xs (inr unfit) none a'' (left, right, pos, s, inr (e, all)) =
      (left, right, pos, s, inr (e, (unfit, all)))

  abbrev go_on : (fuel : ℕ) → Visit → Action Allocator (Option ℕ)
  go_on fuel v = elim v [
    | found vaddr ↦ pure (some vaddr)
    | skip last ↦ (λ a'. alloc_loop fuel n (2 ^ k) (a'.nodes last).next a')
  ]

  pub alloc_loop-LoopTo :
      (xs : List Cell) (fuel : ℕ)
      → length xs < fuel
      → (a : Allocator) (left : List Cell) (pos : ℕ) → IsState a0 free a left xs pos
      → History a
      → Ensures (alloc_loop fuel n (2 ^ k) (first xs) a) (LoopTo xs)
  unfolding alloc_loop
  alloc_loop-LoopTo xs zero less = λ a left pos s h. absurd (omega arith)
  alloc_loop-LoopTo [] (suc fuel) less = λ a left pos s h.
      (left, [], pos, s, elim h [ inl short ↦ inl short | inr same ↦ inr (same, tt) ])
  alloc_loop-LoopTo (c ∷ xs) (suc fuel) less =
      let ih = alloc_loop-LoopTo xs fuel (omega arith) in
      λ a left pos s h.
        let some_node : (c.ptr == 0) ≡ false = ground (arith, s.zipper.ahead.0.ne_null) in
        rw some_node (
          and_then-Ensures (visit n (2 ^ k) c.ptr a) (go_on fuel)
            (VisitTo a0 free a n k xs (WhyNot a n k c)) (LoopTo (c ∷ xs))
            (visit-VisitTo a0 free n k some_pages sized a left c xs pos s exponent)
            (λ v a'.
              elim v
                as (λ v.
                  VisitTo a0 free a n k xs (WhyNot a n k c) v a'
                  → Ensures (go_on fuel v a') (LoopTo (c ∷ xs))) [
                    | found vaddr ↦ λ taken. taken
                    | skip last ↦ λ (left', c', pos', at, s', why).
                        let next : (a'.nodes last).next ≡ first xs =
                          rw (sym at) (ap (λ x. x.next) s'.zipper.ahead.0.holds) in
                        let moved : IsState a0 free a' (c' ∷ left') xs (pos' + c'.npages) = record {
                          zipper = IsZipper-step a' c' left' xs pos' s'.zipper;
                          pool = s'.pool;
                          kept = s'.kept;
                          same = s'.same;
                        } in
                        let reason = why_not a a' c h why in
                        rw next (
                          Ensures-mono (alloc_loop fuel n (2 ^ k) (first xs) a') (LoopTo xs)
                            (LoopTo (c ∷ xs))
                            (longer c xs
                              (elim reason [ inl short ↦ inl short | inr (e, unfit) ↦ inr unfit ]))
                            (ih a' (c' ∷ left') (pos' + c'.npages) moved
                              (elim reason [ inl short ↦ inl short | inr (e, unfit) ↦ inr e ])))
                  ]))
