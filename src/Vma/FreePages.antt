-- ===== src/Vma/FreePages.antt =====
-- `free` of kernel/mm/vma.hpp: a used range, or a part of one, is made free.
use unnamed.Prelude.{
  ℕ, zero, suc, ◌+◌, ◌-◌, ◌^◌, ◌≤◌, ◌<◌, ◌≡◌, refl, ap, ◌⊎◌, inl, inr, Bool, true, false, Option,
  none, some, List, [], ◌∷◌, ltb, leb, arith, ◌==◌, if◌then◌else◌, Bool-cases, ◌&&◌, not, length,
  All,
}
use unnamed.Prelude.Words.{add64, sub64}
use unnamed.Run.{Action, ◌>>=◌, pure}
use unnamed.Run.Ensures.{Ensures, Ensures-mono, and_then-Ensures}
use unnamed.Vma.{Allocator, split_node_left}
use unnamed.Vma.Calls.{free_exact, free_left, free_inside, free_visit, free_loop}
use unnamed.Vma.Zipper.{Cell, first, Tiles, IsZipper-step}
use unnamed.Vma.Link.{Tiles-le, ==-false, left_part, right_part}
use unnamed.Vma.Mark.{IsState, CutTo, split_node_left-CutTo}
use unnamed.Vma.FreeParts.{holds_pages, FreedTo, Short, free_exact-FreedTo, free_left-FreedTo}

module _ (a0 : Allocator) (free : ℕ → Bool) (n page : ℕ) (sized : a0.total_pages < 2 ^ 63)
    (some_pages : 0 < n) where
  -- From here on the state of the call's beginning is `a0`: a visit that frees nothing changes
  -- nothing.
  module _ (left : List Cell) (c : Cell) (xs : List Cell) (pos : ℕ)
      (s : IsState a0 free a0 left (c ∷ xs) pos) (used : c.is_free ≡ false)
      (below : c.start ≤ page) where
    free_inside-FreedTo :
        page + n ≤ c.start + c.npages
        → Ensures
            (free_inside n c.ptr (page - c.start) (c.start + c.npages - (page + n)) a0)
            (FreedTo a0 free n page (Short a0 free n page))
    unfolding free_inside
    free_inside-FreedTo inside =
        let npages : (a0.nodes c.ptr).npages ≡ c.npages =
          ap (λ x. x.npages) s.zipper.ahead.0.holds in
        let fit = Tiles-le a0.total_pages (pos + c.npages) xs s.zipper.tiles.2 in
        let at = s.zipper.tiles.0 in
        let k : ℕ = c.npages - (c.start + c.npages - (page + n)) in
        let cut_at : sub64 c.npages (c.start + c.npages - (page + n)) ≡ k = omega arith in
        rw (npages, cut_at)
          (elim (Bool-cases (c.start + c.npages - (page + n) == 0)) [
            | inl none_right ↦ rw none_right (
                free_left-FreedTo a0 free n page sized some_pages a0 left c xs pos s used below
                  (ground arith) (omega arith))
            | inr some_right ↦ rw some_right (
                and_then-Ensures (split_node_left c.ptr k a0)
                  (λ tail. if tail == c.ptr then pure false else free_left n c.ptr (page - c.start))
                  (CutTo a0 free a0 left c xs pos k) (FreedTo a0 free n page (Short a0 free n page))
                  (split_node_left-CutTo a0 free a0 left c xs pos s (omega arith) k (omega arith)
                    (ground arith))
                  (λ r a' post. elim post [
                    | inl (e, empty, same) ↦
                        let r_c : (r == c.ptr) ≡ true = ground arith in
                        rw (r_c, same) (left, c ∷ xs, pos, s, omega (arith, ap length empty))
                    | inr cut ↦ rw (==-false r c.ptr cut.ne) (
                        free_left-FreedTo a0 free n page sized some_pages a' left (left_part c k)
                          (right_part c k r ∷ xs) pos cut.state used below (omega arith)
                          cut.one_less)
                  ]))
          ])

  -- What is found out about the node: it does not hold the pages, or there were too few nodes.
  abbrev pub Passed : List Cell → Type 0
  Passed xs = Short a0 free n page ⊎ All (λ c. holds_pages n page c ≡ false) xs

  abbrev FreeVisitTo :
      (left : List Cell) (c : Cell) (xs : List Cell) (pos : ℕ) → Option Bool → Allocator → Type 0
  FreeVisitTo left c xs pos (some done) a' = FreedTo a0 free n page (Passed (c ∷ xs)) done a'
  FreeVisitTo left c xs pos none a' = (a' ≡ a0) × (holds_pages n page c ≡ false)

  -- Ranges behind the page do not hold it.
  All-behind :
      (total pos : ℕ) (xs : List Cell)
      → Tiles total pos xs
      → page < pos
      → All (λ c. holds_pages n page c ≡ false) xs
  All-behind total pos [] t lt = tt
  All-behind total pos (c ∷ xs) t lt =
      let at = t.0 in (ground arith, All-behind total (pos + c.npages) xs t.2 (omega arith))

  freed_some :
      (c : Cell) (xs : List Cell) (done : Bool) (a' : Allocator)
      → FreedTo a0 free n page (Short a0 free n page) done a'
      → FreedTo a0 free n page (Passed (c ∷ xs)) done a'
  freed_some c xs true a' p = p
  freed_some c xs false a' (left, right, pos, s, short) = (left, right, pos, s, inl short)

  module _ (left : List Cell) (c : Cell) (xs : List Cell) (pos : ℕ)
      (s : IsState a0 free a0 left (c ∷ xs) pos) (small : page + n < 2 ^ 64) where
    freed :
        (r : Action Allocator Bool)
        → Ensures (r a0) (FreedTo a0 free n page (Short a0 free n page))
        → Ensures ((r >>= λ done. pure (some done)) a0) (FreeVisitTo left c xs pos)
    freed r p =
        and_then-Ensures (r a0) (λ done. pure (some done))
          (FreedTo a0 free n page (Short a0 free n page)) (FreeVisitTo left c xs pos) p
          (freed_some c xs)

    free_visit-FreeVisitTo : Ensures (free_visit n page c.ptr a0) (FreeVisitTo left c xs pos)
    unfolding free_visit
    free_visit-FreeVisitTo =
        let node = s.zipper.ahead.0.holds in
        let start : (a0.nodes c.ptr).start ≡ c.start = ap (λ x. x.start) node in
        let npages : (a0.nodes c.ptr).npages ≡ c.npages = ap (λ x. x.npages) node in
        let flag : (a0.nodes c.ptr).is_free ≡ c.is_free = ap (λ x. x.is_free) node in
        let fit = Tiles-le a0.total_pages (pos + c.npages) xs s.zipper.tiles.2 in
        let at = s.zipper.tiles.0 in
        let x = a0.nodes c.ptr in
        let end : add64 x.start x.npages ≡ c.start + c.npages = omega (arith, start, npages) in
        let last : add64 page n ≡ page + n = omega arith in
        (elim (Bool-cases (not x.is_free && x.start == page && x.npages == n)) [
          | inl exact ↦ rw exact (
              freed (free_exact c.ptr) (
                free_exact-FreedTo a0 free n page sized some_pages a0 left c xs pos s (ground arith)
                  (ground arith) (ground arith)))
          | inr inexact ↦
              rw inexact
                (elim (Bool-cases
                  (not x.is_free && leb x.start page && ltb page (add64 x.start x.npages))) [
                    | inr outside ↦ rw outside (refl, ground arith)
                    | inl begins ↦
                        rw begins (elim (Bool-cases (ltb (add64 x.start x.npages) (add64 page n))) [
                          | inl over ↦ rw over (
                            left,
                            c ∷ xs,
                            pos,
                            s,
                            inr (
                              ground arith,
                              All-behind a0.total_pages (pos + c.npages) xs s.zipper.tiles.2
                                  (ground arith),
                            ),
                          )
                          | inr inside ↦
                              let below : c.start ≤ page = ground arith in
                              let whole : page + n ≤ c.start + c.npages = ground arith in
                              let l : sub64 page x.start ≡ page - c.start = omega (arith, start) in
                              let r : sub64 (add64 x.start x.npages) (add64 page n)
                                  ≡ c.start + c.npages - (page + n) =
                                rw (end, last) (omega arith) in
                              rw (inside, l, r)
                                (freed
                                  (free_inside n c.ptr (page - c.start)
                                    (c.start + c.npages - (page + n)))
                                  (free_inside-FreedTo left c xs pos s (ground arith) below whole))
                        ])
                  ])
        ])

  longer :
      (c : Cell) (xs : List Cell)
      → holds_pages n page c ≡ false
      → (done : Bool) (a' : Allocator) → FreedTo a0 free n page (Passed xs) done a'
      → FreedTo a0 free n page (Passed (c ∷ xs)) done a'
  longer c xs outside true a' p = p
  longer c xs outside false a' (left, right, pos, s, inl short) = (left, right, pos, s, inl short)
  longer c xs outside false a' (left, right, pos, s, inr all) =
      (left, right, pos, s, inr (outside, all))

  abbrev go_on : (fuel : ℕ) (c : Cell) → Option Bool → Action Allocator Bool
  go_on fuel c result = elim result [
    | some done ↦ pure done
    | none ↦ (λ a'. free_loop fuel n page (a'.nodes c.ptr).next a')
  ]

  pub free_loop-FreedTo :
      page + n < 2 ^ 64
      → (xs : List Cell) (fuel : ℕ) → length xs < fuel
      → (left : List Cell) (pos : ℕ) → IsState a0 free a0 left xs pos
      → Ensures (free_loop fuel n page (first xs) a0) (FreedTo a0 free n page (Passed xs))
  unfolding free_loop
  free_loop-FreedTo small xs zero less = λ left pos s. absurd (omega arith)
  free_loop-FreedTo small [] (suc fuel) less = λ left pos s. (left, [], pos, s, inr tt)
  free_loop-FreedTo small (c ∷ xs) (suc fuel) less =
      let ih = free_loop-FreedTo small xs fuel (omega arith) in
      λ left pos s.
        let some_node : (c.ptr == 0) ≡ false = ground (arith, s.zipper.ahead.0.ne_null) in
        rw some_node (
          and_then-Ensures (free_visit n page c.ptr a0) (go_on fuel c) (FreeVisitTo left c xs pos)
            (FreedTo a0 free n page (Passed (c ∷ xs)))
            (free_visit-FreeVisitTo left c xs pos s small)
            (λ result a'.
              elim result
                as (λ result.
                  FreeVisitTo left c xs pos result a'
                  → Ensures (go_on fuel c result a') (FreedTo a0 free n page (Passed (c ∷ xs)))) [
                    | some done ↦ λ post. post
                    | none ↦ λ (same, outside).
                        let next : (a0.nodes c.ptr).next ≡ first xs =
                          ap (λ x. x.next) s.zipper.ahead.0.holds in
                        rw (same, next)
                          (Ensures-mono (free_loop fuel n page (first xs) a0)
                            (FreedTo a0 free n page (Passed xs))
                            (FreedTo a0 free n page (Passed (c ∷ xs))) (longer c xs outside)
                            (ih (c ∷ left) (pos + c.npages) (record {
                              zipper = IsZipper-step a0 c left xs pos s.zipper;
                              pool = s.pool;
                              kept = s.kept;
                              same = s.same;
                            })))
                  ]))
