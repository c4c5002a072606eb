-- ===== src/Vma/FreeParts.antt =====
-- The parts of `free` in kernel/mm/vma.hpp: a range that is freed as a whole, and the left part split off.
use unnamed.Prelude.{
  ℕ, ◌+◌, ◌-◌, ◌^◌, ◌≤◌, ◌<◌, ◌≡◌, refl, ap, sym, ◌∙◌, inl, inr, Bool, true, false, List, ◌∷◌, leb,
  arith, ◌==◌, if◌then◌else◌, Bool-cases, ◌&&◌, not, length,
}
use unnamed.Run.{pure}
use unnamed.Run.Ensures.{Ensures, and_then-Ensures}
use unnamed.Vma.{Allocator, split_node_left, coalesce}
use unnamed.Vma.Calls.{free_exact, free_checked, free_left}
use unnamed.Vma.Zipper.{Cell, IsZipper-step}
use unnamed.Vma.Link.{==-false, left_part, right_part}
use unnamed.Vma.Split.{Kept-trans}
use unnamed.Vma.Coalesce.{MergedTo, coalesce-Merged}
use unnamed.Vma.Mark.{
  IsState, within, marked, with_flag, flagged, flagged-IsState, free_at-here, CutTo,
  split_node_left-CutTo,
}

-- The pages lie in the used range.
abbrev pub holds_pages : (n page : ℕ) → Cell → Bool
holds_pages n page c = not c.is_free && leb c.start page && leb (page + n) (c.start + c.npages)

module _ (a0 : Allocator) (free : ℕ → Bool) (n page : ℕ) where
  -- The pages were used and are free; or the state is one in which the same pages are free.
  abbrev pub FreedTo : (why : Type 0) → Bool → Allocator → Type 0
  FreedTo why true a' =
      (left : List Cell) × (right : List Cell) × (pos : ℕ) × IsState a0 (marked free page n true) a'
        left right pos
      × ((q : ℕ) → within page n q ≡ true → free q ≡ false)
  FreedTo why false a' =
      (left : List Cell) × (right : List Cell) × (pos : ℕ) × IsState a0 free a' left right pos × why

  abbrev pub Short : Type 0
  Short = length a0.free_stack < 2

module _ (a0 : Allocator) (free : ℕ → Bool) (n page : ℕ) (sized : a0.total_pages < 2 ^ 63)
    (some_pages : 0 < n) where
  module _ (a : Allocator) (left : List Cell) (c : Cell) (xs : List Cell) (pos : ℕ)
      (s : IsState a0 free a left (c ∷ xs) pos) (used : c.is_free ≡ false) where
    limit : a.total_pages ≡ a0.total_pages
    limit = ap (λ x. x.total_pages) s.kept

    pub free_exact-FreedTo :
        c.start ≡ page
        → c.npages ≡ n
        → Ensures (free_exact c.ptr a) (FreedTo a0 free n page (Short a0 free n page))
    unfolding free_exact
    free_exact-FreedTo at exact =
        let f = flagged-IsState a0 free a left c xs pos s true in
        and_then-Ensures (coalesce c.ptr (flagged a c.ptr true)) (λ _. pure true)
          (MergedTo (flagged a c.ptr true) left (with_flag c true ∷ xs))
          (FreedTo a0 free n page (Short a0 free n page))
          (coalesce-Merged (flagged a c.ptr true) (with_flag c true) xs pos f.pool
            (omega (arith, limit)) refl left f.zipper)
          (λ _ a' (left', right', pos', m). (
            left',
            right',
            pos',
            record {
              zipper = m.zipper;
              pool = m.pool;
              kept = Kept-trans a0 (flagged a c.ptr true) a' f.kept m.kept;
              same = λ q. m.same q ∙ rw (sym at, sym exact) (f.same q);
            },
            λ q h.
                sym (s.same q) ∙ free_at-here a left c xs pos s.zipper q (rw (at, exact) h) ∙ used,
          ))

    free_checked-FreedTo :
        c.start ≡ page
        → c.npages ≡ n
        → Ensures (free_checked n c.ptr a) (FreedTo a0 free n page (Short a0 free n page))
    unfolding free_checked
    free_checked-FreedTo at exact =
        let npages : (a.nodes c.ptr).npages ≡ n =
          ap (λ x. x.npages) s.zipper.ahead.0.holds ∙ exact in
        let n_n : (n == n) ≡ true = ground arith in rw (npages, n_n) (free_exact-FreedTo at exact)

  module _ (a : Allocator) (left : List Cell) (c : Cell) (xs : List Cell) (pos : ℕ)
      (s : IsState a0 free a left (c ∷ xs) pos) (used : c.is_free ≡ false)
      (below : c.start ≤ page) where
    -- The pages are the last of the range.
    pub free_left-FreedTo :
        c.start + c.npages ≡ page + n
        → length a0.free_stack ≤ length a.free_stack + 1
        → Ensures
            (free_left n c.ptr (page - c.start) a)
            (FreedTo a0 free n page (Short a0 free n page))
    unfolding free_left
    free_left-FreedTo last spare = elim (Bool-cases (page - c.start == 0)) [
      | inl none_left ↦
          rw none_left (free_checked-FreedTo a left c xs pos s used (ground arith) (ground arith))
      | inr some_left ↦ rw some_left (
          and_then-Ensures (split_node_left c.ptr (page - c.start) a)
            (λ mid. if mid == c.ptr then pure false else free_checked n mid)
            (CutTo a0 free a left c xs pos (page - c.start))
            (FreedTo a0 free n page (Short a0 free n page))
            (split_node_left-CutTo a0 free a left c xs pos s
              (let l = limit a left c xs pos s used in omega arith) (page - c.start) (ground arith)
              (omega arith))
            (λ r a' post. elim post [
              | inl (e, empty, same) ↦
                  let r_c : (r == c.ptr) ≡ true = ground arith in
                  rw (r_c, same) (left, c ∷ xs, pos, s, omega (arith, spare, ap length empty))
              | inr cut ↦ rw (==-false r c.ptr cut.ne) (
                  free_checked-FreedTo a' (left_part c (page - c.start) ∷ left)
                    (right_part c (page - c.start) r) xs (pos + (page - c.start))
                    (record {
                      zipper =
                          IsZipper-step a' (left_part c (page - c.start)) left
                            (right_part c (page - c.start) r ∷ xs) pos cut.state.zipper;
                      pool = cut.state.pool;
                      kept = cut.state.kept;
                      same = cut.state.same;
                    })
                    used (omega arith) (omega arith))
            ]))
    ]
