-- ===== src/Vma/Mark.antt =====
-- States of the allocator against the pages that are free: what a split and a change of `is_free`
-- do to them.
use unnamed.Prelude.{
  ℕ, suc, ◌+◌, ◌^◌, ◌≤◌, ◌<◌, ◌≡◌, ◌≢◌, refl, ap, sym, ◌∙◌, ◌⊎◌, inl, inr, Bool, true, List, [],
  ◌∷◌, ltb, leb, arith, ◌==◌, if◌then◌else◌, ◌&&◌, length,
}
use unnamed.Run.Ensures.{Ensures, Ensures-mono}
use unnamed.Vma.{Nodes, Allocator, put, split_node_left}
use unnamed.Vma.Zipper.{
  Cell, IsZipper, zip, free_at, covers, free_at-zip, Ahead-frame, Behind-frame,
}
use unnamed.Vma.Pool.{IsPool, Unused}
use unnamed.Vma.Link.{==-false, ne_of_valid, ne_of_start, left_part, right_part}
use unnamed.Vma.Split.{Kept, Kept-trans, SplitTo, split_node_left-SplitTo}
use unnamed.Vma.Coalesce.{zip_same}

-- The state at a place of the list: only nodes and the stack differ from `a0`, and the pages that
-- are free are those of `free`.
pub record IsState (a0 : Allocator) (free : ℕ → Bool) (a : Allocator) (left right : List Cell)
    (pos : ℕ) : Type 0 where
  pub zipper : IsZipper a left right pos
  pub pool : IsPool a
  pub kept : Kept a0 a
  pub same : (page : ℕ) → free_at (zip left right) page ≡ free page

abbrev pub within : (p n page : ℕ) → Bool
within p n page = leb p page && ltb page (p + n)

-- The pages `p` to `p + n` are made free, or not.
abbrev pub marked : (ℕ → Bool) → (p n : ℕ) → (f : Bool) → ℕ → Bool
marked free p n f page = if within p n page then f else free page

abbrev pub with_flag : Cell → (f : Bool) → Cell
with_flag c f = record c { is_free = f }

-- `c->is_free = f`
abbrev pub flagged : Allocator → (p : ℕ) → (f : Bool) → Allocator
flagged a p f = record a { nodes = put a.nodes p (record (a.nodes p) { is_free = f }) }

module _ (a : Allocator) (left : List Cell) (c : Cell) (xs : List Cell) (pos : ℕ)
    (z : IsZipper a left (c ∷ xs) pos) where
  -- The pages of the range at the place are as free as it.
  pub free_at-here :
      (page : ℕ) → covers c page ≡ true → free_at (zip left (c ∷ xs)) page ≡ c.is_free
  free_at-here page h =
      let at = z.tiles.0 in free_at-zip left (c ∷ xs) pos page z.tiles_back ∙ ground arith

  free_at-flag :
      (f : Bool) (page : ℕ)
      → free_at (zip left (with_flag c f ∷ xs)) page
        ≡ marked (free_at (zip left (c ∷ xs))) c.start c.npages f page
  free_at-flag f page =
      let at = z.tiles.0 in
      let here = free_at-zip left (c ∷ xs) pos page z.tiles_back in
      free_at-zip left (with_flag c f ∷ xs) pos page z.tiles_back ∙ ground arith

  -- The parts are as free as the range.
  split_free :
      (k p : ℕ)
      → k < c.npages
      → (page : ℕ)
      → free_at (zip left (left_part c k ∷ right_part c k p ∷ xs)) page
        ≡ free_at (zip left (c ∷ xs)) page
  split_free k p more page =
      zip_same left (c ∷ xs) (left_part c k ∷ right_part c k p ∷ xs) pos page z.tiles_back
        (ground arith)

  module _ (f : Bool) where
    abbrev written : Nodes
    written = put a.nodes c.ptr (record (a.nodes c.ptr) { is_free = f })

    start_here : (a.nodes c.ptr).start ≡ pos
    start_here = ap (λ x. x.start) z.ahead.0.holds ∙ z.tiles.0

    spared : (q : ℕ) → (a.nodes q).start ≢ pos → written q ≡ a.nodes q
    spared q ne = let e = ==-false q c.ptr (ne_of_start a.nodes q c.ptr (rw start_here ne)) in rw e

    Unused-spared :
        (stack : List ℕ) → Unused a.max_nodes a.nodes stack → Unused a.max_nodes written stack
    Unused-spared [] u = tt
    Unused-spared (i ∷ stack) u =
        let ne : suc i ≢ c.ptr = λ e.
          ne_of_valid a.nodes c.ptr (suc i) (ap (λ x. x.valid) z.ahead.0.holds) u.0.1 (sym e) in
        let e = ==-false (suc i) c.ptr ne in (rw e u.0, Unused-spared stack u.1)

    flagged-IsZipper : IsZipper (flagged a c.ptr f) left (with_flag c f ∷ xs) pos
    flagged-IsZipper =
        let c_c : (c.ptr == c.ptr) ≡ true = ground arith in
        let some_pages = z.tiles.1 in
        record {
          ahead = (
            record { ne_null = z.ahead.0.ne_null; holds = rw (c_c, z.ahead.0.holds) },
            Ahead-frame a.max_nodes a.nodes written c.ptr a.total_pages (pos + c.npages) xs
                (λ q v le. spared q (λ e. absurd (omega arith))) z.tiles.2 z.ahead.1,
          );
          behind =
              Behind-frame a.max_nodes a.nodes written c.ptr pos left
                (λ q v lt. spared q (λ e. absurd (omega arith))) z.tiles_back z.behind;
          tiles = z.tiles;
          tiles_back = z.tiles_back;
          leads = z.leads;
        }

module _ (a0 : Allocator) (free : ℕ → Bool) (a : Allocator) (left : List Cell) (c : Cell)
    (xs : List Cell) (pos : ℕ) (s : IsState a0 free a left (c ∷ xs) pos) where
  -- A change of `is_free` is a change of its pages.
  pub flagged-IsState :
      (f : Bool)
      → IsState a0
          (marked free c.start c.npages f)
          (flagged a c.ptr f)
          left
          (with_flag c f ∷ xs)
          pos
  flagged-IsState f = record {
    zipper = flagged-IsZipper a left c xs pos s.zipper f;
    pool = record {
      unused = Unused-spared a left c xs pos s.zipper f a.free_stack s.pool.unused;
      distinct = s.pool.distinct;
      fresh = s.pool.fresh;
    };
    kept = Kept-trans a0 a (flagged a c.ptr f) s.kept refl;
    same = λ page.
        free_at-flag a left c xs pos s.zipper f page
        ∙ ap (λ b. if within c.start c.npages page then f else b) (s.same page);
  }

-- A range was cut, and the place is before the parts; or there was no node.
pub record IsCut (a0 : Allocator) (free : ℕ → Bool) (a : Allocator) (left : List Cell) (c : Cell)
    (xs : List Cell) (k p : ℕ) (a' : Allocator) (pos : ℕ) : Type 0 where
  pub ne : p ≢ c.ptr
  pub state : IsState a0 free a' left (left_part c k ∷ right_part c k p ∷ xs) pos
  pub one_less : length a.free_stack ≤ length a'.free_stack + 1

abbrev pub CutTo :
    Allocator
    → (ℕ → Bool)
    → Allocator
    → List Cell
    → Cell
    → List Cell
    → (pos k p : ℕ) → Allocator
    → Type 0
CutTo a0 free a left c xs pos k p a' =
    ((p ≡ c.ptr) × (a.free_stack ≡ []) × (a' ≡ a)) ⊎ IsCut a0 free a left c xs k p a' pos

-- A split leaves the pages as free as they were.
pub split_node_left-CutTo :
    (a0 : Allocator) (free : ℕ → Bool) (a : Allocator) (left : List Cell) (c : Cell)
    (xs : List Cell) (pos : ℕ)
    → IsState a0 free a left (c ∷ xs) pos
    → a.total_pages < 2 ^ 64
    → (k : ℕ) → 0 < k
    → k < c.npages
    → Ensures (split_node_left c.ptr k a) (CutTo a0 free a left c xs pos k)
split_node_left-CutTo a0 free a left c xs pos s sized k some_pages more =
    Ensures-mono (split_node_left c.ptr k a) (SplitTo a left c xs pos k)
      (CutTo a0 free a left c xs pos k)
      (λ p a' h. elim h [
        | inl failed ↦ inl failed
        | inr split ↦ inr (record {
          ne = split.ne;
          state = record {
            zipper = split.zipper;
            pool = split.pool;
            kept = Kept-trans a0 a a' s.kept split.kept;
            same = λ page. split_free a left c xs pos s.zipper k p more page ∙ s.same page;
          };
          one_less = split.one_less;
        })
      ])
      (split_node_left-SplitTo a left c xs pos k s.zipper s.pool sized some_pages more)
