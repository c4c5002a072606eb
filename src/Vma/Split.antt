-- ===== src/Vma/Split.antt =====
-- `split_node_left` of kernel/mm/vma.hpp: a range is cut in two, if there is a node for the second.
use unnamed.Prelude.{
  ℕ, ◌+◌, ◌-◌, ◌^◌, ◌≤◌, ◌<◌, ◌≡◌, ◌≢◌, refl, ap, sym, ◌∙◌, ◌⊎◌, inl, inr, false, List, [], ◌∷◌,
  leb, arith, ◌==◌, if◌then◌else◌, length,
}
use unnamed.Run.{ok}
use unnamed.Run.Ensures.{Ensures, and_then-Ensures, Ensures-mono}
use unnamed.Vma.{Nodes, Allocator, allocate_node, link_right, split_node_left}
use unnamed.Vma.Zipper.{
  Cell, IsNode, first, Ahead, Behind, Tiles, IsZipper, Ahead-frame, Behind-frame,
}
use unnamed.Vma.Pool.{IsPool, IsTaken, AllocateTo, allocate_node-AllocateTo, Unused-frame}
use unnamed.Vma.Link.{
  ne_of_valid, ne_of_start, Tiles-le, left_part, right_part, NextTo, IsOther, IsRelinked, LinkTo,
  taken_nodes, link_right-LinkTo,
}

-- Writes to the nodes and the stack only.
abbrev pub Kept : Allocator → Allocator → Type 0
Kept a a' = a' ≡ record a { nodes = a'.nodes; free_stack = a'.free_stack }

pub Kept-trans : (a b c : Allocator) → Kept a b → Kept b c → Kept a c
Kept-trans a b c p q =
    q ∙ ap (λ (x : Allocator). record x { nodes = c.nodes; free_stack = c.free_stack }) p

-- The range is cut at `k` pages, and `p` is the node of the second part; or there was no node.
pub record IsSplit (a : Allocator) (left : List Cell) (c : Cell) (xs : List Cell) (pos k p : ℕ)
    (a' : Allocator) : Type 0 where
  pub ne : p ≢ c.ptr
  pub zipper : IsZipper a' left (left_part c k ∷ right_part c k p ∷ xs) pos
  pub pool : IsPool a'
  pub kept : Kept a a'
  pub one_less : length a.free_stack ≤ length a'.free_stack + 1

abbrev pub SplitTo :
    Allocator → (left : List Cell) → Cell → (xs : List Cell) → (pos k p : ℕ) → Allocator → Type 0
SplitTo a left c xs pos k p a' =
    ((p ≡ c.ptr) × (a.free_stack ≡ []) × (a' ≡ a)) ⊎ IsSplit a left c xs pos k p a'

-- Two lemmas on the first node ahead: a node that begins elsewhere is another, and so is one that
-- is not in use.
module _ (a : Allocator) where
  pub IsOther-start :
      (q at prev : ℕ) (cs : List Cell)
      → (a.nodes q).start < at
      → Ahead a.max_nodes a.nodes prev cs
      → Tiles a.total_pages at cs
      → IsOther q cs
  IsOther-start q at prev [] lt h t = tt
  IsOther-start q at prev (d ∷ ds) lt h t =
      ne_of_start a.nodes q d.ptr
        (rw (ap (λ x. x.start) h.0.holds, t.0) (λ e. absurd (omega arith)))

  pub IsOther-unused :
      (q prev : ℕ) (cs : List Cell)
      → (a.nodes q).valid ≡ false
      → Ahead a.max_nodes a.nodes prev cs
      → IsOther q cs
  IsOther-unused q prev [] v h = tt
  IsOther-unused q prev (d ∷ ds) v h =
      λ e. ne_of_valid a.nodes d.ptr q (ap (λ x. x.valid) h.0.holds) v (sym e)

module _ (a : Allocator) (left : List Cell) (c : Cell) (xs : List Cell) (pos k : ℕ)
    (z : IsZipper a left (c ∷ xs) pos) (pool : IsPool a) (sized : a.total_pages < 2 ^ 64)
    (some_pages : 0 < k) (more : k < c.npages) where
  here : IsNode a.max_nodes a.nodes c (first left) (first xs)
  here = z.ahead.0

  start_here : (a.nodes c.ptr).start ≡ pos
  start_here = ap (λ x. x.start) here.holds ∙ z.tiles.0

  module _ (r : ℕ) (stack : List ℕ) (n : Nodes) (taken : IsTaken a r stack)
      (re : IsRelinked a.max_nodes a.nodes n c k r left xs) where
    abbrev relinked : Allocator
    relinked = record a { free_stack = stack; nodes = n }

    r_ne : r ≢ c.ptr
    r_ne e = ne_of_valid a.nodes c.ptr r (ap (λ x. x.valid) here.holds) taken.was_unused (sym e)

    Behind-relinked : Behind a.max_nodes n c.ptr left
    Behind-relinked =
        Behind-frame a.max_nodes a.nodes n c.ptr pos left
          (λ q v lt.
            re.others q (ne_of_valid a.nodes q r v taken.was_unused)
              (ne_of_start a.nodes q c.ptr (rw start_here (λ e. absurd (omega arith))))
              (IsOther-start a q (pos + c.npages) c.ptr xs (omega arith) z.ahead.1 z.tiles.2))
          z.tiles_back z.behind

    Ahead-relinked :
        (ds : List Cell)
        → Ahead a.max_nodes a.nodes c.ptr ds
        → Tiles a.total_pages (pos + c.npages) ds
        → NextTo a.max_nodes n r ds
        → ((q : ℕ) → q ≢ r → q ≢ c.ptr → IsOther q ds → n q ≡ a.nodes q)
        → Ahead a.max_nodes n r ds
    Ahead-relinked [] h t next others = tt
    Ahead-relinked (d ∷ ds) h t next others =
        let at : (a.nodes d.ptr).start ≡ pos + c.npages = ap (λ x. x.start) h.0.holds ∙ t.0 in
        (
          record { ne_null = h.0.ne_null; holds = next },
          Ahead-frame a.max_nodes a.nodes n d.ptr a.total_pages (pos + c.npages + d.npages) ds
              (λ q v le.
                others q (ne_of_valid a.nodes q r v taken.was_unused)
                  (ne_of_start a.nodes q c.ptr (rw start_here (λ e. absurd (omega arith))))
                  (ne_of_start a.nodes q d.ptr (rw at (λ e. absurd (let p = t.1 in omega arith)))))
              t.2 h.1,
        )

    relinked-IsZipper : IsZipper relinked left (left_part c k ∷ right_part c k r ∷ xs) pos
    relinked-IsZipper = record {
      ahead = (
        record { ne_null = here.ne_null; holds = re.node_left },
        (
          record { ne_null = taken.ne_null; holds = re.node_right },
          Ahead-relinked xs z.ahead.1 z.tiles.2 re.node_next re.others,
        ),
      );
      behind = Behind-relinked;
      tiles = (
        z.tiles.0,
        some_pages,
        (
          omega (arith, z.tiles.0),
          omega arith,
          let e : pos + k + (c.npages - k) ≡ pos + c.npages = omega arith in rw e z.tiles.2,
        ),
      );
      tiles_back = z.tiles_back;
      leads = z.leads;
    }

    relinked-IsPool : IsPool relinked
    relinked-IsPool = record {
      unused =
          Unused-frame a.max_nodes r a.nodes n stack
            (λ q v ne.
              re.others q ne
                (λ e. ne_of_valid a.nodes c.ptr q (ap (λ x. x.valid) here.holds) v (sym e))
                (IsOther-unused a q c.ptr xs v z.ahead.1))
            taken.gone taken.rest;
      distinct = taken.distinct;
      fresh = pool.fresh;
    }

  link_right-SplitTo :
      (r : ℕ) (stack : List ℕ)
      → IsTaken a r stack
      → Ensures
          (link_right c.ptr k r (record a { free_stack = stack; nodes = taken_nodes a r }))
          (SplitTo a left c xs pos k)
  link_right-SplitTo r stack taken =
      let fits = Tiles-le a.total_pages (pos + c.npages) xs z.tiles.2 in
      Ensures-mono (link_right c.ptr k r (record a { free_stack = stack; nodes = taken_nodes a r }))
        (LinkTo a c k r left xs stack) (SplitTo a left c xs pos k)
        (λ p a' (same, (n, e, re)).
          rw (same, e)
            (inr (record {
              ne = r_ne r stack n taken re;
              zipper = relinked-IsZipper r stack n taken re;
              pool = relinked-IsPool r stack n taken re;
              kept = refl;
              one_less = taken.one_less;
            })))
        (link_right-LinkTo a left c k r stack taken more (omega (arith, z.tiles.0)) xs here
          z.ahead.1
          (IsOther-start a c.ptr (pos + c.npages) c.ptr xs (rw start_here (omega arith)) z.ahead.1
            z.tiles.2))

  -- A range is cut at fewer pages than it has, unless there is no node for the second part.
  pub split_node_left-SplitTo : Ensures (split_node_left c.ptr k a) (SplitTo a left c xs pos k)
  unfolding split_node_left
  split_node_left-SplitTo =
      let some_node : (c.ptr == 0) ≡ false = ground (arith, here.ne_null) in
      let some_k : (k == 0) ≡ false = ground arith in
      let larger : leb (a.nodes c.ptr).npages k ≡ false =
        rw (ap (λ x. x.npages) here.holds) (ground arith) in
      rw (some_node, some_k, larger)
        (and_then-Ensures (allocate_node a)
          (λ right. if right == 0 then ok c.ptr else link_right c.ptr k right) (AllocateTo a)
          (SplitTo a left c xs pos k) (allocate_node-AllocateTo a pool)
          (λ r a' post. elim post [
            | inl (z, empty, same) ↦ rw (z, same) (inl (refl, empty, refl))
            | inr (stack, e, taken) ↦
                let some_r : (r == 0) ≡ false = ground (arith, taken.ne_null) in
                rw (some_r, e) (link_right-SplitTo r stack taken)
          ]))
