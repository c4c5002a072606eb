-- ===== src/Vma/Absorb.antt =====
-- A range takes over the one behind it, whose node is freed: the step of `coalesce` in
-- kernel/mm/vma.hpp.
use unnamed.Prelude.{
  ℕ, suc, ◌+◌, ◌-◌, ◌^◌, ◌<◌, ◌≡◌, ◌≢◌, refl, ap, sym, ◌∙◌, inl, inr, false, List, [], ◌∷◌, ltb,
  arith, All, Bool-cases,
}
use unnamed.Run.Ensures.{Ensures, Ensures-mono}
use unnamed.Vma.{Nodes, Allocator, absorb}
use unnamed.Vma.Zipper.{Cell, IsNode, first, Ahead, Tiles, IsZipper, Ahead-frame, Behind-frame}
use unnamed.Vma.Pool.{IsPool, Unused}
use unnamed.Vma.Link.{IsOther, NextTo, Tiles-le, ne_of_valid, ne_of_start}
use unnamed.Vma.Split.{Kept, IsOther-start, IsOther-unused}
use unnamed.Vma.Takeover.{joined, returned, IsAbsorbed, AbsorbTo, absorb-AbsorbTo}

pub record IsJoined (a : Allocator) (left : List Cell) (c d : Cell) (xs : List Cell) (pos : ℕ)
    (u : Unit {0}) (a' : Allocator) : Type 0 where
  pub zipper : IsZipper a' left (joined c d ∷ xs) pos
  pub pool : IsPool a'
  pub kept : Kept a a'

module _ (a : Allocator) (left : List Cell) (c d : Cell) (xs : List Cell) (pos : ℕ)
    (z : IsZipper a left (c ∷ d ∷ xs) pos) (pool : IsPool a) (sized : a.total_pages < 2 ^ 64) where
  hc : IsNode a.max_nodes a.nodes c (first left) d.ptr
  hc = z.ahead.0

  hd : IsNode a.max_nodes a.nodes d c.ptr (first xs)
  hd = z.ahead.1.0

  start_c : (a.nodes c.ptr).start ≡ pos
  start_c = ap (λ x. x.start) hc.holds ∙ z.tiles.0

  start_d : (a.nodes d.ptr).start ≡ pos + c.npages
  start_d = ap (λ x. x.start) hd.holds ∙ z.tiles.2.0

  d_ne : d.ptr ≢ c.ptr
  d_ne =
      ne_of_start a.nodes d.ptr c.ptr
        (rw (start_d, start_c) (λ e. absurd (let p = z.tiles.1 in omega arith)))

  abbrev behind_d : ℕ
  behind_d = pos + c.npages + d.npages

  module _ (n : Nodes) (ab : IsAbsorbed a.max_nodes a.nodes n c d left xs) where
    abbrev absorbed : Allocator
    absorbed = record a { free_stack = returned a.max_nodes d.ptr a.free_stack; nodes = n }

    spared_behind : (q : ℕ) → (a.nodes q).start < pos → n q ≡ a.nodes q
    spared_behind q lt =
        ab.others q (ne_of_start a.nodes q d.ptr (rw start_d (λ e. absurd (omega arith))))
          (ne_of_start a.nodes q c.ptr (rw start_c (λ e. absurd (omega arith))))
          (IsOther-start a q behind_d d.ptr xs (omega arith) z.ahead.1.1 z.tiles.2.2)

    Ahead-absorbed :
        (es : List Cell)
        → Ahead a.max_nodes a.nodes d.ptr es
        → Tiles a.total_pages behind_d es
        → NextTo a.max_nodes n c.ptr es
        → ((q : ℕ) → q ≢ d.ptr → q ≢ c.ptr → IsOther q es → n q ≡ a.nodes q)
        → Ahead a.max_nodes n c.ptr es
    Ahead-absorbed [] h t next others = tt
    Ahead-absorbed (e ∷ es) h t next others =
        let at : (a.nodes e.ptr).start ≡ behind_d = ap (λ x. x.start) h.0.holds ∙ t.0 in
        let pc = z.tiles.1 in
        let pd = z.tiles.2.1 in
        (
          record { ne_null = h.0.ne_null; holds = next },
          Ahead-frame a.max_nodes a.nodes n e.ptr a.total_pages (behind_d + e.npages) es
              (λ q v le.
                others q (ne_of_start a.nodes q d.ptr (rw start_d (λ x. absurd (omega arith))))
                  (ne_of_start a.nodes q c.ptr (rw start_c (λ x. absurd (omega arith))))
                  (ne_of_start a.nodes q e.ptr (rw at (λ x. absurd (let p = t.1 in omega arith)))))
              t.2 h.1,
        )

    absorbed-IsZipper : IsZipper absorbed left (joined c d ∷ xs) pos
    absorbed-IsZipper = record {
      ahead = (
        record { ne_null = hc.ne_null; holds = ab.node_joined },
        Ahead-absorbed xs z.ahead.1.1 z.tiles.2.2 ab.node_next ab.others,
      );
      behind =
          Behind-frame a.max_nodes a.nodes n c.ptr pos left (λ q v lt. spared_behind q lt)
            z.tiles_back z.behind;
      tiles = (
        z.tiles.0,
        omega (arith, z.tiles.1),
        let e : pos + (c.npages + d.npages) ≡ behind_d = omega arith in rw e z.tiles.2.2,
      );
      tiles_back = z.tiles_back;
      leads = z.leads;
    }

    Unused-spared : (q : ℕ) → (a.nodes q).valid ≡ false → n q ≡ a.nodes q
    Unused-spared q v =
        ab.others q (λ e. ne_of_valid a.nodes d.ptr q (ap (λ x. x.valid) hd.holds) v (sym e))
          (λ e. ne_of_valid a.nodes c.ptr q (ap (λ x. x.valid) hc.holds) v (sym e))
          (IsOther-unused a q d.ptr xs v z.ahead.1.1)

    old-Unused : (stack : List ℕ) → Unused a.max_nodes a.nodes stack → Unused a.max_nodes n stack
    old-Unused [] u = tt
    old-Unused (i ∷ stack) u =
        ((u.0.0, ap (λ x. x.valid) (Unused-spared (suc i) u.0.1) ∙ u.0.1), old-Unused stack u.1)

    -- The node that is freed was not on the stack.
    not_on_stack :
        (i : ℕ)
        → suc i ≡ d.ptr
        → (stack : List ℕ) → Unused a.max_nodes a.nodes stack
        → All (λ j. j ≢ i) stack
    not_on_stack i at [] u = tt
    not_on_stack i at (j ∷ stack) u = (
      λ e.
          ne_of_valid a.nodes d.ptr (suc j) (ap (λ x. x.valid) hd.holds) u.0.1
            (sym at ∙ ap suc (sym e)),
      not_on_stack i at stack u.1,
    )

    absorbed-IsPool : IsPool absorbed
    absorbed-IsPool = elim (Bool-cases (ltb a.max_nodes d.ptr)) [
      | inl heap ↦ rw heap (record {
        unused = old-Unused a.free_stack pool.unused;
        distinct = pool.distinct;
        fresh = pool.fresh;
      })
      | inr static ↦
          let pos_d = hd.ne_null in
          let at : suc (d.ptr - 1) ≡ d.ptr = omega arith in
          rw static (record {
            unused = (
              (ground arith, ap (λ q. (n q).valid) at ∙ ab.node_dead),
              old-Unused a.free_stack pool.unused,
            );
            distinct = (not_on_stack (d.ptr - 1) at a.free_stack pool.unused, pool.distinct);
            fresh = pool.fresh;
          })
    ]

  pub absorb-IsJoined : Ensures (absorb c.ptr d.ptr a) (IsJoined a left c d xs pos)
  absorb-IsJoined =
      let fits = Tiles-le a.total_pages behind_d xs z.tiles.2.2 in
      Ensures-mono (absorb c.ptr d.ptr a) (AbsorbTo a c d left xs) (IsJoined a left c d xs pos)
        (λ u a' (n, e, ab).
          rw e
            (record { zipper = absorbed-IsZipper n ab; pool = absorbed-IsPool n ab; kept = refl }))
        (absorb-AbsorbTo a left c d (omega arith) hc d_ne (λ m. (pool.fresh m).1) xs hd z.ahead.1.1
          (IsOther-start a c.ptr behind_d d.ptr xs (rw start_c (omega (arith, z.tiles.1)))
            z.ahead.1.1 z.tiles.2.2)
          (IsOther-start a d.ptr behind_d d.ptr xs (rw start_d (omega (arith, z.tiles.2.1)))
            z.ahead.1.1 z.tiles.2.2))
