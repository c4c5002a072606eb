-- ===== src/Vma/Takeover.antt =====
-- The nodes after a range has taken over the one behind it, in `coalesce` of kernel/mm/vma.hpp.
use unnamed.Prelude.{
  ℕ, ◌+◌, ◌-◌, ◌^◌, ◌<◌, ◌≡◌, ◌≢◌, refl, sym, inl, inr, true, false, List, [], ◌∷◌, ltb, arith,
  ◌==◌, if◌then◌else◌, Bool-cases,
}
use unnamed.Prelude.Words.{add64}
use unnamed.Run.Ensures.{Ensures, Ensures-mono}
use unnamed.Vma.{Node, Nodes, Allocator, put, blank, absorb, free_node}
use unnamed.Vma.Zipper.{Cell, node_of, IsNode, first, Ahead}
use unnamed.Vma.Link.{IsOther, NextTo, ==-false}

abbrev pub joined : (c d : Cell) → Cell
joined c d = record c { npages = c.npages + d.npages }

-- The stack with the node pushed, if it is of the pool.
abbrev pub returned : (mx p : ℕ) → List ℕ → List ℕ
returned mx p stack = if ltb mx p then stack else (p - 1) ∷ stack

pub record IsAbsorbed (mx : ℕ) (m n : Nodes) (c d : Cell) (left xs : List Cell) : Type 0 where
  pub node_joined : n c.ptr ≡ node_of mx (joined c d) (first left) (first xs)
  pub node_dead : (n d.ptr).valid ≡ false
  pub node_next : NextTo mx n c.ptr xs
  pub others : (q : ℕ) → q ≢ d.ptr → q ≢ c.ptr → IsOther q xs → n q ≡ m q

abbrev pub AbsorbTo :
    Allocator → (c d : Cell) → (left xs : List Cell) → Unit {0} → Allocator → Type 0
AbsorbTo a c d left xs u a' =
    (n : Nodes) × (a'
      ≡ record a { free_stack = returned a.max_nodes d.ptr a.free_stack; nodes = n })
    × IsAbsorbed a.max_nodes a.nodes n c d left xs

abbrev FreeTo : Allocator → (p : ℕ) → Unit {0} → Allocator → Type 0
FreeTo b p u b' =
    (v : Node) × (v.valid ≡ false)
    × (b' ≡ record b { free_stack = returned b.max_nodes p b.free_stack; nodes = put b.nodes p v })

free_node-FreeTo :
    (b : Allocator) (p : ℕ)
    → 0 < p
    → (b.nodes p).dynamic ≡ ltb b.max_nodes p
    → b.delete_unmaps b.nodes ≡ false
    → Ensures (free_node p b) (FreeTo b p)
unfolding free_node
free_node-FreeTo b p pos dyn kept =
    let some_node : (p == 0) ≡ false = ground arith in
    rw (some_node, dyn)
      (elim (Bool-cases (ltb b.max_nodes p)) [
        | inl heap ↦ rw (heap, kept) (blank false false, refl, rw heap)
        | inr pool ↦
            let below : ltb (p - 1) b.max_nodes ≡ true = ground arith in
            rw (pool, below)
              (
                record (b.nodes p) {
                  valid = false;
                  dynamic = false;
                  is_free = false;
                  next = 0;
                  prev = 0;
                },
                refl,
                rw pool,
              )
      ])

module _ (a : Allocator) (left : List Cell) (c d : Cell) (small : c.npages + d.npages < 2 ^ 64)
    (hc : IsNode a.max_nodes a.nodes c (first left) d.ptr) (apart : d.ptr ≢ c.ptr)
    (no_munmap : (m : Nodes) → a.delete_unmaps m ≡ false) where
  pub absorb-AbsorbTo :
      (xs : List Cell)
      → IsNode a.max_nodes a.nodes d c.ptr (first xs)
      → Ahead a.max_nodes a.nodes d.ptr xs
      → IsOther c.ptr xs
      → IsOther d.ptr xs
      → Ensures (absorb c.ptr d.ptr a) (AbsorbTo a c d left xs)
  unfolding absorb
  absorb-AbsorbTo [] hd ahead oc od =
      let d_c : (d.ptr == c.ptr) ≡ false = ==-false d.ptr c.ptr apart in
      let c_d : (c.ptr == d.ptr) ≡ false = ==-false c.ptr d.ptr (λ e. apart (sym e)) in
      let c_c : (c.ptr == c.ptr) ≡ true = ground arith in
      let d_d : (d.ptr == d.ptr) ≡ true = ground arith in
      let sum : add64 c.npages d.npages ≡ c.npages + d.npages = omega arith in
      let b : Allocator = record a {
        nodes = put a.nodes c.ptr (node_of a.max_nodes (joined c d) (first left) 0);
      } in
      rw (hd.holds, hc.holds, sum)
        (Ensures-mono (free_node d.ptr b) (FreeTo b d.ptr) (AbsorbTo a c d left [])
          (λ u b' (v, dead, same). (
            put b.nodes d.ptr v,
            same,
            record {
              node_joined = rw (c_d, c_c);
              node_dead = rw d_d dead;
              node_next = tt;
              others = λ q nd nc nx. rw (==-false q d.ptr nd, ==-false q c.ptr nc);
            },
          ))
          (free_node-FreeTo b d.ptr hd.ne_null (rw (d_c, hd.holds)) (no_munmap b.nodes)))
  absorb-AbsorbTo (e ∷ es) hd ahead oc od =
      let next = ahead.0 in
      let some_next : (e.ptr == 0) ≡ false = ground (arith, next.ne_null) in
      let e_c : (e.ptr == c.ptr) ≡ false = ==-false e.ptr c.ptr (λ x. oc (sym x)) in
      let d_e : (d.ptr == e.ptr) ≡ false = ==-false d.ptr e.ptr od in
      let e_d : (e.ptr == d.ptr) ≡ false = ==-false e.ptr d.ptr (λ x. od (sym x)) in
      let c_e : (c.ptr == e.ptr) ≡ false = ==-false c.ptr e.ptr oc in
      let d_c : (d.ptr == c.ptr) ≡ false = ==-false d.ptr c.ptr apart in
      let c_d : (c.ptr == d.ptr) ≡ false = ==-false c.ptr d.ptr (λ x. apart (sym x)) in
      let c_c : (c.ptr == c.ptr) ≡ true = ground arith in
      let d_d : (d.ptr == d.ptr) ≡ true = ground arith in
      let e_e : (e.ptr == e.ptr) ≡ true = ground arith in
      let sum : add64 c.npages d.npages ≡ c.npages + d.npages = omega arith in
      let b : Allocator = record a {
        nodes =
            put (put a.nodes c.ptr (node_of a.max_nodes (joined c d) (first left) e.ptr)) e.ptr
              (node_of a.max_nodes e c.ptr (first es));
      } in
      rw (hd.holds, hc.holds, sum, some_next, e_c, next.holds)
        (Ensures-mono (free_node d.ptr b) (FreeTo b d.ptr) (AbsorbTo a c d left (e ∷ es))
          (λ u b' (v, dead, same). (
            put b.nodes d.ptr v,
            same,
            record {
              node_joined = rw (c_d, c_e, c_c);
              node_dead = rw d_d dead;
              node_next = rw (e_d, e_e);
              others =
                  λ q nd nc nx. rw (==-false q d.ptr nd, ==-false q e.ptr nx, ==-false q c.ptr nc);
            },
          ))
          (free_node-FreeTo b d.ptr hd.ne_null (rw (d_e, d_c, hd.holds)) (no_munmap b.nodes)))
