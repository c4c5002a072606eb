-- ===== src/Vma/Link.antt =====
-- The new node of `split_node_left` in kernel/mm/vma.hpp, filled and linked in.
use unnamed.Prelude.{
  ℕ, ◌+◌, ◌-◌, ◌^◌, ◌≤◌, ◌<◌, ◌≡◌, ◌≢◌, refl, ap, sym, ◌∙◌, true, false, List, [], ◌∷◌, ltb, arith,
  ◌==◌,
}
use unnamed.Prelude.Words.{add64, sub64}
use unnamed.Run.Ensures.{Ensures}
use unnamed.Vma.{Node, Nodes, Allocator, put, blank, link_right}
use unnamed.Vma.Zipper.{Cell, node_of, IsNode, first, Ahead, Tiles}
use unnamed.Vma.Pool.{IsTaken}

pub ==-false : (p q : ℕ) → p ≢ q → (p == q) ≡ false
==-false p q ne = ground arith

put_same : (m : Nodes) (p : ℕ) (n : Node) → put m p n p ≡ n
put_same m p n = (let e : (p == p) ≡ true = ground arith in rw e)

put_ne : (m : Nodes) (p q : ℕ) (n : Node) → q ≢ p → put m p n q ≡ m q
put_ne m p q n ne = (let e : (q == p) ≡ false = ground arith in rw e)

-- Nodes that differ in a field are different nodes.
pub ne_of_valid : (m : Nodes) (p q : ℕ) → (m p).valid ≡ true → (m q).valid ≡ false → p ≢ q
ne_of_valid m p q v w e = (let x : true ≡ false = sym v ∙ ap (λ z. (m z).valid) e ∙ w in cc)

pub ne_of_start : (m : Nodes) (p q : ℕ) → (m p).start ≢ (m q).start → p ≢ q
ne_of_start m p q ne e = ne (ap (λ z. (m z).start) e)

pub Tiles-le : (total pos : ℕ) (cs : List Cell) → Tiles total pos cs → pos ≤ total
Tiles-le total pos [] t = omega arith
Tiles-le total pos (c ∷ cs) t = (let ih = Tiles-le total (pos + c.npages) cs t.2 in omega arith)

abbrev pub left_part : Cell → (k : ℕ) → Cell
left_part c k = record c { npages = k }

abbrev pub right_part : Cell → (k r : ℕ) → Cell
right_part c k r = record c { ptr = r; start = c.start + k; npages = c.npages - k }

-- The node behind the new one, if there is one.
abbrev pub NextTo : ℕ → Nodes → (r : ℕ) → List Cell → Type 0
NextTo mx n r [] = Unit
NextTo mx n r (d ∷ ds) = n d.ptr ≡ node_of mx d r (first ds)

-- The node is not the first of the list.
abbrev pub IsOther : (q : ℕ) → List Cell → Type 0
IsOther q [] = Unit
IsOther q (d ∷ ds) = q ≢ d.ptr

pub record IsRelinked (mx : ℕ) (m n : Nodes) (c : Cell) (k r : ℕ) (left xs : List Cell)
    : Type 0 where
  pub node_left : n c.ptr ≡ node_of mx (left_part c k) (first left) r
  pub node_right : n r ≡ node_of mx (right_part c k r) c.ptr (first xs)
  pub node_next : NextTo mx n r xs
  pub others : (q : ℕ) → q ≢ r → q ≢ c.ptr → IsOther q xs → n q ≡ m q

abbrev pub LinkTo :
    Allocator → Cell → (k r : ℕ) → (left xs : List Cell) (stack : List ℕ) → ℕ → Allocator → Type 0
LinkTo a c k r left xs stack p a' =
    (p ≡ r)
    × ((n : Nodes) × (a' ≡ record a { free_stack = stack; nodes = n })
        × IsRelinked a.max_nodes a.nodes n c k r left xs)

abbrev pub taken_nodes : Allocator → (r : ℕ) → Nodes
taken_nodes a r = put a.nodes r (blank true (ltb a.max_nodes r))

module _ (a : Allocator) (left : List Cell) (c : Cell) (k r : ℕ) (stack : List ℕ)
    (taken : IsTaken a r stack) (more : k < c.npages) (small : c.start + c.npages < 2 ^ 64) where
  pub link_right-LinkTo :
      (xs : List Cell)
      → IsNode a.max_nodes a.nodes c (first left) (first xs)
      → Ahead a.max_nodes a.nodes c.ptr xs
      → IsOther c.ptr xs
      → Ensures
          (link_right c.ptr k r (record a { free_stack = stack; nodes = taken_nodes a r }))
          (LinkTo a c k r left xs stack)
  unfolding link_right
  link_right-LinkTo [] here ahead apart =
      let ne : c.ptr ≢ r =
        ne_of_valid a.nodes c.ptr r (ap (λ x. x.valid) here.holds) taken.was_unused in
      let c_r : (c.ptr == r) ≡ false = ground arith in
      let r_c : (r == c.ptr) ≡ false = ground arith in
      let r_r : (r == r) ≡ true = ground arith in
      let c_c : (c.ptr == c.ptr) ≡ true = ground arith in
      let start : add64 c.start k ≡ c.start + k = omega arith in
      let size : sub64 c.npages k ≡ c.npages - k = omega arith in
      rw (c_r, here.holds, r_r)
        (
          refl,
          (
            _,
            refl,
            record {
              node_left = rw (c_c, c_r, here.holds);
              node_right = rw (r_c, r_r, start, size);
              node_next = tt;
              others = λ q nr nc nx. rw (==-false q c.ptr nc, ==-false q r nr);
            },
          ),
        )
  link_right-LinkTo (d ∷ ds) here ahead apart =
      let ne : c.ptr ≢ r =
        ne_of_valid a.nodes c.ptr r (ap (λ x. x.valid) here.holds) taken.was_unused in
      let next = ahead.0 in
      let d_ne : d.ptr ≢ r =
        ne_of_valid a.nodes d.ptr r (ap (λ x. x.valid) next.holds) taken.was_unused in
      let some_next : (d.ptr == 0) ≡ false = ground (arith, next.ne_null) in
      let c_r : (c.ptr == r) ≡ false = ground arith in
      let r_c : (r == c.ptr) ≡ false = ground arith in
      let d_r : (d.ptr == r) ≡ false = ground arith in
      let r_d : (r == d.ptr) ≡ false = ground arith in
      let d_c : (d.ptr == c.ptr) ≡ false = ground arith in
      let c_d : (c.ptr == d.ptr) ≡ false = ground arith in
      let r_r : (r == r) ≡ true = ground arith in
      let c_c : (c.ptr == c.ptr) ≡ true = ground arith in
      let d_d : (d.ptr == d.ptr) ≡ true = ground arith in
      let start : add64 c.start k ≡ c.start + k = omega arith in
      let size : sub64 c.npages k ≡ c.npages - k = omega arith in
      rw (c_r, here.holds, r_r, some_next, d_r)
        (
          refl,
          (
            _,
            refl,
            record {
              node_left = rw (c_c, c_d, c_r, here.holds);
              node_right = rw (r_c, r_d, r_r, start, size);
              node_next = rw (d_c, d_d, next.holds);
              others = λ q nr nc nx. rw (==-false q c.ptr nc, ==-false q d.ptr nx, ==-false q r nr);
            },
          ),
        )
