-- ===== src/Vma/Pool.antt =====
-- The nodes that are not in use: those of the static pool are on the stack, and those of the heap
-- are what `operator new` gives.
use unnamed.Prelude.{
  ℕ, suc, ◌+◌, ◌≤◌, ◌<◌, ◌≡◌, ◌≢◌, refl, ap, ◌∙◌, ◌⊎◌, inl, inr, true, false, List, [], ◌∷◌, ltb,
  arith, ◌==◌, All, length,
}
use unnamed.Run.Ensures.{Ensures}
use unnamed.Vma.{Nodes, Allocator, put, blank, from_heap, from_pool, allocate_node}

abbrev pub Distinct : List ℕ → Type 0
Distinct [] = Unit
Distinct (x ∷ xs) = All (λ y. y ≢ x) xs × Distinct xs

-- A node of the pool that is on the stack is not in use.
abbrev pub Unused : (max_nodes : ℕ) → Nodes → List ℕ → Type 0
Unused mx m = All λ i. (i < mx) × ((m (suc i)).valid ≡ false)

pub record IsPool (a : Allocator) : Type 0 where
  pub unused : Unused a.max_nodes a.nodes a.free_stack
  pub distinct : Distinct a.free_stack
  -- the memory allocator calls neither `mmap` nor `munmap`; `new` gives null, or a pointer that is
  -- neither of the pool nor of a live node
  pub fresh :
      (m : Nodes)
      → (a.new_maps m ≡ false)
        × (a.delete_unmaps m ≡ false)
        × ((a.new_node m ≡ 0) ⊎ ((a.max_nodes < a.new_node m) × ((m (a.new_node m)).valid ≡ false)))

-- The pointer `r` was not in use and is on the stack no more.
pub record IsTaken (a : Allocator) (r : ℕ) (stack : List ℕ) : Type 0 where
  pub ne_null : 0 < r
  pub was_unused : (a.nodes r).valid ≡ false
  pub rest : Unused a.max_nodes a.nodes stack
  pub gone : All (λ i. suc i ≢ r) stack
  pub distinct : Distinct stack
  pub one_less : length a.free_stack ≤ length stack + 1

abbrev pub AllocateTo : Allocator → ℕ → Allocator → Type 0
AllocateTo a r a' =
    ((r ≡ 0) × (a.free_stack ≡ []) × (a' ≡ a))
    ⊎ ((stack : List ℕ) × (a'
          ≡ record a { free_stack = stack; nodes = put a.nodes r (blank true (ltb a.max_nodes r)) })
        × IsTaken a r stack)

suc_ne : (i : ℕ) (xs : List ℕ) → All (λ y. y ≢ i) xs → All (λ j. suc j ≢ suc i) xs
suc_ne i [] h = tt
suc_ne i (x ∷ xs) h = (λ e. h.0 (omega arith), suc_ne i xs h.1)

module _ (a : Allocator) (pool : IsPool a) where
  from_heap-AllocateTo :
      a.free_stack ≡ [] → Ensures (from_heap (a.new_node a.nodes) a) (AllocateTo a)
  unfolding from_heap
  from_heap-AllocateTo empty = elim (pool.fresh a.nodes).2 [
    | inl null ↦ rw null (inl (refl, empty, refl))
    | inr (big, dead) ↦
        let some_node : (a.new_node a.nodes == 0) ≡ false = ground arith in
        let dynamic : ltb a.max_nodes (a.new_node a.nodes) ≡ true = ground arith in
        rw some_node (
          inr (
            [],
            rw (dynamic, empty),
            record {
              ne_null = omega arith;
              was_unused = dead;
              rest = tt;
              gone = tt;
              distinct = tt;
              one_less = rw empty (omega arith);
            },
          ))
  ]

  from_pool-AllocateTo :
      (stack : List ℕ)
      → a.free_stack ≡ stack
      → Unused a.max_nodes a.nodes stack
      → Distinct stack
      → Ensures (from_pool stack a) (AllocateTo a)
  unfolding from_pool
  from_pool-AllocateTo [] e u d = rw (pool.fresh a.nodes).0 (from_heap-AllocateTo e)
  from_pool-AllocateTo (i ∷ stack) e u d =
      let static : ltb a.max_nodes (suc i) ≡ false = ground (arith, u.0.0) in
      inr (
        stack,
        rw static,
        record {
          ne_null = omega arith;
          was_unused = u.0.1;
          rest = u.1;
          gone = suc_ne i stack d.0;
          distinct = d.1;
          one_less = rw e (omega arith);
        },
      )

  -- A node is taken from the stack, or, where it is empty, from the heap, or there is none.
  pub allocate_node-AllocateTo : Ensures (allocate_node a) (AllocateTo a)
  unfolding allocate_node
  allocate_node-AllocateTo = from_pool-AllocateTo a.free_stack refl pool.unused pool.distinct

-- The stack stays unused where the writes spare the nodes that are not in use.
pub Unused-frame :
    (mx r : ℕ) (m n : Nodes) (stack : List ℕ)
    → ((q : ℕ) → (m q).valid ≡ false → q ≢ r → n q ≡ m q)
    → All (λ i. suc i ≢ r) stack
    → Unused mx m stack
    → Unused mx n stack
Unused-frame mx r m n [] same g u = tt
Unused-frame mx r m n (i ∷ stack) same g u = (
  (u.0.0, ap (λ x. x.valid) (same (suc i) u.0.1 g.0) ∙ u.0.1),
  Unused-frame mx r m n stack same g.1 u.1,
)
