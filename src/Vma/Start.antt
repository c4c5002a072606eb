-- ===== src/Vma/Start.antt =====
-- `init` of kernel/mm/vma.hpp: the allocator that one free range fills.
use native.Mathlib.Nat.{div-add-mod', mod-lt}
use unnamed.Prelude.{
  ℕ, zero, suc, ◌+◌, ◌-◌, ◌/◌, ◌^◌, ◌≤◌, ◌<◌, ◌≡◌, ◌≢◌, refl, ap, sym, ◌⊎◌, inl, inr, true, false,
  [], ◌∷◌, ltb, arith, ◌==◌, All, Bool-cases, length,
}
use unnamed.Run.Ensures.{Ensures}
use unnamed.Vma.{Nodes, Allocator, page_size, put, blank, allocate_node, from_pool}
use unnamed.Vma.Calls.{reset_nodes, fill_stack, init}
use unnamed.Vma.Zipper.{Cell, free_at}
use unnamed.Vma.Pool.{Unused, Distinct}
use unnamed.Vma.Mark.{within}
use unnamed.Vma.AllocPages.{IsAllocator}

reset_nodes-invalid :
    (n i : ℕ) (m : Nodes) (j : ℕ)
    → ((i ≤ j) × (j < i + n)) ⊎ ((m (suc j)).valid ≡ false)
    → (reset_nodes n i m (suc j)).valid ≡ false
unfolding reset_nodes
reset_nodes-invalid zero i m j (inl h) = absurd (let l = h.0 in let k = h.1 in omega arith)
reset_nodes-invalid zero i m j (inr dead) = dead
reset_nodes-invalid (suc n) i m j h =
    reset_nodes-invalid n (suc i) _ j (elim (Bool-cases (suc j == suc i)) [
      | inl same ↦ inr (rw same refl)
      | inr other ↦ elim h [
        | inl range ↦ let l = range.0 in let k = range.1 in inl (ground arith, ground arith)
        | inr dead ↦ inr (rw other dead)
      ]
    ])

fill_stack-All :
    (mx n i : ℕ) (m : Nodes)
    → i + n ≤ mx
    → ((j : ℕ) → i ≤ j → j < mx → (m (suc j)).valid ≡ false)
    → Unused mx m (fill_stack n i)
unfolding fill_stack
fill_stack-All mx zero i m le dead = tt
fill_stack-All mx (suc n) i m le dead = (
  (omega arith, dead i (omega arith) (omega arith)),
  fill_stack-All mx n (suc i) m (omega arith) (λ j l. dead j (omega arith)),
)

fill_stack-above : (n i j : ℕ) → j < i → All (λ y. y ≢ j) (fill_stack n i)
unfolding fill_stack
fill_stack-above zero i j lt = tt
fill_stack-above (suc n) i j lt =
    (λ e. absurd (omega arith), fill_stack-above n (suc i) j (omega arith))

fill_stack-Distinct : (n i : ℕ) → Distinct (fill_stack n i)
unfolding fill_stack
fill_stack-Distinct zero i = tt
fill_stack-Distinct (suc n) i =
    (fill_stack-above n (suc i) i (omega arith), fill_stack-Distinct n (suc i))

length-fill_stack : (n i : ℕ) → length (fill_stack n i) ≡ n
unfolding fill_stack
length-fill_stack zero i = refl
length-fill_stack (suc n) i = ap suc (length-fill_stack n (suc i))

first_index : (n : ℕ) → 0 < n → fill_stack n 0 ≡ 0 ∷ fill_stack (n - 1) 1
unfolding fill_stack
first_index zero h = absurd (omega arith)
first_index (suc n) h = (let e : suc n - 1 ≡ n = omega arith in rw e refl)

-- The one range of the allocator after `init`.
abbrev pub whole : (size : ℕ) → Cell
whole size = record { ptr = 1; is_free = true; start = 0; npages = size / page_size }

abbrev started : Allocator → (size : ℕ) → Nodes
started a size = put (put (reset_nodes a.max_nodes 0 a.nodes) 1 (blank true false)) 1 (record {
  valid = true;
  dynamic = false;
  is_free = true;
  start = 0;
  npages = size / page_size;
  prev = 0;
  next = 0;
})

-- The allocator is well-formed, and its pages are those of the range, all free.
pub record IsStarted (nodes base size : ℕ) (a' : Allocator) : Type 0 where
  pub good : IsAllocator a' (whole size ∷ [])
  pub base_set : a'.base ≡ base
  pub nodes_left : length a'.free_stack ≡ nodes - 1
  pub pages_set : a'.total_pages ≡ size / page_size
  pub all_free : (q : ℕ) → free_at (whole size ∷ []) q ≡ within 0 a'.total_pages q

module _ (a : Allocator) (base size : ℕ) (some_nodes : 0 < a.max_nodes)
    (unlocked : a.locked ≡ false)
    (fresh : (m : Nodes)
      → (a.new_maps m ≡ false)
        × (a.delete_unmaps m ≡ false)
        × ((a.new_node m ≡ 0)
            ⊎ ((a.max_nodes < a.new_node m) × ((m (a.new_node m)).valid ≡ false))))
    (some_pages : page_size ≤ size) (fits : base + size ≤ 2 ^ 64) where
  -- With a pool that has a node, a lock that is free, a `new` that gives null or a pointer of its own, no calls of `mmap` and `munmap` behind `new` and `delete`, and a range of at
  -- least one page that ends within the address space, `init` leaves the allocator well-formed, with
  -- every page of the range free.
  pub init-IsStarted : Ensures (init base size a) (λ _. IsStarted a.max_nodes base size)
  unfolding init allocate_node from_pool
  init-IsStarted =
      let floor = div-add-mod' size page_size in
      let rest = mod-lt size (let p : 0 < page_size = omega arith in p) in
      let static : ltb a.max_nodes 1 ≡ false = ground arith in
      simp (first_index a.max_nodes some_nodes) (record {
        good = record {
          zipper = record {
            ahead = (
              record {
                ne_null = omega arith;
                holds =
                    ap
                      (λ d. record {
                        valid = true;
                        dynamic = d;
                        is_free = true;
                        start = 0;
                        npages = size / page_size;
                        prev = 0;
                        next = 0;
                      })
                      (sym static);
              },
              tt,
            );
            behind = tt;
            tiles = (refl, omega arith, omega arith);
            tiles_back = refl;
            leads = refl;
          };
          pool = record {
            unused =
                fill_stack-All a.max_nodes (a.max_nodes - 1) 1 (started a size) (omega arith)
                  (λ j l h.
                    let other : (suc j == 1) ≡ false = ground arith in
                    rw other (
                      reset_nodes-invalid a.max_nodes 0 a.nodes j
                        (inl (omega arith, omega arith))));
            distinct = fill_stack-Distinct (a.max_nodes - 1) 1;
            fresh = fresh;
          };
          unlocked = unlocked;
          reach = omega arith;
        };
        base_set = refl;
        nodes_left = length-fill_stack (a.max_nodes - 1) 1;
        pages_set = refl;
        all_free = λ q. ground arith;
      })
