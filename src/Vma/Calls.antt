-- ===== src/Vma/Calls.antt =====
-- kernel/mm/vma.hpp, the public functions of the allocator, and kernel/mm/vma.cpp.
use unnamed.Prelude.{
  ℕ, zero, suc, ◌/◌, Bool, true, false, ◌&&◌, not, Option, none, some, List, [], ◌∷◌, bit_and, ◌==◌,
  leb, ltb, if◌then◌else◌,
}
use unnamed.Prelude.Words.{add64, sub64}
use unnamed.Run.{ok, out_of_fuel, ◌>>=◌, ◌>>◌, pure, assert}
use unnamed.Vma.{
  page_size, Nodes, Act, put, node, change, lock, unlock, align_up, vaddr_from_page,
  page_from_vaddr, allocate_node, split_node_left, coalesce,
}

-- The loop that readies the static nodes, from the node `i` on.
unfoldable pub reset_nodes : (count i : ℕ) → Nodes → Nodes
reset_nodes zero i m = m
reset_nodes (suc n) i m =
    reset_nodes n (suc i)
      (put m (suc i) (record (m (suc i)) { valid = false; dynamic = false; next = 0; prev = 0 }))

-- `MAX_NODES - 1 - i` for the next `i`, pushed: the last, which is 0, on top.
unfoldable pub fill_stack : (count i : ℕ) → List ℕ
fill_stack zero i = []
fill_stack (suc n) i = i ∷ fill_stack n (suc i)

unfoldable pub init : (base size : ℕ) → Act (Unit {0})
unfolding reset_nodes fill_stack allocate_node
init base size a =
    (do
      n ← allocate_node
      assert (not (n == 0))
      change n
          λ x. record x { start = 0; npages = size / page_size; is_free = true; prev = 0; next = 0 }
      (λ b. ok tt (record b { head = n })))
      (record a {
        base = base;
        total_pages = size / page_size;
        nodes = reset_nodes a.max_nodes 0 a.nodes;
        free_stack = fill_stack a.max_nodes 0;
      })

-- What a visit of a node leads to: the address of the pages, or the node to go on behind.
pub data Visit : Type 0 where
  found : (vaddr : ℕ) → Visit
  skip : (cur : ℕ) → Visit

unfoldable pub take : (cur : ℕ) → Act Visit
take cur = do
  x ← node cur
  change cur λ n. record n { is_free = false }
  (λ a. ok (found (vaddr_from_page a x.start)) a)

-- The node begins at the aligned page; what is too much on the right is split off.
unfoldable pub take_left : (npages cur : ℕ) → Act Visit
unfolding take
take_left npages cur = do
  x ← node cur
  if ltb npages x.npages
      then (do
        right ← split_node_left cur npages
        if right == cur then pure (skip cur) else take cur)
      else take cur

-- The padding on the left is split off.
unfoldable pub take_padded : (npages cur padding : ℕ) → Act Visit
unfolding take_left
take_padded npages cur padding = if padding == 0 then take_left npages cur else (do
  right ← split_node_left cur padding
  if right == cur then pure (skip cur) else take_left npages right)

unfoldable pub visit : (npages align_pages cur : ℕ) → Act Visit
unfolding take_padded
visit npages align_pages cur = do
  x ← node cur
  if x.is_free && leb npages x.npages
      then (do
        let padding = sub64 (align_up x.start align_pages) x.start
        if leb (add64 padding npages) x.npages
            then take_padded npages cur padding
            else pure (skip cur))
      else pure (skip cur)

unfoldable pub alloc_loop : (fuel npages align_pages cur : ℕ) → Act (Option ℕ)
unfolding visit
alloc_loop zero npages align_pages cur = λ _. out_of_fuel
alloc_loop (suc fuel) npages align_pages cur = if cur == 0 then pure none else do
  v ← visit npages align_pages cur
  elim v [
    | found vaddr ↦ pure (some vaddr)
    | skip last ↦ do x ← node last; alloc_loop fuel npages align_pages x.next
  ]

-- `fuel` bounds the rounds of the loop.
unfoldable pub alloc_pages : (fuel npages align_pages : ℕ) → Act (Option ℕ)
unfolding alloc_loop
alloc_pages fuel npages align_pages = if npages == 0 then pure none else do
  assert (bit_and align_pages (sub64 align_pages 1) == 0 && leb 1 align_pages)
  lock
  a ← λ b. ok b b
  result ← alloc_loop fuel npages align_pages a.head
  unlock
  pure result

unfoldable pub free_exact : (cur : ℕ) → Act Bool
unfolding coalesce
free_exact cur = do change cur λ n. record n { is_free = true }; coalesce cur; pure true

unfoldable pub free_checked : (npages working : ℕ) → Act Bool
unfolding free_exact
free_checked npages working = do x ← node working; assert (x.npages == npages); free_exact working

-- What is left of the pages is split off, `left` pages.
unfoldable pub free_left : (npages working left : ℕ) → Act Bool
unfolding free_checked
free_left npages working left = if left == 0 then free_checked npages working else (do
  mid ← split_node_left working left
  if mid == working then pure false else free_checked npages mid)

-- What is right of the pages is split off, `right` pages.
unfoldable pub free_inside : (npages working left right : ℕ) → Act Bool
unfolding free_left
free_inside npages working left right = do
  x ← node working
  if right == 0 then free_left npages working left else (do
    tail ← split_node_left working (sub64 x.npages right)
    if tail == working then pure false else free_left npages working left)

-- The visit of a node by `free`: the result, if the pages begin in the node.
unfoldable pub free_visit : (npages page cur : ℕ) → Act (Option Bool)
unfolding free_inside
free_visit npages page cur a =
    let x = a.nodes cur in
    if not x.is_free && x.start == page && x.npages == npages
    then (do done ← free_exact cur; pure (some done)) a
    else if not x.is_free && leb x.start page && ltb page (add64 x.start x.npages)
    then if ltb (add64 x.start x.npages) (add64 page npages)
      then ok (some false) a
      else (do
        done ←
            free_inside npages cur (sub64 page x.start)
              (sub64 (add64 x.start x.npages) (add64 page npages))
        pure (some done))
          a
    else ok none a

unfoldable pub free_loop : (fuel npages page cur : ℕ) → Act Bool
unfolding free_visit
free_loop zero npages page cur = λ _. out_of_fuel
free_loop (suc fuel) npages page cur = if cur == 0 then pure false else do
  result ← free_visit npages page cur
  elim result [ some done ↦ pure done | none ↦ do x ← node cur; free_loop fuel npages page x.next ]

unfoldable pub free : (fuel vaddr npages : ℕ) → Act Bool
unfolding free_loop
free fuel vaddr npages = if npages == 0 then pure true else do
  a ← λ b. ok b b
  if leb a.total_pages (page_from_vaddr a vaddr) then pure false else do
    lock
    result ← free_loop fuel npages (page_from_vaddr a vaddr) a.head
    unlock
    pure result

unfoldable pub sum_free : (fuel sum cur : ℕ) → Act ℕ
sum_free zero sum cur = λ _. out_of_fuel
sum_free (suc fuel) sum cur =
    if cur == 0
    then pure sum
    else do x ← node cur; sum_free fuel (if x.is_free then add64 sum x.npages else sum) x.next

unfoldable pub free_pages_total : (fuel : ℕ) → Act ℕ
unfolding sum_free
free_pages_total fuel a = sum_free fuel 0 a.head a
