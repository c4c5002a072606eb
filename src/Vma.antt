-- ===== src/Vma.antt =====
-- kernel/mm/vma.hpp: the allocator of virtual address ranges, a doubly linked list of page ranges
-- whose nodes come from a static pool and, when that is empty, from `operator new`. The static node
-- `i` is the pointer i + 1, and 0 is null; a larger pointer is a node of the heap.
pub mod Zipper
pub mod Pool
pub mod Link
pub mod Split
pub mod Takeover
pub mod Absorb
pub mod Coalesce
pub mod Mark
pub mod Fit
pub mod AllocLoop
pub mod AllocPages
pub mod FreeParts
pub mod FreePages
pub mod FreeCall
pub mod Start
pub mod Held
pub mod Leases
pub mod Calls
pub mod Tests
use unnamed.Prelude.{
  ℕ, zero, suc, ◌+◌, ◌-◌, ◌/◌, Bool, true, false, ◌&&◌, not, Option, none, some, List, [], ◌∷◌,
  bit_and, ◌==◌, leb, ltb, if◌then◌else◌,
}
use unnamed.Prelude.Words.{add64, sub64, mul64, not64}
use unnamed.Run.{Outcome, ok, halted, out_of_fuel, Action, ◌>>=◌, ◌>>◌, pure, halt, assert}

abbrev pub page_size : ℕ
page_size = 4096

pub record Node : Type 0 where
  pub valid : Bool
  pub dynamic : Bool
  pub is_free : Bool
  pub start : ℕ
  pub npages : ℕ
  pub prev : ℕ
  pub next : ℕ

abbrev pub Nodes : Type 0
Nodes = ℕ → Node

-- `new_node` is what `new (std::nothrow) Node()` gives: null, or a pointer. `new_maps` says whether
-- the memory allocator behind it calls `mmap` for that, and `delete_unmaps` whether it calls
-- `munmap` for a `delete`.
pub record Allocator : Type 0 where
  pub max_nodes : ℕ
  pub new_node : Nodes → ℕ
  pub new_maps : Nodes → Bool
  pub delete_unmaps : Nodes → Bool
  pub nodes : Nodes
  -- `free_stack_` up to `free_stack_top_`, the top first
  pub free_stack : List ℕ
  pub head : ℕ
  pub base : ℕ
  pub total_pages : ℕ
  pub locked : Bool

abbrev pub Act : Type 0 → Type 0
Act A = Action Allocator A

abbrev pub put : Nodes → (p : ℕ) → Node → Nodes
put m p n q = if q == p then n else m q

abbrev pub node : (p : ℕ) → Act Node
node p a = ok (a.nodes p) a

-- `p->field = value`, for a change of some fields
abbrev pub change : (p : ℕ) → (Node → Node) → Act (Unit {0})
change p f a = ok tt (record a { nodes = put a.nodes p (f (a.nodes p)) })

abbrev pub blank : (valid dynamic : Bool) → Node
blank valid dynamic = record {
  valid = valid;
  dynamic = dynamic;
  is_free = false;
  start = 0;
  npages = 0;
  prev = 0;
  next = 0;
}

-- A lock that is held is waited for without end.
unfoldable pub lock : Act (Unit {0})
lock a = if a.locked then out_of_fuel else ok tt (record a { locked = true })

unfoldable pub unlock : Act (Unit {0})
unlock a = ok tt (record a { locked = false })

unfoldable pub align_up : (v align : ℕ) → ℕ
align_up v align =
    if leb align 1 then v else bit_and (sub64 (add64 v align) 1) (not64 (sub64 align 1))

unfoldable pub vaddr_from_page : Allocator → (page : ℕ) → ℕ
vaddr_from_page a page = add64 a.base (mul64 page page_size)

unfoldable pub page_from_vaddr : Allocator → (vaddr : ℕ) → ℕ
page_from_vaddr a vaddr = sub64 vaddr a.base / page_size

from_heap : (p : ℕ) → Act ℕ
from_heap p a =
    if p == 0 then ok 0 a else ok p (record a { nodes = put a.nodes p (blank true true) })

-- The callers hold the lock, so that `mmap` waits for it without end.
from_pool : List ℕ → Act ℕ
from_pool [] a = if a.new_maps a.nodes then out_of_fuel else from_heap (a.new_node a.nodes) a
from_pool (idx ∷ stack) a =
    ok (suc idx) (record a { free_stack = stack; nodes = put a.nodes (suc idx) (blank true false) })

pub allocate_node : Act ℕ
unfolding from_heap from_pool
allocate_node a = from_pool a.free_stack a

-- A node of the heap is deleted, and `munmap` halts the machine; one of the pool returns to the
-- stack.
pub free_node : (n : ℕ) → Act (Unit {0})
free_node n a =
    if n == 0
    then ok tt a
    else if (a.nodes n).dynamic
    then (if a.delete_unmaps a.nodes
        then halted
        else ok tt (record a { nodes = put a.nodes n (blank false false) }))
    else if ltb (n - 1) a.max_nodes
    then ok tt (record a {
      nodes =
          put a.nodes n (record (a.nodes n) { valid = false; is_free = false; next = 0; prev = 0 });
      free_stack = (n - 1) ∷ a.free_stack;
    })
    else halted

-- The right node is filled and linked in behind `orig`.
pub link_right : (orig left_npages right : ℕ) → Act ℕ
link_right orig left_npages right = do
  o ← node orig
  change right λ r. record r {
    valid = true;
    is_free = o.is_free;
    start = add64 o.start left_npages;
    npages = sub64 o.npages left_npages;
    next = o.next;
    prev = orig;
  }
  (if o.next == 0 then pure tt else change o.next λ n. record n { prev = right })
  change orig λ n. record n { next = right; npages = left_npages }
  pure right

unfoldable pub split_node_left : (orig left_npages : ℕ) → Act ℕ
unfolding allocate_node link_right
split_node_left orig left_npages a =
    if orig == 0
    then ok 0 a
    else if left_npages == 0
    then ok orig a
    else if leb (a.nodes orig).npages left_npages
    then ok orig a
    else (do
      right ← allocate_node
      if right == 0 then pure orig else link_right orig left_npages right)
        a

-- `p` takes over the pages of `n`, the node behind it, which is freed.
pub absorb : (p n : ℕ) → Act (Unit {0})
unfolding free_node
absorb p n = do
  x ← node n
  change p λ q. record q { npages = add64 q.npages x.npages; next = x.next }
  (if x.next == 0 then pure tt else change x.next λ q. record q { prev = p })
  free_node n

-- The node that `n` is part of after the merge with the previous one.
pub merge_previous : (n : ℕ) → Act ℕ
unfolding absorb
merge_previous n = do
  x ← node n
  if x.prev == 0
      then pure n
      else do p ← node x.prev; if p.is_free then (absorb x.prev n >> pure x.prev) else pure n

pub merge_next : (n : ℕ) → Act (Unit {0})
unfolding absorb
merge_next n = do
  x ← node n
  if x.next == 0
      then pure tt
      else do nx ← node x.next; if nx.is_free then absorb n x.next else pure tt

pub coalesce : (n : ℕ) → Act (Unit {0})
unfolding merge_previous merge_next
coalesce n = if n == 0 then pure tt else do p ← merge_previous n; merge_next p
