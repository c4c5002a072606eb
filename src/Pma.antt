-- ===== src/Pma.antt =====
-- kernel/mm/pma.hpp and pma.cpp: the physical page allocator, a first-fit free list whose headers
-- (`FreeBlock`: size at offset 0, next at offset 8) lie in the free memory itself. Pointers are
-- addresses of the direct map, 0 is null, and `m_head` is a word at the address `head_addr`.
pub mod Blocks
pub mod FirstFit
pub mod Split
pub mod Alloc
pub mod Handed
pub mod Spec
pub mod Merge
pub mod Absorb
pub mod Coalesce
pub mod Free
pub mod Init
mod Tests
use unnamed.Prelude.{
  ℕ, zero, suc, ◌%◌, Option, none, some, List, [], ◌∷◌, ◌==◌, leb, ltb, if◌then◌else◌,
}
use unnamed.Prelude.Words.{add64, sub64, mul64}
use unnamed.Machine.{
  MemmapEntry, fault, out_of_fuel, Cmd, ◌>>=◌, ◌>>◌, pure, halt, assert, load, store,
  get_memory_slide, page_size,
}
use unnamed.Utils.{align_up}

-- `block->size` and `block->next`
abbrev pub size_of : ℕ → ℕ
size_of block = block

abbrev pub next_of : ℕ → ℕ
next_of block = add64 block 8

-- sizeof(FreeBlock)
abbrev pub header_size : ℕ
header_size = 16

-- The split of a block that is larger than needed: the rest becomes a block in its place.
pub split_block : (current total_needed : ℕ) → Cmd (Unit {0})
split_block current total_needed = do
  addr ← load current
  let next_block = add64 addr total_needed
  old_size ← load (size_of addr)
  store (size_of next_block) (sub64 old_size total_needed)
  again ← load current
  next ← load (next_of again)
  store (next_of next_block) next
  store current next_block

-- `*current = (*current)->next`
pub unlink : (current : ℕ) → Cmd (Unit {0})
unlink current = do addr ← load current; next ← load (next_of addr); store current next

-- The loop of `alloc`; `current` is the address of the pointer that is looked at.
pub alloc_loop : (fuel size current : ℕ) → Cmd ℕ
alloc_loop zero size current = λ _. out_of_fuel
alloc_loop (suc fuel) size current = do
  addr ← load current
  if addr == 0 then pure 0 else do
    let aligned_addr = align_up (add64 addr header_size) page_size
    let total_needed = add64 (sub64 aligned_addr addr) size
    block_size ← load (size_of addr)
    if leb total_needed block_size
        then (do
          (if ltb (add64 total_needed header_size) block_size
              then split_block current total_needed
              else unlink current)
          slide ← get_memory_slide
          pure (sub64 aligned_addr slide))
        else alloc_loop fuel size (next_of addr)

unfoldable pub alloc : (size : ℕ) → Cmd ℕ
unfolding alloc_loop split_block unlink
alloc size k =
    (do assert (size % page_size == 0); alloc_loop k.rounds (align_up size page_size) k.head_addr) k

-- `a->size += b->next->size; b->next = b->next->next;`
pub absorb_next : (a b : ℕ) → Cmd (Unit {0})
absorb_next a b = do
  first ← load (next_of b)
  extra ← load (size_of first)
  old_size ← load (size_of a)
  store (size_of a) (add64 old_size extra)
  second ← load (next_of b)
  third ← load (next_of second)
  store (next_of b) third

-- The inner loop of `coalesce`: whatever begins where `a` ends is absorbed.
pub absorb_loop : (fuel a b : ℕ) → Cmd (Unit {0})
absorb_loop zero a b = λ _. out_of_fuel
absorb_loop (suc fuel) a b = do
  b_addr ← load (next_of b)
  if b_addr == 0 then pure tt else do
    a_size ← load (size_of a)
    if add64 a a_size == b_addr
        then (absorb_next a b >> absorb_loop fuel a b)
        else absorb_loop fuel a b_addr

pub coalesce_loop : (fuel a : ℕ) → Cmd (Unit {0})
coalesce_loop zero a = λ _. out_of_fuel
coalesce_loop (suc fuel) a =
    if a == 0
    then pure tt
    else do absorb_loop fuel a a; next ← load (next_of a); coalesce_loop fuel next

pub coalesce : Cmd (Unit {0})
unfolding coalesce_loop absorb_loop absorb_next
coalesce k = (do head ← load k.head_addr; coalesce_loop k.rounds head) k

-- `block->size = size; block->next = m_head; m_head = block;`, in `free` and in `init`.
pub push_block : (head_addr block size : ℕ) → Cmd (Unit {0})
push_block head_addr block size = do
  store (size_of block) size
  head ← load head_addr
  store (next_of block) head
  store head_addr block

unfoldable pub free : (ptr size : ℕ) → Cmd (Unit {0})
unfolding push_block coalesce
free ptr size k =
    (do
      assert (size % page_size == 0)
      slide ← get_memory_slide
      push_block k.head_addr (sub64 ptr slide) size
      coalesce)
      k

-- The range-for of `init` over the memory map, in which the usable ranges become free blocks.
pub init_loop : (head_addr : ℕ) → List MemmapEntry → Cmd (Unit {0})
init_loop head_addr [] = pure tt
init_loop head_addr (e ∷ es) =
    if e.usable
    then (do
      slide ← get_memory_slide
      push_block head_addr (add64 slide e.base) e.length
      init_loop head_addr es)
    else init_loop head_addr es

-- The assertion that there is a memory map, and `init` on it.
init_from : Option (List MemmapEntry) → (head_addr : ℕ) → Cmd (Unit {0})
init_from none head_addr = halt
init_from (some entries) head_addr = init_loop head_addr entries

pub init_pma : Cmd (Unit {0})
unfolding init_from init_loop push_block
init_pma k = init_from k.memmap k.head_addr k

-- A step of the loop of `get_highest_physical_address`.
higher : ℕ → MemmapEntry → ℕ
higher highest e = if ltb highest (add64 e.base e.length) then add64 e.base e.length else highest

unfoldable pub highest_loop : ℕ → List MemmapEntry → ℕ
unfolding higher
highest_loop highest [] = highest
highest_loop highest (e ∷ es) = highest_loop (higher highest e) es

-- Here the response is read without a test.
highest_from : Option (List MemmapEntry) → Cmd ℕ
highest_from none = λ _. fault
highest_from (some entries) = pure (highest_loop 0 entries)

unfoldable pub get_highest_physical_address : Cmd ℕ
unfolding higher highest_loop highest_from
get_highest_physical_address k = highest_from k.memmap k

unfoldable pub alloc_page : Cmd ℕ
unfolding alloc
alloc_page = alloc page_size

unfoldable pub alloc_pages_continuous : (page_count : ℕ) → Cmd ℕ
unfolding alloc
alloc_pages_continuous page_count = alloc (mul64 page_count page_size)

unfoldable pub dealloc_page : (addr : ℕ) → Cmd (Unit {0})
unfolding free
dealloc_page addr = free addr page_size

unfoldable pub dealloc_pages_continuous : (addr page_count : ℕ) → Cmd (Unit {0})
unfolding free
dealloc_pages_continuous addr page_count = free addr (mul64 page_count page_size)
