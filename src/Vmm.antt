-- ===== src/Vmm.antt =====
-- kernel/mm/vmm.hpp and vmm.cpp: the four-level page tables. A table is a page of 512 entries in
-- the direct map; an entry is a word with the physical page of the next table and permission bits.
pub mod Entries
pub mod Walk
mod Frames
pub mod NewTable
pub mod Grown
pub mod Linking
mod Tables
pub mod Descent
mod Leaf
pub mod Outcome
pub mod Mapping
pub mod Tests
pub mod Indices
use unnamed.Prelude.{
  ℕ, zero, suc, ◌*◌, ◌/◌, ◌^◌, Bool, true, false, ◌||◌, ◌∷◌, not, bit_and, bit_or, ◌==◌,
  if◌then◌else◌,
}
use unnamed.Prelude.Words.{add64, sub64}
use unnamed.Helpers.{check_aligned, is_flag_set}
use unnamed.Machine.{
  Kernel, incorrect_parameter, ok, Cmd, ◌>>=◌, ◌>>◌, pure, load, store, set_error, get_memory_slide,
  page_size,
}
use unnamed.Pma.{alloc_page}

-- MapFlags
abbrev pub map_write : ℕ
map_write = 2

abbrev pub map_execute : ℕ
map_execute = 4

abbrev pub map_user : ℕ
map_user = 8

abbrev pub map_cache_disable : ℕ
map_cache_disable = 16

abbrev pub map_write_through : ℕ
map_write_through = 32

-- PageBits
abbrev pub bit_present : ℕ
bit_present = 1

abbrev pub bit_read_write : ℕ
bit_read_write = 2

abbrev pub bit_user : ℕ
bit_user = 4

abbrev pub bit_write_through : ℕ
bit_write_through = 8

abbrev pub bit_cache_disable : ℕ
bit_cache_disable = 16

abbrev pub bit_no_execute : ℕ
bit_no_execute = 2 ^ 63

abbrev pub ppn_mask : ℕ
ppn_mask = 0x000f_ffff_ffff_f000

-- `va >> shift & 0x1FF`
pub va_index : (shift va : ℕ) → ℕ
va_index shift va = bit_and (va / 2 ^ shift) 0x1ff

-- `memset` of a page to zero, by words.
pub zero_words : (count a : ℕ) → Cmd (Unit {0})
zero_words zero a = pure tt
zero_words (suc n) a = store a 0 >> zero_words n (add64 a 8)

-- The page at `phys`, its first words zeroed: its address in the direct map and `phys`, or (0, 0)
-- for no page.
pub zero_page : (words phys : ℕ) → Cmd (ℕ × ℕ)
unfolding zero_words
zero_page words phys = if phys == 0 then pure (0, 0) else do
  slide ← get_memory_slide
  let virt = add64 phys slide
  zero_words words virt
  pure (virt, phys)

pub alloc_table : Cmd (ℕ × ℕ)
unfolding zero_page
alloc_table = do phys ← alloc_page; zero_page 512 phys

-- The entry is made to lead to the new table, if there is one.
pub link_table : (entry : ℕ) → ℕ × ℕ → Cmd ℕ
link_table entry (virt_table, phys_table) = if virt_table == 0 then pure 0 else do
  store entry
      (bit_or (bit_or (bit_or (bit_and phys_table ppn_mask) bit_present) bit_read_write) bit_user)
  pure virt_table

-- The table that the entry at `entry` leads to, made if there is none; 0 if that fails.
pub ensure_table : (entry : ℕ) → Cmd ℕ
unfolding alloc_table link_table
ensure_table entry = do
  old ← load entry
  if bit_and old bit_present == 0
      then (do table ← alloc_table; link_table entry table)
      else do slide ← get_memory_slide; pure (add64 (bit_and old ppn_mask) slide)

-- `entry |= bit` under a test
set_if : Bool → (bit entry : ℕ) → ℕ
set_if test bit entry = if test then bit_or entry bit else entry

pub entry_flags : (flags : ℕ) → ℕ
unfolding set_if is_flag_set
entry_flags flags = set_if (not (is_flag_set flags map_execute)) bit_no_execute (
    set_if (is_flag_set flags map_cache_disable) bit_cache_disable (
      set_if (is_flag_set flags map_write_through) bit_write_through (
        set_if (is_flag_set flags map_user) bit_user
          (set_if (is_flag_set flags map_write) bit_read_write bit_present))))

-- `invlpg`, if the tables at the physical address `root` are those in use.
pub invalidate : (root virt : ℕ) → Cmd Bool
invalidate root virt k =
    if k.cr3 == root then ok true (record k { invalidated = virt ∷ k.invalidated }) else ok true k

-- The entry of the page, and the invalidation if the tables are those in use.
pub finish : (pagemap_virtual virt phys flags pt : ℕ) → Cmd Bool
unfolding va_index entry_flags invalidate
finish pagemap_virtual virt phys flags pt = do
  store (add64 pt (8 * va_index 12 virt)) (bit_or (bit_and phys ppn_mask) (entry_flags flags))
  slide ← get_memory_slide
  invalidate (sub64 pagemap_virtual slide) virt

pub refuse : Cmd Bool
refuse = do set_error incorrect_parameter; pure false

-- `auto *table = ...; if (!table) return false;` before the rest.
pub with_table : Cmd ℕ → (ℕ → Cmd Bool) → Cmd Bool
with_table table rest = do address ← table; if address == 0 then pure false else rest address

-- The walk from the root, where the parameters are in order.
pub walk_plank : (pagemap_virtual virt phys flags : ℕ) → Cmd Bool
unfolding va_index ensure_table finish with_table
walk_plank pagemap_virtual virt phys flags =
    with_table (ensure_table (add64 pagemap_virtual (8 * va_index 39 virt))) λ pdpt.
      with_table (ensure_table (add64 pdpt (8 * va_index 30 virt))) λ pd.
        with_table (ensure_table (add64 pd (8 * va_index 21 virt)))
          λ pt. finish pagemap_virtual virt phys flags pt

unfoldable pub map_virtual : (pagemap_virtual virt phys flags : ℕ) → Cmd Bool
unfolding walk_plank refuse check_aligned
map_virtual pagemap_virtual virt phys flags =
    if virt == 0 || not (check_aligned virt page_size)
    then refuse
    else if phys == 0 || not (check_aligned phys page_size)
    then refuse
    else if pagemap_virtual == 0
    then refuse
    else walk_plank pagemap_virtual virt phys flags
