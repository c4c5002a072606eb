-- ===== src/Vmm/Walk.antt =====
-- The page walk of the processor, as the specification of `map_virtual`, and what a set of tables
-- in memory has to satisfy.
use unnamed.Prelude.{
  ℕ, zero, suc, ◌+◌, ◌*◌, ◌/◌, ◌%◌, ◌^◌, ◌≤◌, ◌<◌, ◌≡◌, ◌∙◌, true, Option, none, some, List, arith,
  All, Bool-cases, inl, inr, if◌then◌else◌, ap, sym, ◌⊎◌,
}
use unnamed.Prelude.Words.{add64}
use unnamed.Machine.{Boot, Kernel}
use unnamed.Pma.Blocks.{Block, Apart, Misses}
use unnamed.Vmm.Entries.{
  is_present, frame, is_large, IsOpen, allowed, allowed-IsOpen, part_of_large,
}

-- The part of the page number `v` that is above `level` levels of indices.
abbrev pub above : (level v : ℕ) → ℕ
above zero v = v
above (suc l) v = above l v / 512

-- The address of the entry that the page number `v` selects in a table of the level.
abbrev pub entry_at : (level table v : ℕ) → ℕ
entry_at l t v = t + 8 * (above l v % 512)

abbrev pub next_table : (slide entry : ℕ) → ℕ
next_table slide e = add64 (frame e) slide

-- The entry of the page, if the entries on the way are present, with the permissions that these leave;
-- tables of level 0 hold pages, and an entry above them may be one of a large page.
abbrev pub walk : (m : ℕ → ℕ) (slide level table v : ℕ) → Option ℕ
walk m slide zero t v =
    if is_present (m (entry_at zero t v)) then some (m (entry_at zero t v)) else none
walk m slide (suc l) t v =
    let rest = walk m slide l (next_table slide (m (entry_at (suc l) t v))) v in
    if is_present (m (entry_at (suc l) t v))
    then (if is_large (m (entry_at (suc l) t v))
        then some (part_of_large (suc l) (m (entry_at (suc l) t v)) v)
        else allowed (m (entry_at (suc l) t v)) rest)
    else none

-- The translation of a virtual address by the tables at `root`.
unfoldable pub translate : Kernel → (root virt : ℕ) → Option ℕ
translate k root virt = walk k.mem k.memory_slide 3 root (virt / 4096 % 2 ^ 36)

-- A page of 512 words that can be reached and is neither free nor the list head's.
pub record IsTable (b : Boot) (bs : List Block) (t : ℕ) : Type 0 where
  pub aligned : t % 4096 ≡ 0
  pub ne_null : 0 < t
  pub fits : t + 4096 ≤ 2 ^ 64
  pub reach : (w : ℕ) → t ≤ w → w < t + 4096 → b.mapped w ≡ true
  pub apart : All (Apart (t, 4096)) bs
  pub no_head : Misses b.head_addr (t, 4096)

-- Every present entry above the last level leads to a table, takes no permission away, and is not one
-- of a large page.
--
-- Which addresses are tables: the level, and the page numbers that a table is for (those with this
-- number above the level). A table is for one such number only, so no two entries share a table.
abbrev pub Owner : Type 0
Owner = ℕ → Option (ℕ × ℕ)

pub record IsTables (b : Boot) (m : ℕ → ℕ) (bs : List Block) (root : ℕ) (own : Owner) : Type 0 where
  pub top : own root ≡ some (3, 0)
  pub page : (t l p : ℕ) → own t ≡ some (l, p) → IsTable b bs t
  pub child :
      (t l p i : ℕ)
      → own t ≡ some (suc l, p)
      → i < 512
      → is_present (m (t + 8 * i)) ≡ true
      → IsOpen (m (t + 8 * i))
        × (own (next_table b.memory_slide (m (t + 8 * i))) ≡ some (l, p * 512 + i))
  pub slide : b.memory_slide % 4096 ≡ 0

-- Every page is translated as before, from every table that is for it.
abbrev pub SameWalks : Owner → (slide : ℕ) → (ℕ → ℕ) → (ℕ → ℕ) → Type 0
SameWalks own slide m n =
    (t l p v : ℕ)
    → own t ≡ some (l, p)
    → above (suc l) v ≡ p
    → walk n slide l t v ≡ walk m slide l t v

abbrev pub Extends : Owner → Owner → Type 0
Extends own own' = (t : ℕ) (x : ℕ × ℕ) → own t ≡ some x → own' t ≡ some x

module _ (m : ℕ → ℕ) (slide l t v e : ℕ) (at : m (entry_at (suc l) t v) ≡ e)
    (on : is_present e ≡ true) (is : IsOpen e) where
  pub walk-next : walk m slide (suc l) t v ≡ walk m slide l (next_table slide e) v
  walk-next = rw (at, on, is.0) (allowed-IsOpen e (walk m slide l (next_table slide e) v) is)

-- A table of zeros translates nothing.
pub walk-zeros :
    (m : ℕ → ℕ) (slide l t v : ℕ)
    → ((i : ℕ) → i < 512 → m (t + 8 * i) ≡ 0)
    → walk m slide l t v ≡ none
walk-zeros m slide zero t v z = rw (z (v % 512) (omega arith))
walk-zeros m slide (suc l) t v z = rw (z (above (suc l) v % 512) (omega arith))

-- A walk is as before if every entry on the way is, or leads nowhere before and after.
pub walk-frame :
    (b : Boot) (m n : ℕ → ℕ) (bs : List Block) (root : ℕ) (own : Owner) (v : ℕ)
    → IsTables b m bs root own
    → ((t l : ℕ)
        → own t ≡ some (l, above (suc l) v)
        → (n (entry_at l t v) ≡ m (entry_at l t v))
          ⊎ ((walk m b.memory_slide l t v ≡ none) × (walk n b.memory_slide l t v ≡ none)))
    → (l t : ℕ) → own t ≡ some (l, above (suc l) v)
    → walk n b.memory_slide l t v ≡ walk m b.memory_slide l t v
walk-frame b m n bs root own v ts h zero t o = elim (h t zero o) [
  | inl e ↦ rw e
  | inr (x, y) ↦ y ∙ sym x
]
walk-frame b m n bs root own v ts h (suc l) t o = elim (h t (suc l) o) [
  | inl e ↦ elim (Bool-cases (is_present (m (entry_at (suc l) t v)))) [
    | inl on ↦
        let (is, c) =
          ts.child t l (above (suc (suc l)) v) (above (suc l) v % 512) o (omega arith) on in
        let d : above (suc (suc l)) v * 512 + above (suc l) v % 512 ≡ above (suc l) v =
          omega arith in
        rw (e, on, is.0)
          (ap (allowed (m (entry_at (suc l) t v))) (
            walk-frame b m n bs root own v ts h l
              (next_table b.memory_slide (m (entry_at (suc l) t v))) (c ∙ ap (λ q. some (l, q)) d)))
    | inr off ↦ rw (e, off)
  ]
  | inr (x, y) ↦ y ∙ sym x
]
