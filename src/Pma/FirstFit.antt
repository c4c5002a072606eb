-- ===== src/Pma/FirstFit.antt =====
-- The specification of `alloc`: first fit on a list of blocks, in unbounded arithmetic.
use unnamed.Prelude.{
  ℕ, ◌+◌, ◌-◌, ◌*◌, ◌/◌, Option, none, some, List, [], ◌∷◌, leb, ltb, if◌then◌else◌,
}
use unnamed.Pma.Blocks.{Block}

-- The first page boundary behind the header of a block at `a`.
abbrev pub page_above : ℕ → ℕ
page_above a = (a + 16 + 4096 - 1) / 4096 * 4096

-- What an allocation takes of a block at `a`: the gap up to that boundary, and the pages.
abbrev pub needed : (size a : ℕ) → ℕ
needed size a = page_above a - a + size

-- What is left of the first block that is large enough: its tail, unless that has no room for a
-- header and a byte.
abbrev pub remainder : (size : ℕ) → Block → List Block → List Block
remainder size (a, s) rest =
    if ltb (needed size a + 16) s then (a + needed size a, s - needed size a) ∷ rest else rest

abbrev pub keep : Block → Option (ℕ × List Block) → Option (ℕ × List Block)
keep x none = none
keep x (some (p, rest)) = some (p, x ∷ rest)

-- The address that is handed out, and the blocks that are left.
unfoldable pub first_fit : (size : ℕ) → List Block → Option (ℕ × List Block)
first_fit size [] = none
first_fit size ((a, s) ∷ rest) =
    if leb (needed size a) s
    then some (page_above a, remainder size (a, s) rest)
    else keep (a, s) (first_fit size rest)
