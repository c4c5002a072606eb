-- ===== src/Pma/Spec.antt =====
-- The free list of a running kernel, and `alloc` on it: refinement of first fit, safety, and when
-- it fails.
use mathlib.Core.Path.{subst}
use unnamed.Prelude.{
  ℕ, ◌+◌, ◌%◌, ◌^◌, ◌≤◌, ◌<◌, ◌≡◌, refl, sym, ◌∙◌, ◌⊎◌, inl, inr, true, false, Option, none, some,
  List, [], ◌∷◌, arith, length, All, ◌==◌, ◌↔◌, leb, Bool-cases,
}
use unnamed.Prelude.Words.{sub64}
use unnamed.Helpers.Align.{utils_align_up-div}
use unnamed.Utils
use unnamed.Machine.{Kernel, accessible}
use unnamed.Machine.Ensures.{Ensures, Ensures-mono}
use unnamed.Pma.{alloc}
use unnamed.Pma.Blocks.{Block, Chain, Outside, Outside-of_Apart_one, AreBlocks}
use unnamed.Pma.FirstFit.{first_fit, keep, needed}
use unnamed.Pma.Handed.{Handed, first_fit-Handed}
use unnamed.Pma.Split.{Allocated, SameElsewhere}
use unnamed.Pma.Alloc.{first_fit-alloc}

-- The blocks are those that the kernel's list leads through. The word of `m_head` is on none of
-- them, and the loops are given enough rounds.
pub record IsFreeList (k : Kernel) (bs : List Block) : Type 0 where
  pub blocks : AreBlocks k.boot bs
  pub reach : accessible k.boot k.head_addr ≡ true
  pub out : Outside k.head_addr bs
  pub chain : Chain k.mem (k.mem k.head_addr) bs
  pub enough : length bs < k.rounds

-- A size that the callers pass: whole pages, and not so large that sums wrap.
pub record IsSize (size : ℕ) : Type 0 where
  pub whole : size % 4096 ≡ 0
  pub small : size + 2 ^ 14 ≤ 2 ^ 64

align_up_whole : (size : ℕ) → IsSize size → Utils.align_up size 4096 ≡ size
align_up_whole size is =
    utils_align_up-div 12 size (omega arith) (omega (arith, is.small)) ∙ omega (arith, is.whole)

-- Every block is too small for the request with its alignment gap.
abbrev pub TooSmall : (size : ℕ) → List Block → Type 0
TooSmall size = All λ (a, s). s < needed size a

none_of_keep : (x : Block) (o : Option (ℕ × List Block)) → keep x o ≡ none → o ≡ none
none_of_keep x none e = refl
none_of_keep x (some (p, left)) e = cc

some-ne-none : {x : ℕ × List Block} → ¬ (some x ≡ none)
some-ne-none e = cc

-- First fit fails exactly when every block is too small.
pub first_fit-none_iff :
    (size : ℕ) (bs : List Block) → (first_fit size bs ≡ none) ↔ TooSmall size bs
unfolding first_fit
first_fit-none_iff size [] = (λ e. tt, λ h. refl)
first_fit-none_iff size ((a, s) ∷ bs) =
    let (to, from) = first_fit-none_iff size bs in
    (
      λ e. elim (Bool-cases (leb (needed size a) s)) [
        | inl fit ↦ absurd (some-ne-none (rw fit at e))
        | inr more ↦ (ground arith, to (none_of_keep (a, s) (first_fit size bs) (rw more at e)))
      ],
      λ h. let more : leb (needed size a) s ≡ false = ground (arith, h.0) in rw (more, from h.1),
    )

-- A request was served with the pages at `p` of the direct map, and `left` is what is left.
pub record IsServed (k : Kernel) (bs : List Block) (size r : ℕ) (k' : Kernel) (p : ℕ)
    (left : List Block) : Type 0 where
  pub address : r ≡ sub64 p k.memory_slide
  pub handed : Handed k.boot bs size p left
  pub list : IsFreeList k' left
  pub same : SameElsewhere k.head_addr bs k.mem k'.mem
  pub rest : k' ≡ record k { mem = k'.mem }

-- Either no block is large enough, and nothing has changed, or the request is served.
abbrev pub AllocPost : Kernel → List Block → (size r : ℕ) → Kernel → Type 0
AllocPost k bs size r k' =
    (TooSmall size bs × (r ≡ 0) × (k' ≡ k))
    ⊎ ((¬ TooSmall size bs) × ((p : ℕ) × (left : List Block) × IsServed k bs size r k' p left))

module _ (k : Kernel) (bs : List Block) (size : ℕ) (is : IsFreeList k bs) where
  AllocPost-of_Allocated :
      (o : Option (ℕ × List Block))
      → size % 4096 ≡ 0
      → first_fit size bs ≡ o
      → (r : ℕ) (k' : Kernel) → Allocated k.head_addr bs k o r k'
      → AllocPost k bs size r k'
  AllocPost-of_Allocated none whole e r k' h = inl ((first_fit-none_iff size bs).0 e, h.0, h.1)
  AllocPost-of_Allocated (some (p, left)) whole e r k' (address, chain, same, rest) =
      let handed : Handed k.boot bs size p left =
        first_fit-Handed k.boot size whole bs p left is.blocks e in
      let list : IsFreeList (record k { mem = k'.mem }) left = record {
        blocks = handed.blocks;
        reach = is.reach;
        out =
            (Outside-of_Apart_one k.head_addr left).0
              (handed.covered (k.head_addr, 1) ((Outside-of_Apart_one k.head_addr bs).1 is.out));
        chain = chain;
        enough = omega (arith, handed.shorter, is.enough);
      } in
      inr (
        λ few. some-ne-none (sym e ∙ (first_fit-none_iff size bs).1 few),
        (
          p,
          left,
          record {
            address = address;
            handed = handed;
            list = subst (λ q. IsFreeList q left) (sym rest) list;
            same = same;
            rest = rest;
          },
        ),
      )

module _ (k : Kernel) (bs : List Block) (size : ℕ) (is : IsFreeList k bs)
    (sized : IsSize size) where
  -- `alloc` does what first fit does on the blocks of the list: on a list in order, for whole pages
  -- whose sums do not wrap, it returns the address that first fit gives less the slide and leaves
  -- the blocks that first fit leaves, or returns 0 and changes nothing where first fit finds none.
  pub alloc-first_fit : Ensures (alloc size k) (Allocated k.head_addr bs k (first_fit size bs))
  unfolding alloc
  alloc-first_fit =
      let whole : (size % 4096 == 0) ≡ true = ground (arith, sized.whole) in
      rw (whole, align_up_whole size sized)
        (first_fit-alloc size sized.whole sized.small k.rounds k.head_addr bs k is.enough is.blocks
          is.reach is.out is.chain)

  -- `alloc` always returns. If every block is too small for the size and the gap up to a page
  -- boundary, it returns 0 with nothing changed. If not, it returns the physical address of whole
  -- free pages that no block left on the list shares a word with; the list is in order again, and
  -- no word but the list head's and those of the blocks has changed. This is for a kernel whose
  -- list is in order, and a size of whole pages below 2^64 - 2^14.
  pub alloc-AllocPost : Ensures (alloc size k) (AllocPost k bs size)
  alloc-AllocPost =
      Ensures-mono (alloc size k) _ _
        (AllocPost-of_Allocated k bs size is (first_fit size bs) sized.whole refl) alloc-first_fit
