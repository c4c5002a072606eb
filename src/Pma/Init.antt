-- ===== src/Pma/Init.antt =====
-- `init`: the usable ranges of the memory map become the free list. And the highest address.
use mathlib.Core.Path.{subst}
use unnamed.Prelude.{
  ℕ, ◌≤◌, ◌<◌, ◌≡◌, refl, sym, ◌∙◌, ◌⊎◌, true, some, List, [], ◌∷◌, arith, length, All, Bool-cases,
  inl, inr, if◌then◌else◌,
}
use unnamed.Prelude.Words.{add64}
use unnamed.Machine.{Boot, Kernel, MemmapEntry, accessible, ok}
use unnamed.Machine.Ensures.{Ensures, Ensures-mono}
use unnamed.Pma.{
  init_loop, init_from, init_pma, higher, highest_loop, highest_from, get_highest_physical_address,
}
use unnamed.Pma.Blocks.{Block, Outside, AreBlocks}
use unnamed.Pma.Split.{SameElsewhere}
use unnamed.Pma.Spec.{IsFreeList}
use unnamed.Pma.Free.{IsNew, pushed_mem, push_block-ok, pushed-same, pushed-IsFreeList}

-- The blocks of the usable ranges, the last in front.
abbrev pub usable_blocks : (slide : ℕ) → List MemmapEntry → List Block → List Block
usable_blocks slide [] bs = bs
usable_blocks slide (e ∷ es) bs =
    usable_blocks slide es (if e.usable then (add64 slide e.base, e.length) ∷ bs else bs)

-- The blocks may lie in the kernel's memory together.
pub record Fits (b : Boot) (bs : List Block) : Type 0 where
  pub blocks : AreBlocks b bs
  pub out : Outside b.head_addr bs
  pub enough : length bs < b.rounds

Fits-tail : (b : Boot) (x : Block) (bs : List Block) → Fits b (x ∷ bs) → Fits b bs
Fits-tail b x bs f = record {
  blocks = record { each = f.blocks.each.1; apart = f.blocks.apart.1 };
  out = f.out.1;
  enough = omega (arith, f.enough);
}

Fits-usable_blocks :
    (b : Boot) (es : List MemmapEntry) (bs : List Block)
    → Fits b (usable_blocks b.memory_slide es bs)
    → Fits b bs
Fits-usable_blocks b [] bs f = f
Fits-usable_blocks b (e ∷ es) bs f = elim (Bool-cases e.usable) [
  | inl u ↦ Fits-tail b _ bs (Fits-usable_blocks b es _ (rw u at f))
  | inr u ↦ Fits-usable_blocks b es bs (rw u at f)
]

Outside-usable_blocks :
    (slide w : ℕ) (es : List MemmapEntry) (bs : List Block)
    → Outside w (usable_blocks slide es bs)
    → Outside w bs
Outside-usable_blocks slide w [] bs o = o
Outside-usable_blocks slide w (e ∷ es) bs o = elim (Bool-cases e.usable) [
  | inl u ↦ (Outside-usable_blocks slide w es ((add64 slide e.base, e.length) ∷ bs) (rw u at o)).1
  | inr u ↦ Outside-usable_blocks slide w es bs (rw u at o)
]

-- The free list holds the usable blocks, and memory has changed only there and at the list head.
abbrev pub Initialized : Kernel → List Block → Kernel → Type 0
Initialized k bs k' =
    IsFreeList k' bs × SameElsewhere k.head_addr bs k.mem k'.mem × (k' ≡ record k { mem = k'.mem })

init_loop-ok :
    (es : List MemmapEntry) (bs : List Block) (k : Kernel)
    → IsFreeList k bs
    → Fits k.boot (usable_blocks k.memory_slide es bs)
    → Ensures (init_loop k.head_addr es k) (λ _. Initialized k (usable_blocks k.memory_slide es bs))
unfolding init_loop
init_loop-ok [] bs k is f = (is, λ w n o. refl, refl)
init_loop-ok (e ∷ es) bs k is f = elim (Bool-cases e.usable) [
  | inl u ↦
      let g = Fits-usable_blocks k.boot es _ (rw u at f) in
      let new : IsNew k bs (add64 k.memory_slide e.base) e.length = record {
        block = g.blocks.each.0;
        apart = g.blocks.apart.0;
        no_head = g.out.0;
        space = omega (arith, g.enough);
      } in
      let x : Block = (add64 k.memory_slide e.base, e.length) in
      rw (u, push_block-ok k bs is _ _ new)
        (Ensures-mono (init_loop k.head_addr es (record k { mem = pushed_mem k bs is _ _ new })) _ _
          (λ _ k' (list, same, rest). (
            list,
            λ w n o.
                same w n o
                ∙ pushed-same k bs is _ _ new w n
                    (Outside-usable_blocks k.memory_slide w es (x ∷ bs) o).0,
            rest,
          ))
          (init_loop-ok es (x ∷ bs) (record k { mem = pushed_mem k bs is _ _ new })
            (pushed-IsFreeList k bs is _ _ new) (rw u at f)))
  | inr u ↦ rw u (init_loop-ok es bs k is (rw u at f))
]

-- On an empty list head, `init` turns the usable ranges of the memory map into the free list, the
-- last range in front, if they may lie in memory together. Only memory changes, at the list head and
-- inside the ranges.
pub init_pma-IsFreeList :
    (k : Kernel) (entries : List MemmapEntry)
    → k.memmap ≡ some entries
    → accessible k.boot k.head_addr ≡ true
    → k.mem k.head_addr ≡ 0
    → Fits k.boot (usable_blocks k.memory_slide entries [])
    → Ensures (init_pma k) (λ _. Initialized k (usable_blocks k.memory_slide entries []))
unfolding init_from init_pma
init_pma-IsFreeList k entries e reach null f =
    let none_yet = Fits-usable_blocks k.boot entries [] f in
    subst
      (λ m.
        Ensures (init_from m k.head_addr k)
          (λ _. Initialized k (usable_blocks k.memory_slide entries [])))
      (sym e)
      (init_loop-ok entries [] k
        (record {
          blocks = none_yet.blocks;
          reach = reach;
          out = tt;
          chain = null;
          enough = none_yet.enough;
        })
        f)

-- Some entry ends at the address.
abbrev pub EndsAt : List MemmapEntry → ℕ → Type 0
EndsAt [] h = ⊥
EndsAt (e ∷ es) h = (add64 e.base e.length ≡ h) ⊎ EndsAt es h

higher_lem :
    (h : ℕ) (e : MemmapEntry)
    → (h ≤ higher h e)
      × (add64 e.base e.length ≤ higher h e)
      × ((higher h e ≡ h) ⊎ (add64 e.base e.length ≡ higher h e))
unfolding higher
higher_lem h e = ground arith

highest_loop-max :
    (es : List MemmapEntry) (h : ℕ)
    → (h ≤ highest_loop h es)
      × All (λ e. add64 e.base e.length ≤ highest_loop h es) es
      × ((highest_loop h es ≡ h) ⊎ EndsAt es (highest_loop h es))
unfolding highest_loop
highest_loop-max [] h = (omega arith, tt, inl refl)
highest_loop-max (e ∷ es) h =
    let (lo, all, at) = highest_loop-max es (higher h e) in
    let (keeps, tops, is) = higher_lem h e in
    (
      omega arith,
      (omega arith, all),
      elim at [
        | inl top ↦ elim is [ inl old ↦ inl (top ∙ old) | inr new ↦ inr (inl (new ∙ sym top)) ]
        | inr later ↦ inr (inr later)
      ],
    )

pub get_highest_physical_address-loop :
    (k : Kernel) (entries : List MemmapEntry)
    → k.memmap ≡ some entries
    → get_highest_physical_address k ≡ ok (highest_loop 0 entries) k
unfolding get_highest_physical_address
get_highest_physical_address-loop k entries e =
    subst (λ m. highest_from m k ≡ ok (highest_loop 0 entries) k) (sym e) refl

-- The address that `get_highest_physical_address` returns is at least the end of every entry of
-- the memory map, and is the end of one of them or 0. It does not look at the entries' types.
pub get_highest_physical_address-max :
    (k : Kernel) (entries : List MemmapEntry)
    → k.memmap ≡ some entries
    → Ensures (get_highest_physical_address k) (λ h k'.
      All (λ e. add64 e.base e.length ≤ h) entries × ((h ≡ 0) ⊎ EndsAt entries h) × (k' ≡ k))
unfolding get_highest_physical_address
get_highest_physical_address-max k entries e =
    let (_, all, at) = highest_loop-max entries 0 in
    subst
      (λ m. Ensures (highest_from m k) (λ h k'.
        All (λ e. add64 e.base e.length ≤ h) entries × ((h ≡ 0) ⊎ EndsAt entries h) × (k' ≡ k)))
      (sym e) (all, at, refl)
