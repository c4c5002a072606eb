-- ===== src/Pma/Alloc.antt =====
-- `alloc` does what first fit says, on the list in memory.
use unnamed.Prelude.{
  ℕ, zero, suc, ◌+◌, ◌-◌, ◌%◌, ◌^◌, ◌≤◌, ◌<◌, ◌≡◌, refl, inl, inr, ◌∙◌, true, false, Option, none,
  some, List, [], ◌∷◌, arith, length, All, ◌==◌, leb, ltb, ltb→lt, Bool-cases,
}
use unnamed.Prelude.Words.{add64, sub64}
use unnamed.Utils
use unnamed.Helpers.Align.{utils_align_up-div}
use unnamed.Machine.{Boot, Kernel, accessible, write}
use unnamed.Machine.Ensures.{Ensures, Ensures-mono, load-ok}
use unnamed.Pma.{alloc_loop, next_of}
use unnamed.Pma.Blocks.{
  Block, Apart, Chain, IsBlock, Outside, AreBlocks, Chain-frame, SameIn-write, SameIn-trans,
  Outside-of_Apart, next_of-lt, size-accessible, next-accessible,
}
use unnamed.Pma.FirstFit.{page_above, needed, keep, first_fit}
use unnamed.Pma.Split.{Allocated, SameElsewhere, split_block-ok, split_mem, unlink-ok}

module _ (k : Kernel) (c a s : ℕ) (bs : List Block) (is : AreBlocks k.boot ((a, s) ∷ bs))
    (out : Outside c ((a, s) ∷ bs)) (chain : Chain k.mem (k.mem c) ((a, s) ∷ bs)) where
  unlink-Chain :
      let m = write k.mem c (k.mem (next_of a)) in
      Chain m (m c) bs × SameElsewhere c ((a, s) ∷ bs) k.mem m
  unlink-Chain =
      let m = write k.mem c (k.mem (next_of a)) in
      let here : m c ≡ k.mem (next_of a) = ground arith in
      (
        rw here (
            Chain-frame k.mem m (k.mem (next_of a)) k.boot bs is.each.1
              (SameIn-write k.mem c _ bs out.1) chain.2),
        λ w ne o. ground arith,
      )

  split_mem-Chain :
      (rest : ℕ)
      → 16 ≤ rest
      → rest + 16 < s
      → let m = split_mem k.mem c a s rest in
        Chain m (m c) ((a + rest, s - rest) ∷ bs) × SameElsewhere c ((a, s) ∷ bs) k.mem m
  split_mem-Chain rest lo hi =
      let x = is.each.0 in
      let fits = x.fits in
      let m₁ = write k.mem (a + rest) (s - rest) in
      let m₂ = write m₁ (a + rest + 8) (k.mem (next_of a)) in
      let m = write m₂ c (a + rest) in
      let e : next_of (a + rest) ≡ a + rest + 8 = omega arith in
      let here : m c ≡ a + rest = ground arith in
      let head : m (a + rest) ≡ s - rest = ground (arith, out.0) in
      let tail : m (a + rest + 8) ≡ k.mem (next_of a) = ground (arith, out.0) in
      let inside =
        λ (w : ℕ) (lo : a ≤ w) (hi : w < a + s). Outside-of_Apart w a s bs is.apart.0 lo hi in
      (
        (
          here,
          head,
          rw (e, tail)
              (Chain-frame k.mem m (k.mem (next_of a)) k.boot bs is.each.1
                (SameIn-trans k.mem m₂ m bs
                  (SameIn-trans k.mem m₁ m₂ bs
                    (SameIn-write k.mem (a + rest) (s - rest) bs
                      (inside (a + rest) (omega arith) (omega arith)))
                    (SameIn-write m₁ (a + rest + 8) _ bs
                      (inside (a + rest + 8) (omega arith) (omega arith))))
                  (SameIn-write m₂ c _ bs out.1))
                chain.2),
        ),
        λ w ne o. ground (arith, o.0),
      )

-- What holds behind the block at `a` holds with it in front.
Allocated-keep :
    (c a s : ℕ) (bs : List Block) (k : Kernel) (o : Option (ℕ × List Block))
    → IsBlock k.boot (a, s)
    → All (Apart (a, s)) bs
    → Outside c ((a, s) ∷ bs)
    → k.mem c ≡ a
    → k.mem a ≡ s
    → (r : ℕ) (k' : Kernel) → Allocated (next_of a) bs k o r k'
    → Allocated c ((a, s) ∷ bs) k (keep (a, s) o) r k'
Allocated-keep c a s bs k none is apart out at size r k' h = h
Allocated-keep c a s bs k (some (p, left)) is apart out at size r k' (e, chain, same, rest) =
    let n : next_of a ≡ a + 8 = next_of-lt k.boot a s is in
    let room = is.room in
    (
      e,
      (
        same c (omega arith) out.1 ∙ at,
        same a (omega arith) (Outside-of_Apart a a s bs apart (omega arith) (omega arith)) ∙ size,
        chain,
      ),
      λ w ne o. same w (omega arith) o.1,
      rest,
    )

module _ (size : ℕ) (whole : size % 4096 ≡ 0) (small : size + 2 ^ 14 ≤ 2 ^ 64) where
  module _ (b : Boot) (a s : ℕ) (is : IsBlock b (a, s)) where
    page_above_lem : Utils.align_up (add64 a 16) 4096 ≡ page_above a
    page_above_lem =
        let e : add64 a 16 ≡ a + 16 = omega (arith, is.fits, is.room) in
        rw e (utils_align_up-div 12 (a + 16) (omega arith) (omega (arith, is.fits, is.room)))

    needed_lem : add64 (sub64 (page_above a) a) size ≡ needed size a
    needed_lem = omega (arith, is.fits, is.room)

  pub first_fit-alloc :
      (fuel c : ℕ) (bs : List Block) (k : Kernel)
      → length bs < fuel
      → AreBlocks k.boot bs
      → accessible k.boot c ≡ true
      → Outside c bs
      → Chain k.mem (k.mem c) bs
      → Ensures (alloc_loop fuel size c k) (Allocated c bs k (first_fit size bs))
  unfolding alloc_loop first_fit
  first_fit-alloc zero c bs k enough is reach out chain = absurd (omega arith)
  first_fit-alloc (suc fuel) c [] k enough is reach out chain =
      rw (load-ok k c reach, chain) (refl, refl)
  first_fit-alloc (suc fuel) c ((a, s) ∷ bs) k enough is reach out chain =
      let x = is.each.0 in
      let nz : (a == 0) ≡ false = ground (arith, x.ne_null) in
      let al = x.aligned in
      let e₁ : add64 (needed size a) 16 ≡ needed size a + 16 = omega (arith, x.fits) in
      rw
        (
          load-ok k c reach,
          chain.0,
          nz,
          load-ok k a (size-accessible k.boot a s x),
          chain.1,
          page_above_lem k.boot a s x,
          needed_lem k.boot a s x,
        )
        (elim (Bool-cases (leb (needed size a) s)) [
          | inl fit ↦ rw fit (elim (Bool-cases (ltb (needed size a + 16) s)) [
            | inl big ↦
                rw
                  (
                    e₁,
                    big,
                    split_block-ok k c a s x reach chain.0 (needed size a) chain.1 (omega arith)
                        (omega arith) (omega (arith, ltb→lt _ _ big)) (out.0, tt),
                  )
                  (let (chain', same) =
                      split_mem-Chain k c a s bs is out chain (needed size a) (omega arith)
                        (omega (arith, ltb→lt _ _ big)) in
                    (refl, chain', same, refl))
            | inr tight ↦
                rw (e₁, tight, unlink-ok k c a s x reach chain.0)
                  (let (chain', same) = unlink-Chain k c a s bs is out chain in
                    (refl, chain', same, refl))
          ])
          | inr more ↦ rw more (
              Ensures-mono (alloc_loop fuel size (next_of a) k) (Allocated (next_of a) bs k _) _
                (Allocated-keep c a s bs k (first_fit size bs) x is.apart.0 out chain.0 chain.1)
                (first_fit-alloc fuel (next_of a) bs k (omega arith)
                  (record { each = is.each.1; apart = is.apart.1 }) (next-accessible k.boot a s x)
                  (Outside-of_Apart (next_of a) a s bs is.apart.0
                    (omega (arith, next_of-lt k.boot a s x))
                    (omega (arith, next_of-lt k.boot a s x, x.room)))
                  chain.2))
        ])
