-- ===== src/Pma/Coalesce.antt =====
-- `coalesce` on the list in memory does what `merge` does on the list of blocks.
use mathlib.Core.Path.{subst}
use unnamed.Prelude.{
  ℕ, zero, suc, ◌+◌, ◌≤◌, ◌<◌, ◌≡◌, refl, sym, ◌∙◌, false, List, [], ◌∷◌, arith, length, ◌==◌,
}
use unnamed.Machine.{Kernel, and_then, load}
use unnamed.Machine.Ensures.{Ensures, Ensures-mono, and_then-Ensures, load-ok}
use unnamed.Pma.{absorb_loop, coalesce_loop, next_of}
use unnamed.Pma.Blocks.{
  Block, Chain, Outside, AreBlocks, Outside-of_Apart, Outside-of_Apart_one, next_of-lt,
  next-accessible,
}
use unnamed.Pma.Merge.{absorb, merge_from, Absorbed, Absorbed-absorb}
use unnamed.Pma.Absorb.{Absorbs, SameBut, absorb-ok}

abbrev pub Coalesces : (p : ℕ) → List Block → List Block → Kernel → Kernel → Type 0
Coalesces p bs left k k' =
    Chain k'.mem p left
    × ((w : ℕ) → Outside w bs → k'.mem w ≡ k.mem w)
    × (k' ≡ record k { mem = k'.mem })

module _ (k : Kernel) (a s : ℕ) (xs : List Block) (is : AreBlocks k.boot ((a, s) ∷ xs)) where
  taken : Absorbed k.boot ((a, s) ∷ xs) ((a, (absorb a s xs).0) ∷ (absorb a s xs).1)
  taken = Absorbed-absorb k.boot a s xs is

  Coalesces-cons :
      (m₁ : ℕ → ℕ) (zs : List Block) (k' : Kernel)
      → m₁ a ≡ (absorb a s xs).0
      → SameBut a (next_of a) xs k.mem m₁
      → Coalesces (m₁ (next_of a)) (absorb a s xs).1 zs (record k { mem = m₁ }) k'
      → Coalesces a ((a, s) ∷ xs) ((a, (absorb a s xs).0) ∷ zs) k k'
  Coalesces-cons m₁ zs k' size same (chain, same', rest) =
      let x = is.each.0 in
      let room = x.room in
      let e : next_of a ≡ a + 8 = next_of-lt k.boot a s x in
      let ys = (absorb a s xs).1 in
      let s' = (absorb a s xs).0 in
      let each = taken.blocks.each in
      let apart = taken.blocks.apart in
      let room' : 16 ≤ s' = each.0.room in
      let o₁ = Outside-of_Apart a a s' ys apart.0 (omega arith) (omega arith) in
      let o₂ = Outside-of_Apart (next_of a) a s' ys apart.0 (omega arith) (omega arith) in
      (
        (refl, same' a o₁ ∙ size, rw (same' (next_of a) o₂) chain),
        λ w o.
            same' w (
              (Outside-of_Apart_one w ys).0
                ((taken.apart (w, 1) (omega arith)).0
                  ((Outside-of_Apart_one w ((a, s) ∷ xs)).1 o)).1)
            ∙ same w (omega (arith, o.0)) (omega (arith, o.0)) o.1,
        rest,
      )

pub coalesce_loop-ok :
    (fuel n p : ℕ) (bs : List Block) (k : Kernel)
    → length bs < fuel
    → length bs ≤ n
    → AreBlocks k.boot bs
    → Chain k.mem p bs
    → Ensures (coalesce_loop fuel p k) (λ _. Coalesces p bs (merge_from n bs) k)
unfolding coalesce_loop merge_from
coalesce_loop-ok zero n p bs k enough le is chain = absurd (omega arith)
coalesce_loop-ok (suc fuel) zero p [] k enough le is chain = rw chain (refl, λ w o. refl, refl)
coalesce_loop-ok (suc fuel) (suc n) p [] k enough le is chain = rw chain (refl, λ w o. refl, refl)
coalesce_loop-ok (suc fuel) zero p ((a, s) ∷ xs) k enough le is chain = absurd (omega arith)
coalesce_loop-ok (suc fuel) (suc n) p ((a, s) ∷ xs) k enough le is chain =
    let x = is.each.0 in
    let room = x.room in
    let e : next_of a ≡ a + 8 = next_of-lt k.boot a s x in
    let nz : (a == 0) ≡ false = ground (arith, x.ne_null) in
    let link = next-accessible k.boot a s x in
    rw (chain.0, nz)
      (and_then-Ensures (absorb_loop fuel a a k) _ (λ _. Absorbs a (next_of a) xs (absorb a s xs) k)
        _
        (absorb-ok fuel a s a xs k (omega arith) is link
          (Outside-of_Apart (next_of a) a s xs is.apart.0 (omega arith) (omega arith)) (omega arith)
          chain.1 chain.2)
        λ _ k₁ (size, chain', same, rest).
          subst
            (λ q.
              Ensures (and_then (load (next_of a) q) (coalesce_loop fuel))
                (λ _. Coalesces a ((a, s) ∷ xs) (merge_from (suc n) ((a, s) ∷ xs)) k))
            (sym rest)
            (rw (load-ok (record k { mem = k₁.mem }) (next_of a) link) (
              Ensures-mono (coalesce_loop fuel (k₁.mem (next_of a)) (record k { mem = k₁.mem })) _ _
                (λ _ k'. Coalesces-cons k a s xs is k₁.mem _ k' size same)
                (coalesce_loop-ok fuel n (k₁.mem (next_of a)) (absorb a s xs).1
                  (record k { mem = k₁.mem }) (omega (arith, (taken k a s xs is).shorter))
                  (omega (arith, (taken k a s xs is).shorter))
                  (let t = taken k a s xs is in
                    let each = t.blocks.each in
                    let apart = t.blocks.apart in record { each = each.1; apart = apart.1 })
                  chain'))))
