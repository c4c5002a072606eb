-- ===== src/Pma/Absorb.antt =====
-- The inner loop of `coalesce` in kernel/mm/pma.cpp: a block absorbs those that begin where it ends.
use unnamed.Prelude.{
  ℕ, zero, suc, ◌+◌, ◌<◌, ◌≡◌, refl, ◌∙◌, ◌≢◌, inl, inr, true, false, List, [], ◌∷◌, arith, length,
  ◌==◌, ==_iff, Bool-cases,
}
use unnamed.Prelude.Words.{add64}
use unnamed.Machine.{Kernel, ok, accessible, write}
use unnamed.Machine.Ensures.{Ensures, Ensures-mono, load-ok, store-ok}
use unnamed.Pma.{absorb_next, absorb_loop, next_of}
use unnamed.Pma.Blocks.{
  Block, Chain, IsBlock, Outside, AreBlocks, Chain-frame, SameIn-write, SameIn-trans,
  Outside-of_Apart, next_of-lt, size-accessible, next-accessible,
}
use unnamed.Pma.Merge.{absorb, absorb_hit, absorb_miss, Absorbed-meet}

-- The memory has changed at most at the words `a` and `c`, and inside the blocks.
abbrev pub SameBut : (a c : ℕ) → List Block → (ℕ → ℕ) → (ℕ → ℕ) → Type 0
SameBut a c bs m n = (w : ℕ) → w ≢ a → w ≢ c → Outside w bs → n w ≡ m w

-- After the inner loop: the block at `a` has its new size, and the pointer at `c` leads through
-- the blocks that are left.
abbrev pub Absorbs : (a c : ℕ) → List Block → ℕ × List Block → Kernel → Kernel → Type 0
Absorbs a c bs (s', left) k k' =
    (k'.mem a ≡ s')
    × Chain k'.mem (k'.mem c) left
    × SameBut a c bs k.mem k'.mem
    × (k' ≡ record k { mem = k'.mem })

-- The block at `b` behind the pointer at `next_of a'` is taken into the block at `a`.
module _ (k : Kernel) (a s p b t : ℕ) (reach : accessible k.boot a ≡ true)
    (link : accessible k.boot (next_of p) ≡ true) (is : IsBlock k.boot (b, t)) (meet : a + s ≡ b)
    (ne : next_of p ≢ a) (size : k.mem a ≡ s) (at : k.mem (next_of p) ≡ b)
    (size' : k.mem b ≡ t) where
  absorb_next-ok :
      absorb_next a p k
      ≡ ok tt (record k { mem = write (write k.mem a (s + t)) (next_of p) (k.mem (next_of b)) })
  unfolding absorb_next
  absorb_next-ok =
      let k₁ : Kernel = record k { mem = write k.mem a (s + t) } in
      let e₁ : add64 s t ≡ s + t = omega (arith, is.fits) in
      let n₁ : (next_of p == a) ≡ false = ground arith in
      let n₂ : (next_of b == a) ≡ false = ground (arith, next_of-lt k.boot b t is) in
      rw (
        load-ok k (next_of p) link,
        at,
        load-ok k b (size-accessible k.boot b t is),
        size',
        load-ok k a reach,
        size,
        e₁,
        store-ok k a reach (s + t),
        load-ok k₁ (next_of p) link,
        n₁,
        at,
        load-ok k₁ (next_of b) (next-accessible k.boot b t is),
        n₂,
        store-ok k₁ (next_of p) link (k.mem (next_of b)),
      )

-- What the rest of the loop does, seen from the block before.
module _ (k : Kernel) (a s p b t : ℕ) (xs : List Block)
    (is : AreBlocks k.boot ((a, s) ∷ (b, t) ∷ xs)) (out : Outside (next_of p) ((b, t) ∷ xs))
    (ne : next_of p ≢ a) (chain : Chain k.mem (k.mem (next_of p)) ((b, t) ∷ xs)) where
  Absorbs-hit :
      (r : ℕ × List Block) (k' : Kernel)
      → Absorbs a
          (next_of p)
          xs
          r
          (record k { mem = write (write k.mem a (s + t)) (next_of p) (k.mem (next_of b)) })
          k'
      → Absorbs a (next_of p) ((b, t) ∷ xs) r k k'
  Absorbs-hit r k' (size, chain', same, rest) =
      (size, chain', λ w n₁ n₂ o. same w n₁ n₂ o.1 ∙ ground arith, rest)

  Absorbs-miss :
      (r : ℕ × List Block) (k' : Kernel)
      → Absorbs a (next_of b) xs r k k'
      → Absorbs a (next_of p) ((b, t) ∷ xs) (r.0, (b, t) ∷ r.1) k k'
  Absorbs-miss r k' (size, chain', same, rest) =
      let y = is.each.1.0 in
      let room = y.room in
      let e = next_of-lt k.boot b t y in
      (
        size,
        (
          same (next_of p) ne (omega (arith, out.0)) out.1 ∙ chain.0,
          same b (omega (arith, is.apart.0.0, is.each.0.room)) (omega arith)
                (Outside-of_Apart b b t xs is.apart.1.0 (omega arith) (omega arith))
              ∙ chain.1,
          chain',
        ),
        λ w n₁ n₂ o. same w n₁ (omega (arith, o.0)) o.1,
        rest,
      )

pub absorb-ok :
    (fuel a s p : ℕ) (xs : List Block) (k : Kernel)
    → length xs < fuel
    → AreBlocks k.boot ((a, s) ∷ xs)
    → accessible k.boot (next_of p) ≡ true
    → Outside (next_of p) xs
    → next_of p ≢ a
    → k.mem a ≡ s
    → Chain k.mem (k.mem (next_of p)) xs
    → Ensures (absorb_loop fuel a p k) (λ _. Absorbs a (next_of p) xs (absorb a s xs) k)
unfolding absorb_loop absorb
absorb-ok zero a s p xs k enough is link out ne size chain = absurd (omega arith)
absorb-ok (suc fuel) a s p [] k enough is link out ne size chain =
    rw (load-ok k (next_of p) link, chain) (size, chain, λ w n₁ n₂ o. refl, refl)
absorb-ok (suc fuel) a s p ((b, t) ∷ xs) k enough is link out ne size chain =
    let x = is.each.0 in
    let y = is.each.1.0 in
    let nz : (b == 0) ≡ false = ground (arith, y.ne_null) in
    let reach = size-accessible k.boot a s x in
    let e₁ : add64 a s ≡ a + s = omega (arith, x.fits) in
    rw (load-ok k (next_of p) link, chain.0, nz, load-ok k a reach, size, e₁)
      (elim (Bool-cases (a + s == b)) [
        | inl hit ↦
            let meet : a + s ≡ b = (==_iff _ _).0 hit in
            let m₁ = write k.mem a (s + t) in
            let m = write m₁ (next_of p) (k.mem (next_of b)) in
            let here : m (next_of p) ≡ k.mem (next_of b) = ground arith in
            rw
              (
                hit,
                absorb_hit a s b t xs hit,
                absorb_next-ok k a s p b t reach link y meet ne size chain.0 chain.1,
              )
              (Ensures-mono (absorb_loop fuel a p (record k { mem = m })) _ _
                (λ _. Absorbs-hit k a s p b t xs is out ne chain (absorb a (s + t) xs))
                (absorb-ok fuel a (s + t) p xs (record k { mem = m }) (omega arith)
                  ((Absorbed-meet k.boot a s b t xs is meet).blocks) link out.1 ne (ground arith)
                  (rw here (
                    Chain-frame k.mem m (k.mem (next_of b)) k.boot xs is.each.1.1
                      (SameIn-trans k.mem m₁ m xs
                        (SameIn-write k.mem a (s + t) xs (
                          Outside-of_Apart a a s xs is.apart.0.1 (omega arith)
                            (omega (arith, x.room))))
                        (SameIn-write m₁ (next_of p) _ xs out.1))
                      chain.2))))
        | inr miss ↦
            rw (miss, absorb_miss a s b t xs miss)
              (Ensures-mono (absorb_loop fuel a b k) _ _
                (λ _. Absorbs-miss k a s p b t xs is out ne chain (absorb a s xs))
                (absorb-ok fuel a s b xs k (omega arith)
                  (record { each = (x, is.each.1.1); apart = (is.apart.0.1, is.apart.1.1) })
                  (next-accessible k.boot b t y)
                  (Outside-of_Apart (next_of b) b t xs is.apart.1.0
                    (omega (arith, next_of-lt k.boot b t y))
                    (omega (arith, next_of-lt k.boot b t y, y.room)))
                  (let e = next_of-lt k.boot b t y in omega (arith, is.apart.0.0, y.room, x.room))
                  size chain.2))
      ])

-- After the outer loop from the pointer `p`: it leads through the blocks `left`, and only words of
-- the old blocks have changed.
