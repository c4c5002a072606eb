-- ===== src/Bytes/Moves.antt =====
-- What the copies and comparisons of kernel/lib/memory.cpp do, byte by byte.
use unnamed.Prelude.{
  ℕ, zero, suc, ◌+◌, ◌-◌, ◌%◌, ◌^◌, ◌≤◌, ◌<◌, ◌≡◌, refl, ◌∙◌, ◌⊎◌, inl, inr, false, ◌&&◌, leb, ltb,
  ◌==◌, if◌then◌else◌, Bool-cases, arith, ==_iff,
}
use unnamed.Bytes.{
  Bytes, write, set_loop, memset, copy_up, memcpy, copy_down, memmove, compare_loop, memcmp,
}

-- The bytes from `dest` on are those that were at `src`, and the others are as before.
abbrev pub moved : (dest src n : ℕ) → Bytes → Bytes
moved dest src n m a = if leb dest a && ltb a (dest + n) then m (src + (a - dest)) else m a

-- No byte that is read is one that was written.
copy_up-moved :
    (total n i dest src : ℕ) (m : Bytes) (a : ℕ)
    → i + n ≤ total
    → ((dest < src) ⊎ (src + total ≤ dest))
    → copy_up n i dest src m a
      ≡ (if leb (dest + i) a && ltb a (dest + i + n) then m (src + (a - dest)) else m a)
unfolding copy_up
copy_up-moved total zero i dest src m a le apart = ground arith
copy_up-moved total (suc n) i dest src m a le apart =
    let ih =
      copy_up-moved total n (suc i) dest src (write m (dest + i) (m (src + i))) a (omega arith)
        apart in
    elim (Bool-cases (a == dest + i)) [
      | inl here ↦ (let e = (==_iff _ _).0 here in ih ∙ ground arith)
      | inr there ↦ ih ∙ ground arith
    ]

copy_down-moved :
    (n dest src : ℕ) (m : Bytes) (a : ℕ)
    → src < dest
    → copy_down n dest src m a ≡ moved dest src n m a
unfolding copy_down
copy_down-moved zero dest src m a lt = ground arith
copy_down-moved (suc n) dest src m a lt =
    let ih = copy_down-moved n dest src (write m (dest + n) (m (src + n))) a lt in ih ∙ ground arith

copied :
    (dest src n : ℕ) (m : Bytes) (a : ℕ)
    → ((dest < src) ⊎ (src + n ≤ dest))
    → copy_up n 0 dest src m a ≡ moved dest src n m a
copied dest src n m a apart = copy_up-moved n n 0 dest src m a (omega arith) apart ∙ ground arith

-- `memcpy` moves the bytes if the ranges share no byte, or the destination begins below the source.
pub memcpy-moved :
    (dest src n : ℕ) (m : Bytes)
    → ((dest < src) ⊎ (src + n ≤ dest))
    → (a : ℕ) → (memcpy dest src n m).1 a ≡ moved dest src n m a
unfolding memcpy
memcpy-moved dest src n m apart a = copied dest src n m a apart

-- `memmove` returns the destination, and moves the bytes, however the two ranges overlap.
pub memmove-moved :
    (dest src n : ℕ) (m : Bytes)
    → ((memmove dest src n m).0 ≡ dest)
      × ((a : ℕ) → (memmove dest src n m).1 a ≡ moved dest src n m a)
unfolding memmove memcpy
memmove-moved dest src n m = elim (Bool-cases (ltb dest src)) [
  | inl below ↦ rw below (refl, λ a. copied dest src n m a (inl (ground arith)))
  | inr above ↦ elim (Bool-cases (ltb src dest)) [
    | inl behind ↦ rw (above, behind) (refl, λ a. copy_down-moved n dest src m a (ground arith))
    | inr same ↦
        rw (above, same)
          (
            refl,
            λ a.
                let e : dest ≡ src = ground arith in
                elim (Bool-cases (leb dest a && ltb a (dest + n))) [
                  | inl inside ↦ let back : src + (a - dest) ≡ a = ground arith in rw (inside, back)
                  | inr outside ↦ rw outside
                ],
          )
  ]
]

set_loop-filled :
    (n i dest v : ℕ) (m : Bytes) (a : ℕ)
    → set_loop n i dest v m a ≡ (if leb (dest + i) a && ltb a (dest + i + n) then v else m a)
unfolding set_loop
set_loop-filled zero i dest v m a = ground arith
set_loop-filled (suc n) i dest v m a =
    set_loop-filled n (suc i) dest v (write m (dest + i) v) a ∙ ground arith

-- `memset` at an address that is not null sets its bytes, and no other.
memset-filled :
    (dest ch n : ℕ) (m : Bytes) (a : ℕ)
    → 0 < dest
    → (memset dest ch n m).1 a ≡ (if leb dest a && ltb a (dest + n) then ch % 256 else m a)
unfolding memset
memset-filled dest ch n m a pos =
    let some_dest : (dest == 0) ≡ false = ground arith in
    elim (Bool-cases (n == 0)) [
      | inl none ↦ rw (some_dest, none) (ground arith)
      | inr more ↦ rw (some_dest, more) (set_loop-filled n 0 dest (ch % 256) m a ∙ ground arith)
    ]

-- The first place where the ranges differ, and how the difference shows in the result.
pub record FirstDifference (i n s1 s2 r : ℕ) (m : Bytes) (j : ℕ) : Type 0 where
  pub from : i ≤ j
  pub inside : j < i + n
  pub equal_before : (p : ℕ) → i ≤ p → p < j → m (s1 + p) ≡ m (s2 + p)
  pub sign :
      ((m (s2 + j) < m (s1 + j)) × (0 < r) × (r < 2 ^ 31))
      ⊎ ((m (s1 + j) < m (s2 + j)) × (2 ^ 31 ≤ r))

-- Either the ranges are equal and the result is 0, or the result has the sign of the first difference.
abbrev pub ComparesTo : (i n s1 s2 r : ℕ) → Bytes → Type 0
ComparesTo i n s1 s2 r m =
    ((r ≡ 0) × ((p : ℕ) → i ≤ p → p < i + n → m (s1 + p) ≡ m (s2 + p)))
    ⊎ ((j : ℕ) × FirstDifference i n s1 s2 r m j)

-- Equal at a place, and from the next one on.
equal_from :
    (i s1 s2 : ℕ) (m : Bytes) (Below : ℕ → Type 0)
    → m (s1 + i) ≡ m (s2 + i)
    → ((p : ℕ) → suc i ≤ p → Below p → m (s1 + p) ≡ m (s2 + p))
    → (p : ℕ) → i ≤ p
    → Below p
    → m (s1 + p) ≡ m (s2 + p)
equal_from i s1 s2 m Below here later p lo below = elim (Bool-cases (p == i)) [
  | inl e ↦ (let at : p ≡ i = (==_iff _ _).0 e in rw at here)
  | inr ne ↦ later p (ground arith) below
]

compare_loop-ComparesTo :
    (n i s1 s2 : ℕ) (m : Bytes)
    → ((a : ℕ) → m a < 256)
    → ComparesTo i n s1 s2 (compare_loop n i s1 s2 m) m
unfolding compare_loop
compare_loop-ComparesTo zero i s1 s2 m byte = inl (refl, λ p lo hi. absurd (omega arith))
compare_loop-ComparesTo (suc n) i s1 s2 m byte = elim (Bool-cases (m (s1 + i) == m (s2 + i))) [
  | inl same ↦
      let here = (==_iff _ _).0 same in
      rw same (elim (compare_loop-ComparesTo n (suc i) s1 s2 m byte) [
        | inl (null, all) ↦ inl (
          null,
          equal_from i s1 s2 m (λ p. p < i + suc n) here (λ p lo hi. all p lo (omega arith)),
        )
        | inr (j, f) ↦ inr (
          j,
          record {
            from = omega (arith, f.from);
            inside = omega (arith, f.inside);
            equal_before = equal_from i s1 s2 m (λ p. p < j) here f.equal_before;
            sign = f.sign;
          },
        )
      ])
  | inr other ↦
      let b1 = byte (s1 + i) in
      let b2 = byte (s2 + i) in
      rw other (
        inr (
          i,
          record {
            from = omega arith;
            inside = omega arith;
            equal_before = λ p lo hi. absurd (omega arith);
            sign = elim (Bool-cases (ltb (m (s1 + i)) (m (s2 + i)))) [
              | inl less ↦
                  let l : m (s1 + i) < m (s2 + i) = ground arith in inr (l, omega (arith, b1, b2))
              | inr more ↦
                  let l : m (s2 + i) < m (s1 + i) = ground (arith, other) in
                  inl (l, omega (arith, b1, b2), omega (arith, b1, b2))
            ];
          },
        ))
]

-- `memcmp` of bytes is 0 where all of them are equal; otherwise it is positive where the first
-- difference is a larger byte of the first range, and negative, as an `int`, where it is a smaller one.
pub memcmp-ComparesTo :
    (s1 s2 n : ℕ) (m : Bytes) → ((a : ℕ) → m a < 256) → ComparesTo 0 n s1 s2 (memcmp s1 s2 n m) m
unfolding memcmp
memcmp-ComparesTo s1 s2 n m byte = compare_loop-ComparesTo n 0 s1 s2 m byte
