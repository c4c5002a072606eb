-- ===== src/Strings/Contents.antt =====
-- What a String of kernel/lib/string.hpp holds, and when two are equal.
use unnamed.Prelude.{
  ℕ, ◌+◌, ◌-◌, ◌≤◌, ◌<◌, ◌≡◌, refl, sym, ◌∙◌, ◌⊎◌, inl, inr, ◌↔◌, true, false, ◌&&◌, some, ◌==◌,
  leb, ltb, Bool-cases, ==_iff, arith,
}
use unnamed.Bytes.{Bytes, memcmp}
use unnamed.Bytes.Moves.{memcpy-moved, memcmp-ComparesTo}
use unnamed.Bytes.Strings.{IsString, strlen-length}
use unnamed.Strings.{String, assign, from_chars, c_str, equals}

-- The string has its own buffer, or is empty and has none.
pub record HoldsBytes (m : Bytes) (s : String) (n : ℕ) (f : ℕ → ℕ) : Type 0 where
  pub sized : s.size ≡ n
  pub bytes : (i : ℕ) → i < n → m (s.data_ptr + i) ≡ f i
  pub ends : 0 < n → m (s.data_ptr + n) ≡ 0

module _ (m : Bytes) (s n buffer : ℕ) (apart : (buffer + n < s) ⊎ (s + n ≤ buffer)) where
  apart_moves : (buffer < s) ⊎ (s + n ≤ buffer)
  apart_moves = elim apart [ inl below ↦ inl (omega arith) | inr above ↦ inr above ]

  -- `assign` copies the bytes to the buffer and puts a zero behind them.
  assign-HoldsBytes : HoldsBytes (assign s n buffer m).1 (assign s n buffer m).0 n (λ i. m (s + i))
  unfolding assign
  assign-HoldsBytes = elim (Bool-cases (n == 0)) [
    | inl null ↦
        let e : n ≡ 0 = (==_iff n 0).0 null in
        rw null (record {
          sized = sym e;
          bytes = λ i lt. absurd (omega arith);
          ends = λ lt. absurd (omega arith);
        })
    | inr more ↦ rw more (record {
      sized = refl;
      bytes = λ i lt.
          let other : (buffer + i == buffer + n) ≡ false = ground arith in
          let inside : (leb buffer (buffer + i) && ltb (buffer + i) (buffer + n)) ≡ true =
            ground arith in
          let back : s + (buffer + i - buffer) ≡ s + i = omega arith in
          rw other (memcpy-moved buffer s n m apart_moves (buffer + i) ∙ rw (inside, back));
      ends = λ lt. (let same : (buffer + n == buffer + n) ≡ true = ground arith in rw same);
    })
  ]

-- A String made from characters has as many bytes as there are before their zero, and the same. The
-- buffer shares no byte with them.
pub from_chars-HoldsBytes :
    (m : Bytes) (s n fuel buffer : ℕ)
    → 0 < s
    → IsString m s n
    → n < fuel
    → ((buffer + n < s) ⊎ (s + n ≤ buffer))
    → (r : String × Bytes) × (from_chars fuel s buffer m ≡ some r)
      × HoldsBytes r.1 r.0 n (λ i. m (s + i))
unfolding from_chars
from_chars-HoldsBytes m s n fuel buffer pos str enough apart =
    let some_chars : (s == 0) ≡ false = ground arith in
    rw (some_chars, strlen-length m s n str fuel 0 (omega arith) (omega arith))
      (assign s n buffer m, refl, assign-HoldsBytes m s n buffer apart)

abbrev pub SameBytes : (literal : ℕ) (a b : String) → Bytes → Type 0
SameBytes literal a b m =
    (a.size ≡ b.size) × ((i : ℕ) → i < a.size → m (c_str literal a + i) ≡ m (c_str literal b + i))

-- Two strings are equal, by `operator==`, exactly where they have the same size and the same bytes.
pub equals_iff :
    (m : Bytes) (literal : ℕ) (a b : String)
    → ((p : ℕ) → m p < 256)
    → (equals literal a b m ≡ true) ↔ SameBytes literal a b m
unfolding equals
equals_iff m literal a b byte = elim (Bool-cases (a.size == b.size)) [
  | inr other ↦ rw other (
    λ e. absurd (let c : true ≡ false = sym e in cc),
    λ same.
        (let e : (a.size == b.size) ≡ true = rw (same.0) (ground arith) in
          let c : true ≡ false = sym e ∙ other in absurd cc),
  )
  | inl sized ↦
      rw sized (elim (memcmp-ComparesTo (c_str literal a) (c_str literal b) a.size m byte) [
        | inl (null, all) ↦
            rw null
              (λ e. ((==_iff _ _).0 sized, λ i lt. all i (omega arith) (omega arith)), λ same. refl)
        | inr (j, f) ↦
            let differ : (memcmp (c_str literal a) (c_str literal b) a.size m == 0) ≡ false =
              elim f.sign [
                | inl (more, pos, small) ↦ ground arith
                | inr (less, neg) ↦ ground arith
              ] in
            rw differ (
              λ e. absurd (let c : true ≡ false = sym e in cc),
              λ same.
                  let e = same.1 j (omega (arith, f.inside)) in
                  absurd (elim f.sign [
                    | inl (more, pos, small) ↦ omega arith
                    | inr (less, neg) ↦ omega arith
                  ]),
            )
      ])
]
