-- ===== src/Bytes/Strings.antt =====
-- What the string functions of kernel/lib/memory.cpp find.
use unnamed.Prelude.{
  ℕ, zero, suc, ◌+◌, ◌-◌, ◌≤◌, ◌<◌, ◌≡◌, ◌≢◌, refl, ap, sym, ◌∙◌, ◌⊎◌, inl, inr, true, false, ◌&&◌,
  none, some, ◌==◌, if◌then◌else◌, Bool-cases, arith, ==_iff, not,
}
use unnamed.Bytes.{Bytes, strlen, match_loop, search_loop, strstr}

-- A string: its bytes are not zero, and a zero is behind them.
pub record IsString (m : Bytes) (s len : ℕ) : Type 0 where
  pub ends : m (s + len) ≡ 0
  pub some_byte : (i : ℕ) → i < len → m (s + i) ≢ 0

-- Within one round for each byte and one more, `strlen` finds the length of a string.
pub strlen-length :
    (m : Bytes) (s len : ℕ)
    → IsString m s len
    → (fuel i : ℕ) → i ≤ len
    → len < fuel + i
    → strlen fuel i s m ≡ some len
unfolding strlen
strlen-length m s len str zero i le enough = absurd (omega arith)
strlen-length m s len str (suc fuel) i le enough = elim (Bool-cases (m (s + i) == 0)) [
  | inl null ↦ rw null (elim (Bool-cases (i == len)) [
    | inl e ↦ ap some ((==_iff _ _).0 e)
    | inr ne ↦ absurd (str.some_byte i (ground arith) ((==_iff _ _).0 null))
  ])
  | inr more ↦
      let ne : i ≢ len = λ e.
        (let z : m (s + i) ≡ 0 = rw e str.ends in
          let b : (m (s + i) == 0) ≡ true = rw z in let c : true ≡ false = sym b ∙ more in cc) in
      rw more (strlen-length m s len str fuel (suc i) (omega arith) (omega arith))
]

end_of : (m : Bytes) (s len i : ℕ) → IsString m s len → i ≤ len → m (s + i) ≡ 0 → i ≡ len
end_of m s len i str le z = elim (Bool-cases (i == len)) [
  | inl e ↦ (==_iff _ _).0 e
  | inr ne ↦ absurd (str.some_byte i (ground arith) z)
]

-- What is left of a string from a place in it.
IsString-rest :
    (m : Bytes) (s len i : ℕ) → IsString m s len → i ≤ len → IsString m (s + i) (len - i)
IsString-rest m s len i str le = record {
  ends = (let e : s + i + (len - i) ≡ s + len = omega arith in rw e str.ends);
  some_byte = λ j lt.
      let e : s + i + j ≡ s + (i + j) = omega arith in rw e (str.some_byte (i + j) (omega arith));
}

module _ (m : Bytes) (needle k : ℕ) (is : IsString m needle k) where
  -- The needle lies at the address.
  abbrev pub Occurs : (a : ℕ) → Type 0
  Occurs a = (j : ℕ) → j < k → m (a + j) ≡ m (needle + j)

  -- The inner loop ends at `e`: behind the needle, if it lies here.
  record EndsAt (a e : ℕ) : Type 0 where
    within : e ≤ k
    occurs : m (needle + e) ≡ 0 → Occurs a
    not_here : m (needle + e) ≢ 0 → ¬ Occurs a

  match_loop-EndsAt :
      (a rest : ℕ)
      → IsString m a rest
      → (fuel j : ℕ) → j ≤ k
      → j ≤ rest
      → rest < fuel + j
      → ((i : ℕ) → i < j → m (a + i) ≡ m (needle + i))
      → (e : ℕ) × (match_loop fuel (a + j) (needle + j) m ≡ some (needle + e)) × EndsAt a e
  unfolding match_loop
  match_loop-EndsAt a rest str zero j lk lr enough eq = absurd (omega arith)
  match_loop-EndsAt a rest str (suc fuel) j lk lr enough eq =
      elim (Bool-cases
        (not (m (a + j) == 0) && not (m (needle + j) == 0) && m (a + j) == m (needle + j))) [
          | inl more ↦
              let same : m (a + j) ≡ m (needle + j) = ground arith in
              let some_a : m (a + j) ≢ 0 = ground arith in
              let some_n : m (needle + j) ≢ 0 = ground arith in
              let ja : j ≢ rest = λ e. some_a (rw e str.ends) in
              let jn : j ≢ k = λ e. some_n (rw e is.ends) in
              let ea : a + j + 1 ≡ a + suc j = omega arith in
              let en : needle + j + 1 ≡ needle + suc j = omega arith in
              rw (more, ea, en)
                (match_loop-EndsAt a rest str fuel (suc j) (omega arith) (omega arith) (omega arith)
                  (λ i lt. elim (Bool-cases (i == j)) [
                    | inl e ↦ (let at : i ≡ j = (==_iff _ _).0 e in rw at same)
                    | inr ne ↦ eq i (ground arith)
                  ]))
          | inr stop ↦ rw stop (
            j,
            refl,
            record {
              within = lk;
              occurs = λ z i lt. eq i (let e = end_of m needle k j is lk z in omega arith);
              not_here = λ nz here.
                  let jk : j ≢ k = λ e. nz (rw e is.ends) in
                  let e = here j (omega arith) in absurd (ground arith);
            },
          )
        ]

  module _ (h len : ℕ) (str : IsString m h len) where
    -- The first place from the `p`-th byte on where the needle lies.
    pub record FirstAt (p r i : ℕ) : Type 0 where
      pub at : r ≡ h + i
      pub from : p ≤ i
      pub inside : i < len
      pub occurs : Occurs (h + i)
      pub none_before : (q : ℕ) → p ≤ q → q < i → ¬ Occurs (h + q)

    abbrev pub SearchTo : (p r : ℕ) → Type 0
    SearchTo p r =
        ((r ≡ 0) × ((q : ℕ) → p ≤ q → q < len → ¬ Occurs (h + q))) ⊎ ((i : ℕ) × FirstAt p r i)

    nowhere_from :
        (p : ℕ) (Below : ℕ → Type 0)
        → ¬ Occurs (h + p)
        → ((q : ℕ) → suc p ≤ q → Below q → ¬ Occurs (h + q))
        → (q : ℕ) → p ≤ q
        → Below q
        → ¬ Occurs (h + q)
    nowhere_from p Below here later q le below = elim (Bool-cases (q == p)) [
      | inl e ↦ (let at : q ≡ p = (==_iff _ _).0 e in rw at here)
      | inr ne ↦ later q (ground arith) below
    ]

    later : (p r : ℕ) → ¬ Occurs (h + p) → SearchTo (suc p) r → SearchTo p r
    later p r here (inl (null, nowhere)) = inl (null, nowhere_from p (λ q. q < len) here nowhere)
    later p r here (inr (i, f)) = inr (
      i,
      record {
        at = f.at;
        from = omega (arith, f.from);
        inside = f.inside;
        occurs = f.occurs;
        none_before = nowhere_from p (λ q. q < i) here f.none_before;
      },
    )

    search_loop-SearchTo :
        (fuel p : ℕ)
        → p ≤ len
        → suc len < fuel + p
        → (r : ℕ) × (search_loop fuel (h + p) needle m ≡ some r) × SearchTo p r
    unfolding search_loop
    search_loop-SearchTo zero p le enough = absurd (omega arith)
    search_loop-SearchTo (suc fuel) p le enough = elim (Bool-cases (m (h + p) == 0)) [
      | inl null ↦
          let e = end_of m h len p str le ((==_iff _ _).0 null) in
          rw null (0, refl, inl (refl, λ q lo hi. absurd (omega arith)))
      | inr more ↦
          let nz : m (h + p) ≢ 0 = λ z.
            (let c : (m (h + p) == 0) ≡ true = rw z in let d : true ≡ false = sym c ∙ more in cc) in
          let pl : p ≢ len = λ e. nz (rw e str.ends) in
          let start : h + p + 0 ≡ h + p = omega arith in
          let first : needle + 0 ≡ needle = omega arith in
          let next : h + p + 1 ≡ h + suc p = omega arith in
          let (e, run, ends) =
            match_loop-EndsAt (h + p) (len - p) (IsString-rest m h len p str le) fuel 0
              (omega arith) (omega arith) (omega arith) (λ i lt. absurd (omega arith)) in
          let run' : match_loop fuel (h + p) needle m ≡ some (needle + e) =
            rw (start, first) at run in
          let (r, searched, to) = search_loop-SearchTo fuel (suc p) (omega arith) (omega arith) in
          let step : search_loop (suc fuel) (h + p) needle m ≡ (
              if m (needle + e) == 0 then some (h + p) else search_loop fuel (h + suc p) needle m) =
            rw more (
              ap
                (λ o. elim o [
                  | none ↦ none
                  | some n_ptr ↦
                      if m n_ptr == 0 then some (h + p) else search_loop fuel (h + p + 1) needle m
                ])
                run'
              ∙ ap (λ x. if m (needle + e) == 0 then some (h + p) else search_loop fuel x needle m)
                  next) in
          elim (Bool-cases (m (needle + e) == 0)) [
            | inl z ↦ (
              h + p,
              step ∙ rw z,
              inr (
                p,
                record {
                  at = refl;
                  from = omega arith;
                  inside = omega arith;
                  occurs = ends.occurs ((==_iff _ _).0 z);
                  none_before = λ q lo hi. absurd (omega arith);
                },
              ),
            )
            | inr nz' ↦ (r, step ∙ rw nz' searched, later p r (ends.not_here (ground arith)) to)
          ]
    ]

    -- Within one round for each byte and two more, `strstr` returns the first place of the string where
    -- the needle lies, or null, where it lies nowhere; an empty needle lies at the beginning.
    pub strstr-first :
        (fuel : ℕ)
        → suc len < fuel
        → (r : ℕ) × (strstr fuel h needle m ≡ some r)
          × (((k ≡ 0) × (r ≡ h)) ⊎ ((0 < k) × SearchTo 0 r))
    unfolding strstr
    strstr-first fuel enough = elim (Bool-cases (m needle == 0)) [
      | inl z ↦
          let first : needle + 0 ≡ needle = omega arith in
          let null : m (needle + 0) ≡ 0 = rw first ((==_iff _ _).0 z) in
          rw z (h, refl, inl (sym (end_of m needle k 0 is (omega arith) null), refl))
      | inr some_needle ↦
          let first : needle + 0 ≡ needle = omega arith in
          let start : h + 0 ≡ h = omega arith in
          let longer : 0 ≢ k = λ e.
            let z : m needle ≡ 0 = rw first at (rw (sym e) at is.ends) in
            let c : (m needle == 0) ≡ true = rw z in
            let d : true ≡ false = sym c ∙ some_needle in cc in
          let (r, searched, to) = search_loop-SearchTo fuel 0 (omega arith) (omega arith) in
          rw some_needle (r, rw start at searched, inr (omega arith, to))
    ]
