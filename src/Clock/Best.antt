-- ===== src/Clock/Best.antt =====
-- The best clock source is the first of those with the highest rating.
use mathlib.Core.Path.{subst}
use unnamed.Prelude.{
  ◌≤◌, ◌<◌, ◌≡◌, ◌⊎◌, refl, sym, List, [], ◌∷◌, All, arith, some, Option, Bool-cases, inl, inr, ltb,
  ltb→lt,
}
use unnamed.Clock.{Clocksource, select, init_best}

-- `best` is in the list; the sources before it are rated lower, those after it not higher.
abbrev pub IsBest : Clocksource → List Clocksource → Type 0
IsBest best [] = ⊥
IsBest best (cs ∷ sources) =
    ((cs ≡ best) × All (λ other. other.rating ≤ best.rating) sources)
    ⊎ ((cs.rating < best.rating) × IsBest best sources)

head_not_higher :
    (best cs : Clocksource) (sources : List Clocksource)
    → IsBest best (cs ∷ sources)
    → cs.rating ≤ best.rating
head_not_higher best cs sources (inl (e, rest)) = rw e (omega arith)
head_not_higher best cs sources (inr (lt, rest)) = omega arith

-- A source that is not rated higher than the first may stand behind it.
IsBest-skip :
    (best w cs : Clocksource) (sources : List Clocksource)
    → cs.rating ≤ w.rating
    → IsBest best (w ∷ sources)
    → IsBest best (w ∷ cs ∷ sources)
IsBest-skip best w cs sources le (inl (e, rest)) = inl (e, (rw (sym e) le, rest))
IsBest-skip best w cs sources le (inr (lt, rest)) = inr (lt, inr (omega arith, rest))

select-IsBest :
    (w : Clocksource) (sources : List Clocksource) → IsBest (select w sources) (w ∷ sources)
unfolding select
select-IsBest w [] = inl (refl, tt)
select-IsBest w (cs ∷ sources) = elim (Bool-cases (ltb w.rating cs.rating)) [
  | inl more ↦
      let ih = select-IsBest cs sources in
      let up = head_not_higher (select cs sources) cs sources ih in
      let lt : w.rating < cs.rating = ltb→lt _ _ more in
      let step : select w (cs ∷ sources) ≡ select cs sources = rw more in
      subst (λ q. IsBest q (w ∷ cs ∷ sources)) (sym step) (inr (omega arith, ih))
  | inr less ↦
      let step : select w (cs ∷ sources) ≡ select w sources = rw less in
      subst (λ q. IsBest q (w ∷ cs ∷ sources)) (sym step)
        (IsBest-skip (select w sources) w cs sources (ground arith) (select-IsBest w sources))
]

-- Where a source is registered, `init` makes the first of those with the highest rating the best.
pub init_best-IsBest :
    (best : Option Clocksource) (cs : Clocksource) (sources : List Clocksource)
    → (winner : Clocksource) × (init_best best (cs ∷ sources) ≡ some winner)
      × IsBest winner (cs ∷ sources)
unfolding init_best
init_best-IsBest best cs sources = (select cs sources, refl, select-IsBest cs sources)
