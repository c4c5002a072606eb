-- ===== src/Vector/Tests.antt =====
-- The vector at a full buffer of four numbers.
use unnamed.Prelude.{ℕ, ◌*◌, ◌≡◌, refl, none, some, ltb, arith, true, false, if◌then◌else◌}
use unnamed.Vector.{Vector, insert, erase}
use unnamed.Vector.Elements.{Holds, inserted, removed, insert-Holds, erase-Holds}

abbrev tens : ℕ → ℕ
tens i = 10 * i

abbrev full : Vector ℕ
full = record { slots = λ i. if ltb i 4 then some (tens i) else none; size = 4; capacity = 4 }

full-Holds : Holds full 4 tens
full-Holds = record {
  sized = refl;
  room = omega arith;
  live = λ i lt. (let below : ltb i 4 ≡ true = ground arith in rw below);
  rest = λ i ge. (let past : ltb i 4 ≡ false = ground arith in rw past);
}

-- The buffer doubles, and the elements move.
insert_run : ((insert 1 7 full).capacity ≡ 8) × ((insert 1 7 full).slots 4 ≡ some 30)
unfolding insert
insert_run = (refl, refl)

insert-Holds_example : Holds (insert 1 7 full) 5 (inserted 1 7 tens)
insert-Holds_example = insert-Holds 1 4 full tens 7 (omega arith) (omega arith) full-Holds

erase-Holds_example : Holds (erase 1 full) 3 (removed 1 tens)
erase-Holds_example = erase-Holds 1 3 full tens (omega arith) full-Holds
