-- ===== src/Vector/Elements.antt =====
-- What the operations of the vector do to its elements; objects live exactly below the size.
use unnamed.Prelude.{
  ℕ, suc, ◌+◌, ◌-◌, ◌^◌, ◌≤◌, ◌<◌, ◌≡◌, refl, ap, ◌∙◌, none, some, ◌==◌, leb, ltb, ◌||◌, ◌&&◌,
  arith, true, false, Bool-cases, inl, inr, if◌then◌else◌,
}
use unnamed.Vector.{Vector, reserve, grown, push_back, pop_back, insert, shift_down, erase}
use unnamed.Prelude.Words.{mul64}
use unnamed.Vector.Loops.{relocate_lem, bubble_lem, shift_down_lem}

module _ {A : Type 0} where
  -- The elements `f` below the size live in the buffer, and no other object does.
  pub record Holds (v : Vector A) (n : ℕ) (f : ℕ → A) : Type 0 where
    pub sized : v.size ≡ n
    pub room : n ≤ v.capacity
    pub live : (i : ℕ) → i < n → v.slots i ≡ some (f i)
    pub rest : (i : ℕ) → n ≤ i → v.slots i ≡ none

  pub reserve-Holds :
      (new_cap n : ℕ) (v : Vector A) (f : ℕ → A) → Holds v n f → Holds (reserve new_cap v) n f
  unfolding reserve
  reserve-Holds new_cap n v f h = elim (Bool-cases (leb new_cap v.capacity)) [
    | inl enough ↦ rw enough h
    | inr more ↦
        let room = h.room in
        rw more (record {
          sized = h.sized;
          room = ground arith;
          live = λ i lt.
              let inside : (leb 0 i && ltb i (0 + v.size)) ≡ true = ground (arith, h.sized) in
              relocate_lem v.size 0 i v.slots (λ _. none) ∙ rw inside (h.live i lt);
          rest = λ i ge.
              let outside : (leb 0 i && ltb i (0 + v.size)) ≡ false = ground (arith, h.sized) in
              relocate_lem v.size 0 i v.slots (λ _. none) ∙ rw outside;
        })
  ]

  reserve-capacity :
      (new_cap : ℕ) (v : Vector A) → v.capacity < new_cap → (reserve new_cap v).capacity ≡ new_cap
  unfolding reserve
  reserve-capacity new_cap v lt =
      (let more : leb new_cap v.capacity ≡ false = ground arith in rw more)

  -- After growing there is room for one more.
  grown-Holds :
      (n : ℕ) (v : Vector A) (f : ℕ → A)
      → v.capacity < 2 ^ 63
      → Holds v n f
      → Holds (grown v) n f × (n < (grown v).capacity)
  unfolding grown
  grown-Holds n v f small h = elim (Bool-cases (v.size == v.capacity)) [
    | inl full ↦
        let cap : ℕ = if v.capacity == 0 then 4 else mul64 v.capacity 2 in
        let more : v.capacity < cap = ground arith in
        let room = h.room in
        rw (full, reserve-capacity cap v more) (reserve-Holds cap n v f h, omega arith)
    | inr some_room ↦ rw some_room (h, (let room = h.room in let s = h.sized in ground arith))
  ]

  grown_room : (v : Vector A) → (v.size == v.capacity) ≡ false → grown v ≡ v
  unfolding grown
  grown_room v some_room = rw some_room

  -- The elements with `value` put in front of the `idx`-th, and without the `idx`-th.
  abbrev pub inserted : (idx : ℕ) → A → (ℕ → A) → ℕ → A
  inserted idx value f j = if ltb j idx then f j else if j == idx then value else f (j - 1)

  abbrev pub removed : (idx : ℕ) → (ℕ → A) → ℕ → A
  removed idx f j = if ltb j idx then f j else f (suc j)

  -- `push_back` puts the value behind the elements, growing the buffer where it is full. The
  -- capacity is below 2^63.
  pub push_back-Holds :
      (n : ℕ) (v : Vector A) (f : ℕ → A) (value : A)
      → v.capacity < 2 ^ 63
      → Holds v n f
      → Holds (push_back value v) (suc n) (inserted n value f)
  unfolding push_back
  push_back-Holds n v f value small h =
      let (g, room) = grown-Holds n v f small h in
      let s = g.sized in
      record {
        sized = ap suc g.sized;
        room = room;
        live = λ i lt. elim (Bool-cases (i == n)) [
          | inl e ↦
              let new : (i == (grown v).size) ≡ true = ground arith in
              let here : ltb i n ≡ false = ground arith in rw (new, here, e)
          | inr e ↦
              let old : (i == (grown v).size) ≡ false = ground arith in
              let below : ltb i n ≡ true = ground arith in rw (old, below) (g.live i (ground arith))
        ];
        rest = λ i ge. (let l = g.rest i (omega arith) in ground arith);
      }

  -- Where there is room, `push_back` keeps the buffer.
  pub push_back_room :
      (v : Vector A) (value : A) → v.size < v.capacity → (push_back value v).capacity ≡ v.capacity
  unfolding push_back
  push_back_room v value room =
      let some_room : (v.size == v.capacity) ≡ false = ground arith in
      ap (λ w. w.capacity) (grown_room v some_room)

  pub pop_back-Holds :
      (n : ℕ) (v : Vector A) (f : ℕ → A) → Holds v (suc n) f → Holds (pop_back v) n f
  unfolding pop_back
  pop_back-Holds n v f h =
      let some_size : (v.size == 0) ≡ false = ground (arith, h.sized) in
      let last : v.size - 1 ≡ n = omega (arith, h.sized) in
      rw (some_size, last)
        (record {
          sized = refl;
          room = omega (arith, h.room);
          live = λ i lt. (let l = h.live i (omega arith) in ground arith);
          rest = λ i ge. elim (Bool-cases (i == n)) [
            | inl e ↦ rw e
            | inr e ↦ rw e (h.rest i (ground arith))
          ];
        })

  insert_slot :
      (idx n i : ℕ) (w : Vector A) (f : ℕ → A) (value : A)
      → idx ≤ n
      → i < suc n
      → Holds w (suc n) (inserted n value f)
      → (if ltb i idx || ltb n i
          then w.slots i
          else if i == idx
          then w.slots n
          else w.slots (i - 1))
        ≡ some (inserted idx value f i)
  insert_slot idx n i w f value le lt p =
      let inside : ltb n i ≡ false = ground arith in
      elim (Bool-cases (ltb i idx)) [
        | inl below ↦ let old : ltb i n ≡ true = ground arith in rw below (p.live i lt ∙ rw old)
        | inr not_below ↦ elim (Bool-cases (i == idx)) [
          | inl here ↦
              let last : (ltb n n ≡ false) × ((n == n) ≡ true) = ground arith in
              rw (not_below, inside, here) (p.live n (omega arith) ∙ rw (last.0, last.1))
          | inr above ↦
              let old : ltb (i - 1) n ≡ true = ground arith in
              rw (not_below, inside, above) (p.live (i - 1) (omega arith) ∙ rw old)
        ]
      ]

  -- `insert` puts the value in front of the element at the index, or behind the last. The capacity
  -- is below 2^63.
  pub insert-Holds :
      (idx n : ℕ) (v : Vector A) (f : ℕ → A) (value : A)
      → v.capacity < 2 ^ 63
      → idx ≤ n
      → Holds v n f
      → Holds (insert idx value v) (suc n) (inserted idx value f)
  unfolding insert
  insert-Holds idx n v f value small le h =
      let p = push_back-Holds n v f value small h in
      let w = push_back value v in
      let top : w.size - 1 ≡ n = omega (arith, p.sized) in
      record {
        sized = p.sized;
        room = p.room;
        live =
            λ i lt. rw (top, bubble_lem n idx i w.slots le) (insert_slot idx n i w f value le lt p);
        rest = λ i ge.
            rw (top, bubble_lem n idx i w.slots le)
              (let past : ltb n i ≡ true = ground arith in
                let not_below : ltb i idx ≡ false = ground arith in
                rw (not_below, past) (p.rest i ge));
      }

  pub Holds-below :
      (n : ℕ) (v : Vector A) (f g : ℕ → A)
      → ((i : ℕ) → i < n → f i ≡ g i)
      → Holds v n f
      → Holds v n g
  Holds-below n v f g same h = record {
    sized = h.sized;
    room = h.room;
    live = λ i lt. h.live i lt ∙ ap some (same i lt);
    rest = h.rest;
  }

  -- The elements after the loop of `erase`: the last stands twice.
  abbrev shifted : (idx n : ℕ) → (ℕ → A) → ℕ → A
  shifted idx n f j = if leb idx j && ltb j n then f (suc j) else f j

  shift_down-Holds :
      (idx n : ℕ) (v : Vector A) (f : ℕ → A)
      → idx ≤ n
      → Holds v (suc n) f
      → Holds (record v { slots = shift_down v.size idx v.size v.slots }) (suc n) (shifted idx n f)
  shift_down-Holds idx n v f le h =
      let each = λ (j : ℕ). shift_down_lem v.size idx v.size j v.slots (omega arith) in
      record {
        sized = h.sized;
        room = h.room;
        live = λ i lt.
            each i
            ∙ rw h.sized (elim (Bool-cases (leb idx i && ltb i n)) [
              | inl moved ↦
                  let m : (leb idx i && ltb (suc i) (suc n)) ≡ true = ground arith in
                  rw (moved, m) (h.live (suc i) (ground arith))
              | inr kept ↦
                  let m : (leb idx i && ltb (suc i) (suc n)) ≡ false = ground arith in
                  rw (kept, m) (h.live i lt)
            ]);
        rest = λ i ge.
            let m : (leb idx i && ltb (suc i) v.size) ≡ false = ground (arith, h.sized) in
            each i ∙ rw m (h.rest i ge);
      }

  -- `erase` takes out the element at the index, which is below the size.
  pub erase-Holds :
      (idx n : ℕ) (v : Vector A) (f : ℕ → A)
      → idx ≤ n
      → Holds v (suc n) f
      → Holds (erase idx v) n (removed idx f)
  unfolding erase
  erase-Holds idx n v f le h =
      let w : Vector A = record v { slots = shift_down v.size idx v.size v.slots } in
      Holds-below n (pop_back w) (shifted idx n f) (removed idx f)
        (λ i lt. elim (Bool-cases (ltb i idx)) [
          | inl below ↦ let kept : (leb idx i && ltb i n) ≡ false = ground arith in rw (below, kept)
          | inr above ↦
              let moved : (leb idx i && ltb i n) ≡ true = ground arith in rw (above, moved)
        ])
        (pop_back-Holds n w (shifted idx n f) (shift_down-Holds idx n v f le h))
