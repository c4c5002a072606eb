-- ===== src/Vector.antt =====
-- kernel/lib/vector.hpp: the growable array. A slot of the buffer holds an object or none; that
-- `operator new` gives a buffer is assumed, as the code does.
pub mod Loops
pub mod Elements
pub mod Copies
mod Tests
use unnamed.Prelude.{
  Bool, ℕ, zero, suc, ◌+◌, ◌-◌, Option, none, some, ◌==◌, leb, ltb, if◌then◌else◌,
}
use unnamed.Prelude.Words.{mul64}

abbrev pub Slots {ℓ} : Type ℓ → Type ℓ
Slots A = ℕ → Option A

module _ {ℓ} {A : Type ℓ} where
  abbrev pub put : Slots A → (i : ℕ) → Option A → Slots A
  put slots i slot j = if j == i then slot else slots j

pub record Vector {ℓ} (A : Type ℓ) : Type ℓ where
  pub slots : Slots A
  pub size : ℕ
  pub capacity : ℕ

module _ {ℓ} {A : Type ℓ} where
  -- The loop of `reserve` from `i`, for `count` rounds: an object moves to the new buffer.
  pub relocate : (count i : ℕ) (slots fresh : Slots A) → Slots A
  relocate zero i slots fresh = fresh
  relocate (suc n) i slots fresh = relocate n (suc i) (put slots i none) (put fresh i (slots i))

  unfoldable pub reserve : (new_cap : ℕ) → Vector A → Vector A
  unfolding relocate
  reserve new_cap v = if leb new_cap v.capacity then v else record {
    slots = relocate v.size 0 v.slots (λ _. none);
    size = v.size;
    capacity = new_cap;
  }

  grown : Vector A → Vector A
  unfolding reserve
  grown v =
      if v.size == v.capacity
      then reserve (if v.capacity == 0 then 4 else mul64 v.capacity 2) v
      else v

  unfoldable pub push_back : A → Vector A → Vector A
  unfolding grown
  push_back value v =
      let w = grown v in record w { slots = put w.slots w.size (some value); size = suc w.size }

  unfoldable pub pop_back : Vector A → Vector A
  pop_back v =
      if v.size == 0
      then v
      else record v { slots = put v.slots (v.size - 1) none; size = v.size - 1 }

  -- `std::swap(data_[i], data_[i - 1])` for `i` down to `idx`
  pub bubble : (i idx : ℕ) → Slots A → Slots A
  bubble zero idx slots = slots
  bubble (suc i) idx slots =
      let rest = bubble i idx (put (put slots (suc i) (slots i)) i (slots (suc i))) in
      if ltb idx (suc i) then rest else slots

  unfoldable pub insert : (idx : ℕ) → A → Vector A → Vector A
  unfolding push_back bubble
  insert idx value v =
      let w = push_back value v in record w { slots = bubble (w.size - 1) idx w.slots }

  -- `data_[i] = std::move(data_[i + 1])` for `i` while `i + 1 < size_`
  pub shift_down : (rounds i size : ℕ) → Slots A → Slots A
  shift_down zero i size slots = slots
  shift_down (suc n) i size slots =
      let rest = shift_down n (suc i) size (put slots i (slots (suc i))) in
      if ltb (suc i) size then rest else slots

  unfoldable pub erase : (idx : ℕ) → Vector A → Vector A
  unfolding shift_down pop_back
  erase idx v = pop_back (record v { slots = shift_down v.size idx v.size v.slots })

  -- `while (size_) pop_back();`, for so many rounds
  unfoldable pub clear_loop : (rounds : ℕ) → Vector A → Vector A
  unfolding pop_back
  clear_loop zero v = v
  clear_loop (suc n) v = (let rest = clear_loop n (pop_back v) in if v.size == 0 then v else rest)

  unfoldable pub clear : Vector A → Vector A
  unfolding clear_loop
  clear v = clear_loop v.size v

  -- `Vector() = default`
  abbrev pub fresh : Vector A
  fresh = record { slots = λ _. none; size = 0; capacity = 0 }

  -- The new vector, and what is left of the other.
  abbrev pub move_construct : Vector A → Vector A × Vector A
  move_construct other = (other, fresh)

  -- The loop of the copy constructor, from the element `i` on; nothing is the use of a slot without
  -- an object.
  unfoldable pub copy_loop : (count i : ℕ) → Slots A → Vector A → Option (Vector A)
  unfolding push_back
  copy_loop zero i slots v = some v
  copy_loop (suc n) i slots v = elim (slots i) [
    | none ↦ none
    | some value ↦ copy_loop n (suc i) slots (push_back value v)
  ]

  unfoldable pub copy : Vector A → Option (Vector A)
  unfolding reserve copy_loop
  copy other = copy_loop other.size 0 other.slots (reserve other.size fresh)

  -- Both vectors after `swap`
  abbrev pub swap : (v other : Vector A) → Vector A × Vector A
  swap v other = (other, v)

  -- The vector after `operator=`, and the argument, which is destroyed with what the vector held.
  abbrev pub assign : (v other : Vector A) → Vector A × Vector A
  assign v other = swap v other

  -- The element at an index, of the first and of the last one; nothing is the use of a slot without
  -- an object.
  abbrev pub at_index : (idx : ℕ) → Vector A → Option A
  at_index idx v = v.slots idx

  abbrev pub front : Vector A → Option A
  front v = v.slots 0

  abbrev pub back : Vector A → Option A
  back v = v.slots (v.size - 1)

  abbrev pub is_empty : Vector A → Bool
  is_empty v = v.size == 0
