-- ===== src/Bytes.antt =====
-- kernel/lib/memory.cpp: the memory and string functions of C, on memory by bytes. Pointers are
-- addresses, and the loops along a string run on fuel.
pub mod Moves
pub mod Strings
mod Tests
use unnamed.Prelude.{
  ℕ, zero, suc, ◌+◌, ◌-◌, ◌%◌, ◌^◌, Bool, true, false, ◌&&◌, ◌||◌, not, Option, none, some, ltb,
  ◌==◌, if◌then◌else◌,
}

abbrev pub Bytes : Type 0
Bytes = ℕ → ℕ

abbrev pub write : Bytes → (a v : ℕ) → Bytes
write m a v b = if b == a then v else m b

unfoldable pub set_loop : (count i dest value : ℕ) → Bytes → Bytes
set_loop zero i dest value m = m
set_loop (suc n) i dest value m = set_loop n (suc i) dest value (write m (dest + i) value)

-- `dest` is returned.
unfoldable pub memset : (dest ch count : ℕ) → Bytes → ℕ × Bytes
unfolding set_loop
memset dest ch count m =
    if dest == 0 || count == 0 then (dest, m) else (dest, set_loop count 0 dest (ch % 256) m)

-- The bytes from the `i`-th on, upwards.
unfoldable pub copy_up : (n i dest src : ℕ) → Bytes → Bytes
copy_up zero i dest src m = m
copy_up (suc n) i dest src m = copy_up n (suc i) dest src (write m (dest + i) (m (src + i)))

unfoldable pub memcpy : (dest src n : ℕ) → Bytes → ℕ × Bytes
unfolding copy_up
memcpy dest src n m = (dest, copy_up n 0 dest src m)

-- The first `n` bytes, downwards.
unfoldable pub copy_down : (n dest src : ℕ) → Bytes → Bytes
copy_down zero dest src m = m
copy_down (suc n) dest src m = copy_down n dest src (write m (dest + n) (m (src + n)))

unfoldable pub memmove : (dest src n : ℕ) → Bytes → ℕ × Bytes
unfolding memcpy copy_down
memmove dest src n m =
    if ltb dest src
    then memcpy dest src n m
    else if ltb src dest
    then (dest, copy_down n dest src m)
    else (dest, m)

-- The difference of two bytes as an `int`, a word of 32 bits.
abbrev pub difference : (x y : ℕ) → ℕ
difference x y = (x + 2 ^ 32 - y) % 2 ^ 32

unfoldable pub compare_loop : (n i s1 s2 : ℕ) → Bytes → ℕ
compare_loop zero i s1 s2 m = 0
compare_loop (suc n) i s1 s2 m =
    let rest = compare_loop n (suc i) s1 s2 m in
    if not (m (s1 + i) == m (s2 + i)) then difference (m (s1 + i)) (m (s2 + i)) else rest

unfoldable pub memcmp : (s1 s2 n : ℕ) → Bytes → ℕ
unfolding compare_loop
memcmp s1 s2 n m = compare_loop n 0 s1 s2 m

-- Nothing is the loop that goes on.
unfoldable pub strlen : (fuel len s : ℕ) → Bytes → Option ℕ
strlen zero len s m = none
strlen (suc fuel) len s m =
    let rest = strlen fuel (suc len) s m in if m (s + len) == 0 then some len else rest

unfoldable pub strcmp : (fuel s1 s2 : ℕ) → Bytes → Option ℕ
strcmp zero s1 s2 m = none
strcmp (suc fuel) s1 s2 m =
    let rest = strcmp fuel (s1 + 1) (s2 + 1) m in
    if not (m s1 == 0) && m s1 == m s2 then rest else some (difference (m s1) (m s2))

-- The inner loop of `strstr`: the pointer into the needle where it ends.
unfoldable pub match_loop : (fuel h_ptr n_ptr : ℕ) → Bytes → Option ℕ
match_loop zero h_ptr n_ptr m = none
match_loop (suc fuel) h_ptr n_ptr m =
    let rest = match_loop fuel (h_ptr + 1) (n_ptr + 1) m in
    if not (m h_ptr == 0) && not (m n_ptr == 0) && m h_ptr == m n_ptr then rest else some n_ptr

-- The outer loop; 0 is null.
unfoldable pub search_loop : (fuel h needle : ℕ) → Bytes → Option ℕ
unfolding match_loop
search_loop zero h needle m = none
search_loop (suc fuel) h needle m =
    let rest = search_loop fuel (h + 1) needle m in
    if m h == 0 then some 0 else elim (match_loop fuel h needle m) [
      | none ↦ none
      | some n_ptr ↦ if m n_ptr == 0 then some h else rest
    ]

unfoldable pub strstr : (fuel haystack needle : ℕ) → Bytes → Option ℕ
unfolding search_loop
strstr fuel haystack needle m =
    if m needle == 0 then some haystack else search_loop fuel haystack needle m
