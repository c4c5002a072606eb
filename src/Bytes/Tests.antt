-- ===== src/Bytes/Tests.antt =====
-- Runs of kernel/lib/memory.cpp on a few bytes, and the theorems at them.
use unnamed.Prelude.{ℕ, ◌-◌, ◌^◌, ◌<◌, ◌≡◌, refl, ◌⊎◌, some, arith, if◌then◌else◌, ◌==◌}
use unnamed.Bytes.{Bytes, memset, memcpy, memmove, memcmp, strlen, strcmp, strstr, match_loop}
use unnamed.Bytes.Moves.{moved, memmove-moved}
use unnamed.Bytes.Strings.{IsString, SearchTo, strstr-first}

-- The string "abab" at 10, "ba" at 20, and zeros.
abbrev text : Bytes
text a =
    if a == 10
    then 97
    else if a == 11
    then 98
    else if a == 12
    then 97
    else if a == 13
    then 98
    else if a == 20
    then 98
    else if a == 21
    then 97
    else 0

-- The range overlaps its copy.
memmove_runs : (memmove 11 10 4 text).1 14 ≡ 98
unfolding memmove memcpy
memmove_runs = refl

memset_runs : (memset 10 0x141 2 text).1 11 ≡ 0x41
unfolding memset
memset_runs = refl

strlen_runs : strlen 9 0 10 text ≡ some 4
unfolding strlen
strlen_runs = refl

strcmp_runs : strcmp 9 10 20 text ≡ some (2 ^ 32 - 1)
unfolding strcmp
strcmp_runs = refl

strstr_runs : strstr 9 10 20 text ≡ some 11
unfolding strstr match_loop
strstr_runs = refl

haystack-IsString : IsString text 10 4
haystack-IsString = record { ends = refl; some_byte = λ i lt. ground arith }

needle-IsString : IsString text 20 2
needle-IsString = record { ends = refl; some_byte = λ i lt. ground arith }

abbrev needle_length : ℕ
needle_length = 2

memmove-moved_example :
    ((memmove 11 10 4 text).0 ≡ 11) × ((a : ℕ) → (memmove 11 10 4 text).1 a ≡ moved 11 10 4 text a)
memmove-moved_example = memmove-moved 11 10 4 text

memcmp_runs : memcmp 10 20 2 text ≡ 2 ^ 32 - 1
unfolding memcmp
memcmp_runs = refl

strstr-first_example :
    (r : ℕ) × (strstr 9 10 20 text ≡ some r)
    × (((needle_length ≡ 0) × (r ≡ 10))
        ⊎ ((0 < needle_length)
            × SearchTo text 20 needle_length needle-IsString 10 4 haystack-IsString 0 r))
strstr-first_example = strstr-first text 20 2 needle-IsString 10 4 haystack-IsString 9 (omega arith)
