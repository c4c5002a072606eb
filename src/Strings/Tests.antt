-- ===== src/Strings/Tests.antt =====
-- Strings of kernel/lib/string.hpp on a few bytes.
use unnamed.Prelude.{
  ℕ, ◌≡◌, ◌<◌, ◌↔◌, refl, arith, Bool, true, false, Option, none, some, ◌==◌, if◌then◌else◌,
}
use unnamed.Bytes.{Bytes, memcpy, memcmp, strlen}
use unnamed.Strings.{String, from_chars, copy, equals}
use unnamed.Strings.Contents.{SameBytes, equals_iff}

-- "hi" at 10, zeros elsewhere.
abbrev text : Bytes
text a = if a == 10 then 104 else if a == 11 then 105 else 0

-- The string made from the characters equals its copy, and not the empty string.
compare_copies : Option (String × Bytes) → Bool × Bool
compare_copies none = (false, false)
compare_copies (some (s, m)) =
    let (t, n) = copy s 50 m in (equals 90 s t n, equals 90 s (record { data_ptr = 0; size = 0 }) n)

copies_run : compare_copies (from_chars 9 10 30 text) ≡ (true, false)
unfolding compare_copies from_chars copy equals memcpy memcmp strlen
copies_run = refl

-- The characters themselves, and a copy at 20.
abbrev two_texts : Bytes
two_texts a =
    if a == 10
    then 104
    else if a == 11
    then 105
    else if a == 20
    then 104
    else if a == 21
    then 105
    else 0

abbrev text_at : (a : ℕ) → String
text_at a = record { data_ptr = a; size = 2 }

two_texts_bytes : (p : ℕ) → two_texts p < 256
two_texts_bytes p = ground arith

equals_iff_example :
    (equals 90 (text_at 10) (text_at 20) two_texts ≡ true)
    ↔ SameBytes 90 (text_at 10) (text_at 20) two_texts
equals_iff_example = equals_iff two_texts 90 (text_at 10) (text_at 20) two_texts_bytes
