-- ===== src/Strings.antt =====
-- kernel/lib/string.hpp: the class String, an owned buffer in memory with a zero behind its bytes. The
-- addresses that `operator new` gives are arguments.
pub mod Contents
mod Tests
use unnamed.Prelude.{ℕ, ◌+◌, Bool, not, ◌&&◌, Option, none, some, ◌==◌, if◌then◌else◌}
use unnamed.Bytes.{Bytes, write, memcpy, memcmp, strlen}

-- `data_` is 0 where it is null.
pub record String : Type 0 where
  pub data_ptr : ℕ
  pub size : ℕ

-- `String() = default`
abbrev pub empty_string : String
empty_string = record { data_ptr = 0; size = 0 }

-- On an empty string, with the buffer that `new` gives.
unfoldable pub assign : (s n buffer : ℕ) → Bytes → String × Bytes
assign s n buffer m =
    if n == 0
    then (empty_string, m)
    else (record { data_ptr = buffer; size = n }, write (memcpy buffer s n m).1 (buffer + n) 0)

abbrev pub assign_length : (s buffer : ℕ) → Option ℕ → Bytes → Option (String × Bytes)
assign_length s buffer none m = none
assign_length s buffer (some n) m = some (assign s n buffer m)

-- `String(const char *)`; nothing is a string whose end `strlen` does not find in so many rounds.
unfoldable pub from_chars : (fuel s buffer : ℕ) → Bytes → Option (String × Bytes)
from_chars fuel s buffer m =
    if s == 0 then some (empty_string, m) else assign_length s buffer (strlen fuel 0 s m) m

-- `String(const String &)`
unfoldable pub copy : (other : String) (buffer : ℕ) → Bytes → String × Bytes
unfolding assign
copy other buffer m = assign other.data_ptr other.size buffer m

-- The new string, and what is left of the other.
abbrev pub move_construct : String → String × String
move_construct other = (other, empty_string)

-- The string after `operator=`, and the argument, which is destroyed with what the string held.
abbrev pub assign_string : (this other : String) → String × String
assign_string this other = (other, this)

-- `literal` is the address of the empty string literal.
abbrev pub c_str : (literal : ℕ) → String → ℕ
c_str literal s = if s.data_ptr == 0 then literal else s.data_ptr

abbrev pub is_empty : String → Bool
is_empty s = s.size == 0

unfoldable pub equals : (literal : ℕ) (a b : String) → Bytes → Bool
equals literal a b m = a.size == b.size && memcmp (c_str literal a) (c_str literal b) a.size m == 0

unfoldable pub differs : (literal : ℕ) (a b : String) → Bytes → Bool
unfolding equals
differs literal a b m = not (equals literal a b m)
