-- ===== src/Gdt/Decode.antt =====
-- What the processor reads from a descriptor, by the fields of its architecture.
use unnamed.Prelude.{ℕ, ◌+◌, ◌*◌, ◌/◌, ◌%◌, ◌^◌, ◌≡◌, arith}
use unnamed.Prelude.Bits.{bit_and_low}
use unnamed.Gdt.{create_descriptor, descriptor_word}

abbrev pub segment_base : ℕ → ℕ
segment_base w = w / 2 ^ 16 % 2 ^ 24 + w / 2 ^ 56 % 2 ^ 8 * 2 ^ 24

abbrev pub segment_limit : ℕ → ℕ
segment_limit w = w % 2 ^ 16 + w / 2 ^ 48 % 2 ^ 4 * 2 ^ 16

abbrev pub segment_access : ℕ → ℕ
segment_access w = w / 2 ^ 40 % 2 ^ 8

abbrev pub segment_flags : ℕ → ℕ
segment_flags w = w / 2 ^ 52 % 2 ^ 4

word_lem :
    (base limit access flags : ℕ)
    → descriptor_word (create_descriptor base limit access flags)
      ≡ limit % 2 ^ 16
        + base % 2 ^ 24 * 2 ^ 16
        + access % 2 ^ 8 * 2 ^ 40
        + limit / 2 ^ 16 % 2 ^ 4 * 2 ^ 48
        + flags % 2 ^ 4 * 2 ^ 52
        + base / 2 ^ 24 % 2 ^ 8 * 2 ^ 56
unfolding create_descriptor descriptor_word
word_lem base limit access flags =
    rw
      (
        bit_and_low 16 limit,
        bit_and_low 16 base,
        bit_and_low 8 (base / 2 ^ 16),
        bit_and_low 4 (limit / 2 ^ 16),
        bit_and_low 8 (base / 2 ^ 24),
      )
      (omega arith)

-- The processor reads from a descriptor the low 32 bits of the base, the low 20 bits of the limit,
-- the access byte and the low four flags that it was created from.
pub create_descriptor-decode :
    (base limit access flags : ℕ)
    → (let w = descriptor_word (create_descriptor base limit access flags) in
        (segment_base w ≡ base % 2 ^ 32)
        × (segment_limit w ≡ limit % 2 ^ 20)
        × (segment_access w ≡ access % 2 ^ 8)
        × (segment_flags w ≡ flags % 2 ^ 4))
create_descriptor-decode base limit access flags =
    rw (word_lem base limit access flags) (omega arith, omega arith, omega arith, omega arith)
