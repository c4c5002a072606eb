-- ===== src/Idt/Decode.antt =====
-- What the processor reads from a gate descriptor, and from the whole table.
use unnamed.Prelude.{
  ℕ, zero, suc, ◌+◌, ◌*◌, ◌/◌, ◌%◌, ◌^◌, ◌≤◌, ◌<◌, ◌≡◌, ◌∙◌, Bool, true, false, arith, ◌==◌,
  Bool-cases, ==_iff, inl, inr, if◌then◌else◌, leb, ltb, ◌&&◌,
}
use unnamed.Prelude.Bits.{bit_and_low}
use unnamed.Idt.{
  IdtEntry, create_idt_entry, low_word, high_word, init_from, init_idt_table, gate_interrupt,
}

-- The fields of a gate by the architecture, from its two words.
pub record IsGate (e : IdtEntry) (offset segment ist gate_type dpl present : ℕ) : Type 0 where
  pub offset_read :
      low_word e % 2 ^ 16 + low_word e / 2 ^ 48 % 2 ^ 16 * 2 ^ 16 + high_word e % 2 ^ 32 * 2 ^ 32
      ≡ offset
  pub segment_read : low_word e / 2 ^ 16 % 2 ^ 16 ≡ segment
  pub ist_read : low_word e / 2 ^ 32 % 2 ^ 3 ≡ ist
  pub gate_type_read : low_word e / 2 ^ 40 % 2 ^ 4 ≡ gate_type
  pub dpl_read : low_word e / 2 ^ 45 % 2 ^ 2 ≡ dpl
  pub present_read : low_word e / 2 ^ 47 % 2 ≡ present
  -- the bits that have to be zero
  pub reserved :
      (low_word e / 2 ^ 35 % 2 ^ 5 ≡ 0) × (low_word e / 2 ^ 44 % 2 ≡ 0) × (high_word e / 2 ^ 32 ≡ 0)

module _ (offset ist gate_type dpl : ℕ) (present : Bool) (segment : ℕ)
    (fits : segment < 2 ^ 16) where
  abbrev entry : IdtEntry
  entry = create_idt_entry offset ist gate_type dpl present segment

  abbrev bit : ℕ
  bit = if present then 1 else 0

  low_word_lem :
      low_word entry
      ≡ offset % 2 ^ 16
        + segment * 2 ^ 16
        + ist % 2 ^ 3 * 2 ^ 32
        + gate_type % 2 ^ 4 * 2 ^ 40
        + dpl % 2 ^ 2 * 2 ^ 45
        + bit * 2 ^ 47
        + offset / 2 ^ 16 % 2 ^ 16 * 2 ^ 48
  unfolding create_idt_entry low_word
  low_word_lem =
      rw (bit_and_low 16 offset, bit_and_low 3 ist, bit_and_low 16 (offset / 2 ^ 16)) (omega arith)

  high_word_lem : high_word entry ≡ offset / 2 ^ 32 % 2 ^ 32
  unfolding create_idt_entry high_word
  high_word_lem = rw (bit_and_low 32 (offset / 2 ^ 32)) (omega arith)

  bit_small : bit ≤ 1
  bit_small = ground arith

  -- The processor reads from a gate the offset, the segment and the parts that it was created from,
  -- cut to the widths of their fields, and zeros in the reserved bits. The segment has 16 bits.
  pub create_idt_entry-IsGate :
      IsGate entry (offset % 2 ^ 64) segment (ist % 2 ^ 3) (gate_type % 2 ^ 4) (dpl % 2 ^ 2) bit
  create_idt_entry-IsGate =
      let b = bit_small in
      record {
        offset_read = rw (low_word_lem, high_word_lem) (omega arith);
        segment_read = rw low_word_lem (omega arith);
        ist_read = rw low_word_lem (omega arith);
        gate_type_read = rw low_word_lem (omega arith);
        dpl_read = rw low_word_lem (omega arith);
        present_read = rw low_word_lem (omega arith);
        reserved = (
          rw low_word_lem (omega arith),
          rw low_word_lem (omega arith),
          rw high_word_lem (omega arith),
        );
      }

-- The loop writes the entries from `i` on, and no other.
init_from_lem :
    (pointers : ℕ → ℕ) (count i j : ℕ) (idt : ℕ → IdtEntry)
    → init_from pointers count i idt j ≡ (
        if leb i j && ltb j (i + count)
        then create_idt_entry (pointers j) 0 gate_interrupt 0 true 8
        else idt j)
unfolding init_from
init_from_lem pointers zero i j idt =
    (let e : (leb i j && ltb j (i + 0)) ≡ false = ground arith in rw e)
init_from_lem pointers (suc n) i j idt =
    init_from_lem pointers n (suc i) j _ ∙ elim (Bool-cases (j == i)) [
      | inl e ↦
          let here = (==_iff _ _).0 e in
          let past : (leb (suc i) j && ltb j (suc i + n)) ≡ false = ground arith in
          let now : (leb i j && ltb j (i + suc n)) ≡ true = ground arith in rw (past, now, e, here)
      | inr e ↦
          let same : (leb (suc i) j && ltb j (suc i + n)) ≡ (leb i j && ltb j (i + suc n)) =
            ground arith in
          rw (same, e)
    ]

-- After `init_idt_table` each of the 256 entries is a present interrupt gate of ring 0 in the kernel
-- code segment that leads to its stub.
pub init_idt_table-IsGate :
    (pointers : ℕ → ℕ) (idt : ℕ → IdtEntry) (j : ℕ)
    → j < 256
    → IsGate (init_idt_table pointers idt j) (pointers j % 2 ^ 64) 8 0 0xe 0 1
unfolding init_idt_table
init_idt_table-IsGate pointers idt j lt =
    let e : (leb 0 j && ltb j (0 + 256)) ≡ true = ground arith in
    rw (init_from_lem pointers 256 0 j idt, e)
      (create_idt_entry-IsGate (pointers j) 0 gate_interrupt 0 true 8 (omega arith))
