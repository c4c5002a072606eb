-- ===== src/Vmm/Indices.antt =====
-- kernel/mm/vmm.cpp, the parts of a virtual address: the functions that stand beside `map_virtual`.
use unnamed.Prelude.{ℕ, ◌+◌, ◌*◌, ◌/◌, ◌^◌, ◌<◌, ◌≡◌, refl, bit_and, arith}
use unnamed.Prelude.Bits.{bit_and_low}
use unnamed.Vmm.{va_index}

unfoldable pub va_offset : (va : ℕ) → ℕ
va_offset va = bit_and va 0xfff

unfoldable pub va_pt_index : (va : ℕ) → ℕ
va_pt_index va = bit_and (va / 2 ^ 12) 0x1ff

unfoldable pub va_pd_index : (va : ℕ) → ℕ
va_pd_index va = bit_and (va / 2 ^ 21) 0x1ff

unfoldable pub va_pdp_index : (va : ℕ) → ℕ
va_pdp_index va = bit_and (va / 2 ^ 30) 0x1ff

unfoldable pub va_pml4_index : (va : ℕ) → ℕ
va_pml4_index va = bit_and (va / 2 ^ 39) 0x1ff

unfoldable pub va_canonical_bits : (va : ℕ) → ℕ
va_canonical_bits va = bit_and (va / 2 ^ 48) 0xffff

-- The parts make up the address again, and the four indices are those by which map_virtual walks the
-- tables.
pub va_parts :
    (va : ℕ)
    → va < 2 ^ 64
    → (va
        ≡ va_canonical_bits va * 2 ^ 48
          + va_pml4_index va * 2 ^ 39
          + va_pdp_index va * 2 ^ 30
          + va_pd_index va * 2 ^ 21
          + va_pt_index va * 2 ^ 12
          + va_offset va)
      × (va_pml4_index va ≡ va_index 39 va)
      × (va_pdp_index va ≡ va_index 30 va)
      × (va_pd_index va ≡ va_index 21 va)
      × (va_pt_index va ≡ va_index 12 va)
unfolding va_offset va_pt_index va_pd_index va_pdp_index va_pml4_index va_canonical_bits va_index
va_parts va lt = (
  omega (
    arith,
    bit_and_low 12 va,
    bit_and_low 9 (va / 2 ^ 12),
    bit_and_low 9 (va / 2 ^ 21),
    bit_and_low 9 (va / 2 ^ 30),
    bit_and_low 9 (va / 2 ^ 39),
    bit_and_low 16 (va / 2 ^ 48),
  ),
  refl,
  refl,
  refl,
  refl,
)
