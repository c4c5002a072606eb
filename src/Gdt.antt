-- ===== src/Gdt.antt =====
-- kernel/arch/x86_64/gdt.hpp and gdt.cpp: segment descriptors and the global descriptor table.
pub mod Decode
mod Tests
use unnamed.Prelude.{
  ℕ, ◌+◌, ◌-◌, ◌*◌, ◌/◌, ◌%◌, ◌^◌, Bool, not, ◌==◌, List, [], ◌∷◌, bit_and, bit_or,
}

pub record GdtSegmentDescriptor : Type 0 where
  pub limit_low : ℕ
  pub base_low : ℕ
  pub base_mid : ℕ
  pub access : ℕ
  pub limit_high : ℕ
  pub flags : ℕ
  pub base_high : ℕ

-- Access
abbrev pub access_accessed : ℕ
access_accessed = 1

abbrev pub access_direction : ℕ
access_direction = 4

abbrev pub access_dpl1 : ℕ
access_dpl1 = 32

abbrev pub access_dpl2 : ℕ
access_dpl2 = 64

abbrev pub access_read_write : ℕ
access_read_write = 2

abbrev pub access_executable : ℕ
access_executable = 8

abbrev pub access_descriptor_type : ℕ
access_descriptor_type = 16

abbrev pub access_dpl0 : ℕ
access_dpl0 = 0

abbrev pub access_dpl3 : ℕ
access_dpl3 = 96

abbrev pub access_present : ℕ
access_present = 128

-- Flags
abbrev pub flag_none : ℕ
flag_none = 0

abbrev pub flag_long_mode : ℕ
flag_long_mode = 2

abbrev pub flag_size : ℕ
flag_size = 4

abbrev pub flag_granularity : ℕ
flag_granularity = 8

-- The casts cut the parts to their fields' widths; `flags` is a field of four bits.
unfoldable pub create_descriptor : (base limit access flags : ℕ) → GdtSegmentDescriptor
create_descriptor base limit access flags = record {
  limit_low = bit_and limit 0xffff % 2 ^ 16;
  base_low = bit_and base 0xffff % 2 ^ 16;
  base_mid = bit_and (base / 2 ^ 16) 0xff % 2 ^ 8;
  access = access % 2 ^ 8;
  limit_high = bit_and (limit / 2 ^ 16) 0xf % 2 ^ 8 % 2 ^ 4;
  flags = flags % 2 ^ 8 % 2 ^ 4;
  base_high = bit_and (base / 2 ^ 24) 0xff % 2 ^ 8;
}

-- The packed struct in memory, its first byte the lowest.
unfoldable pub descriptor_word : GdtSegmentDescriptor → ℕ
descriptor_word d =
    d.limit_low
    + d.base_low * 2 ^ 16
    + d.base_mid * 2 ^ 32
    + d.access * 2 ^ 40
    + d.limit_high * 2 ^ 48
    + d.flags * 2 ^ 52
    + d.base_high * 2 ^ 56

-- `operator|` and `operator&` of Access and of Flags, on bytes
abbrev pub access_or : (lhs rhs : ℕ) → ℕ
access_or lhs rhs = bit_or (lhs % 2 ^ 8) (rhs % 2 ^ 8)

abbrev pub flags_or : (lhs rhs : ℕ) → ℕ
flags_or lhs rhs = bit_or (lhs % 2 ^ 8) (rhs % 2 ^ 8)

abbrev pub access_and : (lhs rhs : ℕ) → Bool
access_and lhs rhs = not (bit_and (lhs % 2 ^ 8) (rhs % 2 ^ 8) == 0)

abbrev pub flags_and : (lhs rhs : ℕ) → Bool
flags_and lhs rhs = not (bit_and (lhs % 2 ^ 8) (rhs % 2 ^ 8) == 0)

-- The accesses of kernel and of user segments of data; code is executable too.
abbrev kernel_data : ℕ
kernel_data =
    access_or (access_or (access_or access_present access_dpl0) access_descriptor_type)
      access_read_write

abbrev user_data : ℕ
user_data =
    access_or (access_or (access_or access_present access_dpl3) access_descriptor_type)
      access_read_write

-- What `lgdt` is given: the address of the table and its last byte.
pub record GdtRegister : Type 0 where
  pub size : ℕ
  pub base : ℕ

-- What `flush_gdt` loads: the register, and the selectors of code and of data.
pub record Loaded : Type 0 where
  pub register : GdtRegister
  pub code : ℕ
  pub data_segment : ℕ

-- The table that `init_gdt` fills.
unfoldable pub segments : List GdtSegmentDescriptor
unfolding create_descriptor
segments =
    create_descriptor 0 0 0 0
    ∷ create_descriptor 0 0 (access_or kernel_data access_executable)
        (flags_or flag_long_mode flag_granularity)
    ∷ create_descriptor 0 0 kernel_data (flags_or flag_granularity flag_size)
    ∷ create_descriptor 0 0 0 0
    ∷ create_descriptor 0 0 user_data (flags_or flag_granularity flag_size)
    ∷ create_descriptor 0 0 (access_or user_data access_executable)
        (flags_or flag_long_mode flag_granularity)
    ∷ []

-- `init_gdt`, with the address of the table
unfoldable pub init_gdt : (address : ℕ) → List GdtSegmentDescriptor × Loaded
unfolding segments
init_gdt address = (
  segments,
  record {
    register = record { size = (8 * 6 + 2 ^ 16 - 1) % 2 ^ 16; base = address };
    code = 0x8;
    data_segment = 0x10;
  },
)
