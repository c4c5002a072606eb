-- ===== src/Gdt/Tests.antt =====
-- The descriptors of the table, as words, and the theorem on one with all its parts.
use unnamed.Prelude.{◌≡◌, refl, [], ◌∷◌, map}
use unnamed.Gdt.{create_descriptor, descriptor_word, segments}
use unnamed.Gdt.Decode.{
  segment_base, segment_limit, segment_access, segment_flags, create_descriptor-decode,
}

-- Null, kernel code, kernel data, null, user data, user code.
words_run :
    map descriptor_word segments
    ≡ 0 ∷ 0x00a0_9a00_0000_0000 ∷ 0x00c0_9200_0000_0000 ∷ 0 ∷ 0x00c0_f200_0000_0000
      ∷ 0x00a0_fa00_0000_0000 ∷ []
unfolding descriptor_word segments
words_run = refl

create_descriptor-decode_example :
    (segment_base (descriptor_word (create_descriptor 0x1234_5678 0xf_abcd 0x9a 0xa)) ≡ 0x1234_5678)
    × (segment_limit (descriptor_word (create_descriptor 0x1234_5678 0xf_abcd 0x9a 0xa)) ≡ 0xf_abcd)
    × (segment_access (descriptor_word (create_descriptor 0x1234_5678 0xf_abcd 0x9a 0xa)) ≡ 0x9a)
    × (segment_flags (descriptor_word (create_descriptor 0x1234_5678 0xf_abcd 0x9a 0xa)) ≡ 0xa)
create_descriptor-decode_example = create_descriptor-decode 0x1234_5678 0xf_abcd 0x9a 0xa
