-- ===== src/Utils.antt =====
-- kernel/lib/utils.hpp: the `align_up` outside any namespace, which the physical allocator uses.
use unnamed.Prelude.{ℕ, bit_and}
use unnamed.Prelude.Words.{add64, sub64, not64}

unfoldable pub align_up : ℕ → ℕ → ℕ
align_up value alignment = bit_and (add64 value (sub64 alignment 1)) (not64 (sub64 alignment 1))
