-- ===== src/Helpers/Tests.antt =====
-- Alignment at concrete words.
use unnamed.Prelude.{◌%◌, ◌≡◌, ◌↔◌, refl, true, false, arith}
use unnamed.Utils
use unnamed.Helpers.{check_aligned, is_flag_set, align_up}
use unnamed.Helpers.Align.{IsRoundedUp, check_aligned_iff, align_up-IsRoundedUp}

align_up_runs : align_up 0x1234 0x1000 ≡ 0x2000
unfolding align_up
align_up_runs = refl

is_flag_set_runs : is_flag_set 6 3 ≡ false
unfolding is_flag_set
is_flag_set_runs = refl

check_aligned_iff_example : (check_aligned 0x3000 4096 ≡ true) ↔ (0x3000 % 4096 ≡ 0)
check_aligned_iff_example = check_aligned_iff 12 0x3000 (omega arith)

align_up-IsRoundedUp_example :
    IsRoundedUp 12 0x1234 (align_up 0x1234 4096)
    × IsRoundedUp 12 0x1234 (Utils.align_up 0x1234 4096)
align_up-IsRoundedUp_example = align_up-IsRoundedUp 12 0x1234 (omega arith) (omega arith)
