-- ===== src/Seq.antt =====
-- src/utils/seq_comparison.h: order of 16-bit sequence numbers on the circle.
pub mod Circle
use qo_srtp.Common.{ℕ, ◌+◌, ◌-◌, Bool, false, ltb, leb, ◌==◌, if◌then◌else◌, u16}

-- The tests are on `int`, to which the operands are promoted; no branch wraps.
unfoldable pub is_seq_after_in_range : ℕ → ℕ → ℕ → Bool
is_seq_after_in_range a b range_num =
    if a == b
    then false
    else if ltb a b
    then leb (b - a) range_num
    else leb (65535 - a + b + 1) range_num

unfoldable pub is_seq_before_in_range : ℕ → ℕ → ℕ → Bool
is_seq_before_in_range a b range_num = is_seq_after_in_range a b range_num

unfoldable pub is_next_seq : ℕ → ℕ → Bool
is_next_seq a b = is_seq_after_in_range a b 1

unfoldable pub is_seq_after : ℕ → ℕ → Bool
is_seq_after a b = is_seq_after_in_range a b 32767

unfoldable pub is_seq_before : ℕ → ℕ → Bool
is_seq_before a b = is_seq_after a b

unfoldable pub diff_seq : ℕ → ℕ → ℕ
diff_seq a b = if leb a b then u16 (b - a) else u16 (b + 65535 - a + 1)
