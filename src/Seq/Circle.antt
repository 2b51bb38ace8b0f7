-- ===== src/Seq/Circle.antt =====
-- What the comparisons of src/utils/seq_comparison.h mean: distances on the circle of 65536
-- numbers.
use qo_srtp.Common.{ℕ, ◌+◌, ◌-◌, ◌%◌, ◌≤◌, ◌≡◌, ◌≢◌, ◌↔◌, true, false, not, arith, IsU16, inc16}
use qo_srtp.Seq.{is_seq_after_in_range, is_next_seq, is_seq_after, diff_seq}

-- The steps upwards from `a` to `b`.
abbrev pub dist : ℕ → ℕ → ℕ
dist a b = (b + 65536 - a) % 65536

-- `b` is after `a` within a range exactly if the distance is positive and in the range.
pub is_seq_after_in_range_iff :
    (a b range_num : ℕ)
    → IsU16 a
    → IsU16 b
    → (is_seq_after_in_range a b range_num ≡ true) ↔ ((1 ≤ dist a b) × (dist a b ≤ range_num))
unfolding is_seq_after_in_range
is_seq_after_in_range_iff a b range_num ha hb = ground arith

pub is_seq_after_iff :
    (a b : ℕ)
    → IsU16 a
    → IsU16 b
    → (is_seq_after a b ≡ true) ↔ ((1 ≤ dist a b) × (dist a b ≤ 32767))
unfolding is_seq_after
is_seq_after_iff a b ha hb = is_seq_after_in_range_iff a b 32767 ha hb

-- `IsSeqAfter` is the first half of the circle: `b` is after `a` exactly if it takes 1 to 32767
-- steps upwards from `a` to `b`, and `IsSeqBefore` is the same test with the names exchanged.
-- So of two numbers below 65536 each is after itself never; of two different ones that are not
-- opposite on the circle exactly one is after the other; of opposite ones none is.
pub is_seq_after_trichotomy :
    (a b : ℕ)
    → IsU16 a
    → IsU16 b
    → (is_seq_after a a ≡ false)
      × (dist a b ≡ 32768 → (is_seq_after a b ≡ false) × (is_seq_after b a ≡ false))
      × (a ≢ b → dist a b ≢ 32768 → is_seq_after b a ≡ not (is_seq_after a b))
unfolding is_seq_after is_seq_after_in_range
is_seq_after_trichotomy a b ha hb =
    (ground arith, λ h. (ground arith, ground arith), λ p q. ground arith)

-- Along a walk of at most 32767 steps the order is transitive.
pub is_seq_after_trans :
    (a b c : ℕ)
    → IsU16 a
    → IsU16 b
    → IsU16 c
    → is_seq_after a b ≡ true
    → is_seq_after b c ≡ true
    → dist a b + dist b c ≤ 32767
    → is_seq_after a c ≡ true
is_seq_after_trans a b c ha hb hc p q h =
    let p' = (is_seq_after_iff a b ha hb).0 p in
    let q' = (is_seq_after_iff b c hb hc).0 q in (is_seq_after_iff a c ha hc).1 (omega arith)

-- The next number is the successor modulo 65536, and `DiffSeq` is the distance.
pub is_next_seq_iff : (a b : ℕ) → IsU16 a → IsU16 b → (is_next_seq a b ≡ true) ↔ (b ≡ inc16 a)
unfolding is_next_seq is_seq_after_in_range
is_next_seq_iff a b ha hb = (λ h. ground arith, λ h. ground arith)

pub diff_seq-dist : (a b : ℕ) → IsU16 a → IsU16 b → diff_seq a b ≡ dist a b
unfolding diff_seq
diff_seq-dist a b ha hb = ground arith
