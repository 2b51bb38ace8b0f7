-- ===== src/Bits/And.antt =====
-- `&` with the masks of the first byte of a header, in src/rtp_rtcp/ulp_fec.cc.
use Prim.Native.Nat.{digits, bit_and-bitwise}
use qo_srtp.Bits.Xor.{bit_xor-halves}
use qo_srtp.Common.{
  ℕ, zero, suc, ◌+◌, ◌*◌, ◌/◌, ◌%◌, ◌≤◌, min, bit_and, bit_xor, ◌≡◌, refl, sym, ap, ◌∙◌, arith,
}

-- `bit_and` with a count of rounds, as the native operation defines it.
abbrev and_rounds : ℕ → ℕ → ℕ → ℕ
and_rounds rounds x y = digits (λ rest. 0) min rounds x y

and_rounds-nothing : (rounds y : ℕ) → and_rounds rounds 0 y ≡ 0
and_rounds-nothing zero y = refl
and_rounds-nothing (suc rounds) y = refl

and_rounds-same : (j k x y : ℕ) → x ≤ j → x ≤ k → and_rounds j x y ≡ and_rounds k x y
and_rounds-same j k zero y hj hk = and_rounds-nothing j y ∙ sym (and_rounds-nothing k y)
and_rounds-same zero k (suc x) y hj hk = absurd (omega arith)
and_rounds-same (suc j) zero (suc x) y hj hk = absurd (omega arith)
and_rounds-same (suc j) (suc k) (suc x) y hj hk =
    ap (λ half. half * 2 + min (suc x % 2) (y % 2))
      (and_rounds-same j k (suc x / 2) (y / 2) (omega arith) (omega arith))

pub bit_and-halves : (x y : ℕ) → bit_and x y ≡ bit_and (x / 2) (y / 2) * 2 + min (x % 2) (y % 2)
bit_and-halves zero y = omega (arith, bit_and-bitwise 0 y, bit_and-bitwise 0 (y / 2))
bit_and-halves (suc x) y =
    bit_and-bitwise (suc x) y
    ∙ ap (λ half. half * 2 + min (suc x % 2) (y % 2))
        (and_rounds-same x (suc x / 2) (suc x / 2) (y / 2) (omega arith) (omega arith)
          ∙ sym (bit_and-bitwise (suc x / 2) (y / 2)))

no_bits : (rounds x : ℕ) → x ≤ rounds → bit_and x 0 ≡ 0
no_bits zero x h = let e : x ≡ 0 = omega arith in rw e refl
no_bits (suc rounds) x h = omega (arith, bit_and-halves x 0, no_bits rounds (x / 2) (omega arith))

bit_and-zero : (x : ℕ) → bit_and x 0 ≡ 0
bit_and-zero x = no_bits x x (omega arith)

-- The lowest six bits.
pub bit_and_63 : (x : ℕ) → bit_and x 63 ≡ x % 64
bit_and_63 x =
    let x1 = x / 2 in
    let x2 = x1 / 2 in
    let x3 = x2 / 2 in
    let x4 = x3 / 2 in
    let x5 = x4 / 2 in
    let e5 : bit_and x5 1 ≡ x5 % 2 = omega (arith, bit_and-halves x5 1, bit_and-zero (x5 / 2)) in
    let e4 : bit_and x4 3 ≡ x4 % 4 = omega (arith, bit_and-halves x4 3, e5) in
    let e3 : bit_and x3 7 ≡ x3 % 8 = omega (arith, bit_and-halves x3 7, e4) in
    let e2 : bit_and x2 15 ≡ x2 % 16 = omega (arith, bit_and-halves x2 15, e3) in
    let e1 : bit_and x1 31 ≡ x1 % 32 = omega (arith, bit_and-halves x1 31, e2) in
    omega (arith, bit_and-halves x 63, e1)

-- The lowest k bits of an exclusive or are those of its operands, here for k up to 6.
abbrev SameLow : ℕ → Type 0
SameLow m = (x y z : ℕ) → x % m ≡ z % m → bit_xor x y % m ≡ bit_xor z y % m

low_2 : SameLow 2
low_2 x y z h = omega (arith, bit_xor-halves x y, bit_xor-halves z y)

low_4 : SameLow 4
low_4 x y z h =
    omega
      (arith, bit_xor-halves x y, bit_xor-halves z y, low_2 (x / 2) (y / 2) (z / 2) (omega arith))

low_8 : SameLow 8
low_8 x y z h =
    omega
      (arith, bit_xor-halves x y, bit_xor-halves z y, low_4 (x / 2) (y / 2) (z / 2) (omega arith))

low_16 : SameLow 16
low_16 x y z h =
    omega
      (arith, bit_xor-halves x y, bit_xor-halves z y, low_8 (x / 2) (y / 2) (z / 2) (omega arith))

low_32 : SameLow 32
low_32 x y z h =
    omega
      (arith, bit_xor-halves x y, bit_xor-halves z y, low_16 (x / 2) (y / 2) (z / 2) (omega arith))

pub low_64 : SameLow 64
low_64 x y z h =
    omega
      (arith, bit_xor-halves x y, bit_xor-halves z y, low_32 (x / 2) (y / 2) (z / 2) (omega arith))
