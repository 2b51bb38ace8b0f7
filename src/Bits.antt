-- ===== src/Bits.antt =====
-- `|` of a number and a power of two above it, as in the masks of src/rtp_rtcp/nack.cc.
pub mod And
pub mod Xor
use Prim.Native.Nat.{digits, bit_or-bitwise}
use native.Mathlib.Nat.{pow-suc}
use qo_srtp.Common.{
  ℕ, zero, suc, ◌+◌, ◌*◌, ◌/◌, ◌%◌, ◌^◌, ◌≤◌, ◌<◌, max, bit_or, ◌≡◌, refl, sym, ap, ◌∙◌, arith,
}

-- `bit_or` with a count of rounds, as the native operation defines it.
abbrev or_rounds : ℕ → ℕ → ℕ → ℕ
or_rounds rounds x y = digits (λ rest. rest) max rounds x y

-- Nothing is left to do for 0, and half of a number needs fewer rounds.
or_rounds-nothing : (rounds y : ℕ) → or_rounds rounds 0 y ≡ y
or_rounds-nothing zero y = refl
or_rounds-nothing (suc rounds) y = refl

or_rounds-same : (j k x y : ℕ) → x ≤ j → x ≤ k → or_rounds j x y ≡ or_rounds k x y
or_rounds-same j k zero y hj hk = or_rounds-nothing j y ∙ sym (or_rounds-nothing k y)
or_rounds-same zero k (suc x) y hj hk = absurd (omega arith)
or_rounds-same (suc j) zero (suc x) y hj hk = absurd (omega arith)
or_rounds-same (suc j) (suc k) (suc x) y hj hk =
    ap (λ half. half * 2 + max (suc x % 2) (y % 2))
      (or_rounds-same j k (suc x / 2) (y / 2) (omega arith) (omega arith))

pub bit_or-halves : (x y : ℕ) → bit_or x y ≡ bit_or (x / 2) (y / 2) * 2 + max (x % 2) (y % 2)
bit_or-halves zero y = omega (arith, bit_or-bitwise 0 y, bit_or-bitwise 0 (y / 2))
bit_or-halves (suc x) y =
    bit_or-bitwise (suc x) y
    ∙ ap (λ half. half * 2 + max (suc x % 2) (y % 2))
        (or_rounds-same x (suc x / 2) (suc x / 2) (y / 2) (omega arith) (omega arith)
          ∙ sym (bit_or-bitwise (suc x / 2) (y / 2)))

-- A new highest digit is added.
pub bit_or-power : (s mask : ℕ) → mask < 2 ^ s → bit_or mask (2 ^ s) ≡ mask + 2 ^ s
bit_or-power zero mask h =
    let none_set : mask ≡ 0 = omega arith in
    ap (λ k. bit_or k 1) none_set ∙ ap (λ k. k + 1) (sym none_set)
bit_or-power (suc s) mask h = omega (
  arith,
  pow-suc 2 s,
  bit_or-halves mask (2 ^ suc s),
  ap (λ k. bit_or (mask / 2) k)
      (let half : 2 ^ suc s / 2 ≡ 2 ^ s = omega (arith, pow-suc 2 s) in half),
  bit_or-power s (mask / 2) (omega (arith, pow-suc 2 s)),
)
