-- ===== src/Bits/Xor.antt =====
-- `^` of numbers, which src/rtp_rtcp/ulp_fec.cc makes of packets.
use Prim.Native.Nat.{digits, differ, bit_xor-bitwise}
use qo_srtp.Common.{
  ℕ, zero, suc, ◌+◌, ◌*◌, ◌/◌, ◌%◌, ◌≤◌, ◌<◌, bit_xor, ◌≡◌, refl, sym, ap, ap₂, ◌∙◌, arith,
}

-- `bit_xor` with a count of rounds, as the native operation defines it.
abbrev xor_rounds : ℕ → ℕ → ℕ → ℕ
xor_rounds rounds x y = digits (λ rest. rest) differ rounds x y

xor_rounds-nothing : (rounds y : ℕ) → xor_rounds rounds 0 y ≡ y
xor_rounds-nothing zero y = refl
xor_rounds-nothing (suc rounds) y = refl

xor_rounds-same : (j k x y : ℕ) → x ≤ j → x ≤ k → xor_rounds j x y ≡ xor_rounds k x y
xor_rounds-same j k zero y hj hk = xor_rounds-nothing j y ∙ sym (xor_rounds-nothing k y)
xor_rounds-same zero k (suc x) y hj hk = absurd (omega arith)
xor_rounds-same (suc j) zero (suc x) y hj hk = absurd (omega arith)
xor_rounds-same (suc j) (suc k) (suc x) y hj hk =
    ap (λ half. half * 2 + differ (suc x % 2) (y % 2))
      (xor_rounds-same j k (suc x / 2) (y / 2) (omega arith) (omega arith))

-- Exclusive or of two digits as a sum.
abbrev digit : ℕ → ℕ → ℕ
digit a b = (a + b) % 2

differ-digit : (a b : ℕ) → a < 2 → b < 2 → differ a b ≡ digit a b
differ-digit zero zero ha hb = refl
differ-digit zero (suc zero) ha hb = refl
differ-digit (suc zero) zero ha hb = refl
differ-digit (suc zero) (suc zero) ha hb = refl
differ-digit zero (suc (suc b)) ha hb = absurd (omega arith)
differ-digit (suc zero) (suc (suc b)) ha hb = absurd (omega arith)
differ-digit (suc (suc a)) b ha hb = absurd (omega arith)

pub zero-bit_xor : (y : ℕ) → bit_xor 0 y ≡ y
zero-bit_xor y = bit_xor-bitwise 0 y

pub bit_xor-halves : (x y : ℕ) → bit_xor x y ≡ bit_xor (x / 2) (y / 2) * 2 + digit x y
bit_xor-halves zero y = omega (arith, zero-bit_xor y, zero-bit_xor (y / 2))
bit_xor-halves (suc x) y =
    bit_xor-bitwise (suc x) y
    ∙ ap₂ (λ half low. half * 2 + low)
        (xor_rounds-same x (suc x / 2) (suc x / 2) (y / 2) (omega arith) (omega arith)
          ∙ sym (bit_xor-bitwise (suc x / 2) (y / 2)))
        (differ-digit (suc x % 2) (y % 2) (omega arith) (omega arith) ∙ (omega arith))

bit_xor-parts :
    (x y : ℕ) → (bit_xor x y / 2 ≡ bit_xor (x / 2) (y / 2)) × (bit_xor x y % 2 ≡ digit x y)
bit_xor-parts x y = let h = bit_xor-halves x y in (omega (arith, h), omega (arith, h))

cancel_rounds : (rounds d a : ℕ) → d ≤ rounds → a ≤ rounds → bit_xor (bit_xor d a) a ≡ d
cancel_rounds zero d a hd ha =
    let ed : d ≡ 0 = omega arith in let ea : a ≡ 0 = omega arith in rw (ed, ea) refl
cancel_rounds (suc rounds) d a hd ha =
    let ih = cancel_rounds rounds (d / 2) (a / 2) (omega arith) (omega arith) in
    let (high, low) = bit_xor-parts d a in
    let step = bit_xor-halves (bit_xor d a) a in
    omega (arith, step, ap (λ k. bit_xor k (a / 2)) high, low, ih)

swap_rounds :
    (rounds d a b : ℕ)
    → d ≤ rounds
    → a ≤ rounds
    → b ≤ rounds
    → bit_xor (bit_xor d a) b ≡ bit_xor (bit_xor d b) a
swap_rounds zero d a b hd ha hb =
    let ed : d ≡ 0 = omega arith in
    let ea : a ≡ 0 = omega arith in let eb : b ≡ 0 = omega arith in rw (ed, ea, eb) refl
swap_rounds (suc rounds) d a b hd ha hb =
    let ih = swap_rounds rounds (d / 2) (a / 2) (b / 2) (omega arith) (omega arith) (omega arith) in
    let (high, low) = bit_xor-parts d a in
    let (high', low') = bit_xor-parts d b in
    omega (
      arith,
      bit_xor-halves (bit_xor d a) b,
      bit_xor-halves (bit_xor d b) a,
      ap (λ k. bit_xor k (b / 2)) high,
      ap (λ k. bit_xor k (a / 2)) high',
      low,
      low',
      ih,
    )

pub bit_xor-cancel : (d a : ℕ) → bit_xor (bit_xor d a) a ≡ d
bit_xor-cancel d a = cancel_rounds (d + a) d a (omega arith) (omega arith)

pub bit_xor-swap : (d a b : ℕ) → bit_xor (bit_xor d a) b ≡ bit_xor (bit_xor d b) a
bit_xor-swap d a b = swap_rounds (d + a + b) d a b (omega arith) (omega arith) (omega arith)

pub bit_xor-zero : (d : ℕ) → bit_xor d 0 ≡ d
bit_xor-zero d = ap (λ k. bit_xor k 0) (sym (zero-bit_xor d)) ∙ bit_xor-swap 0 d 0 ∙ zero-bit_xor d
