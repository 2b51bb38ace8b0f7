-- ===== src/Fec/Interleave.antt =====
-- The masks that `Mask` of src/rtp_rtcp/ulp_fec.cc makes for more than 12 media packets.
use qo_srtp.Common.{
  ℕ, zero, suc, ◌+◌, ◌*◌, ◌/◌, ◌%◌, ◌^◌, ◌<◌, bit_and, bit_or, ◌≡◌, refl, sym, ap, ap₂, ◌∙◌, Bool,
  true, false, not, ◌&&◌, List, [], ◌∷◌, ◌++◌, arith, ltb, leb, ◌==◌, if◌then◌else◌, length, get_or,
  drop, length-append, drop-add, drop_front, take_front, get_or-append, passes, passes-at, &&-left,
  &&-right,
}
use qo_srtp.DataBuffer.{write}
use qo_srtp.Fec.Masks.{mask_bit, mask_byte, mask_row, mask_rows, mask, has_bit}
use qo_srtp.Fec.Tables.{row_of}

-- A byte of eight bits, the highest first.
bits_byte : Bool → Bool → Bool → Bool → Bool → Bool → Bool → Bool → ℕ
bits_byte b0 b1 b2 b3 b4 b5 b6 b7 =
    bit_or
      (bit_or
        (bit_or
          (bit_or
            (bit_or
              (bit_or (bit_or (if b0 then 0x80 else 0) (if b1 then 0x40 else 0))
                (if b2 then 0x20 else 0))
              (if b3 then 0x10 else 0))
            (if b4 then 0x08 else 0))
          (if b5 then 0x04 else 0))
        (if b6 then 0x02 else 0))
      (if b7 then 0x01 else 0)

same_bool : Bool → Bool → Bool
same_bool true b = b
same_bool false b = not b

same_bool-eq : (a b : Bool) → same_bool a b ≡ true → a ≡ b
unfolding same_bool
same_bool-eq true true h = refl
same_bool-eq true false h = cc
same_bool-eq false true h = cc
same_bool-eq false false h = refl

for_both : (Bool → Bool) → Bool
for_both test = test true && test false

for_both-at : (test : Bool → Bool) (b : Bool) → for_both test ≡ true → test b ≡ true
unfolding for_both
for_both-at test true h = &&-left (test true) (test false) h
for_both-at test false h = &&-right (test true) (test false) h

bits_right : Bool → Bool → Bool → Bool → Bool → Bool → Bool → Bool → Bool
bits_right b0 b1 b2 b3 b4 b5 b6 b7 =
    passes
      (λ k.
        same_bool (not (bit_and (128 / 2 ^ k) (bits_byte b0 b1 b2 b3 b4 b5 b6 b7) == 0))
          (get_or (b0 ∷ b1 ∷ b2 ∷ b3 ∷ b4 ∷ b5 ∷ b6 ∷ b7 ∷ []) k false))
      8

bits_table :
    for_both (λ b0. for_both (λ b1. for_both (λ b2. for_both (λ b3. for_both (λ b4.
      for_both (λ b5. for_both (λ b6. for_both (λ b7. bits_right b0 b1 b2 b3 b4 b5 b6 b7))))))))
    ≡ true
unfolding for_both bits_right passes same_bool bits_byte
bits_table = refl

bit-bits_byte :
    (b0 b1 b2 b3 b4 b5 b6 b7 : Bool) (k : ℕ)
    → k < 8
    → not (bit_and (128 / 2 ^ k) (bits_byte b0 b1 b2 b3 b4 b5 b6 b7) == 0)
      ≡ get_or (b0 ∷ b1 ∷ b2 ∷ b3 ∷ b4 ∷ b5 ∷ b6 ∷ b7 ∷ []) k false
unfolding bits_right
bit-bits_byte b0 b1 b2 b3 b4 b5 b6 b7 k h = same_bool-eq _ _ (
    passes-at
      (λ k.
        same_bool (not (bit_and (128 / 2 ^ k) (bits_byte b0 b1 b2 b3 b4 b5 b6 b7) == 0))
          (get_or (b0 ∷ b1 ∷ b2 ∷ b3 ∷ b4 ∷ b5 ∷ b6 ∷ b7 ∷ []) k false))
      8 k h
      (for_both-at (bits_right b0 b1 b2 b3 b4 b5 b6) b7 (
        for_both-at _ b6 (
          for_both-at _ b5 (
            for_both-at _ b4 (
              for_both-at _ b3
                (for_both-at _ b2 (for_both-at _ b1 (for_both-at _ b0 bits_table)))))))))

get_or-eight :
    (f : ℕ → Bool) (k : ℕ)
    → k < 8
    → get_or (f 0 ∷ f 1 ∷ f 2 ∷ f 3 ∷ f 4 ∷ f 5 ∷ f 6 ∷ f 7 ∷ []) k false ≡ f k
get_or-eight f zero h = refl
get_or-eight f (suc zero) h = refl
get_or-eight f (suc (suc zero)) h = refl
get_or-eight f (suc (suc (suc zero))) h = refl
get_or-eight f (suc (suc (suc (suc zero)))) h = refl
get_or-eight f (suc (suc (suc (suc (suc zero))))) h = refl
get_or-eight f (suc (suc (suc (suc (suc (suc zero)))))) h = refl
get_or-eight f (suc (suc (suc (suc (suc (suc (suc zero))))))) h = refl
get_or-eight f (suc (suc (suc (suc (suc (suc (suc (suc k)))))))) h = absurd (omega arith)

module _ (m n : ℕ) where
  -- Media packet x belongs to FEC packet x % n.
  abbrev pub belongs : ℕ → ℕ → Bool
  belongs row x = x % n == row && ltb x m

  bit-mask_byte :
      (row col k : ℕ)
      → k < 8
      → not (bit_and (128 / 2 ^ k) (mask_byte m n row col) == 0) ≡ belongs row (col * 8 + k)
  unfolding mask_byte mask_bit bits_byte
  bit-mask_byte row col k h =
      let f = λ (j : ℕ). belongs row (col * 8 + j) in
      bit-bits_byte (f 0) (f 1) (f 2) (f 3) (f 4) (f 5) (f 6) (f 7) k h ∙ get_or-eight f k h

  get_or-mask_row :
      (row rounds col j : ℕ)
      → j < rounds
      → get_or (mask_row m n row rounds col) j 0 ≡ mask_byte m n row (col + j)
  unfolding mask_row
  get_or-mask_row row zero col j h = absurd (omega arith)
  get_or-mask_row row (suc rounds) col zero h =
      ap (mask_byte m n row) (let e : col ≡ col + 0 = omega arith in e)
  get_or-mask_row row (suc rounds) col (suc j) h =
      get_or-mask_row row rounds (col + 1) j (omega arith)
      ∙ ap (mask_byte m n row) (let e : col + 1 + j ≡ col + suc j = omega arith in e)

  length-mask_row : (row rounds col : ℕ) → length (mask_row m n row rounds col) ≡ rounds
  unfolding mask_row
  length-mask_row row zero col = refl
  length-mask_row row (suc rounds) col = ap suc (length-mask_row row rounds (col + 1))

  has_bit-mask_row :
      (row size i : ℕ) (rest : List ℕ)
      → i < size * 8
      → has_bit (mask_row m n row size 0 ++ rest) i ≡ belongs row i
  unfolding has_bit
  has_bit-mask_row row size i rest h =
      let e : i / 8 * 8 + i % 8 ≡ i = omega arith in
      let in_row : i / 8 < length (mask_row m n row size 0) =
        omega (arith, length-mask_row row size 0, h) in
      let z : 0 + i / 8 ≡ i / 8 = omega arith in
      ap (λ b. not (bit_and (128 / 2 ^ (i % 8)) b == 0))
        (get_or-append (mask_row m n row size 0) rest (i / 8) 0 in_row
          ∙ get_or-mask_row row size 0 (i / 8) (omega arith)
          ∙ ap (mask_byte m n row) z)
      ∙ bit-mask_byte row (i / 8) (i % 8) (omega arith)
      ∙ ap (belongs row) e

  drop-mask_rows :
      (size rounds row0 r : ℕ)
      → r < rounds
      → (rest : List ℕ) × (drop (r * size) (mask_rows m n size rounds row0)
          ≡ mask_row m n (row0 + r) size 0 ++ rest)
  unfolding mask_rows
  drop-mask_rows size zero row0 r h = absurd (omega arith)
  drop-mask_rows size (suc rounds) row0 zero h =
      let row = mask_row m n row0 size 0 in
      let later = mask_rows m n size rounds (row0 + 1) in
      let none_before : 0 * size ≡ 0 = omega arith in
      (
        later,
        ap (λ k. drop k (row ++ later)) none_before
            ∙ ap (λ k. mask_row m n k size 0 ++ later) (let e : row0 ≡ row0 + 0 = omega arith in e),
      )
  drop-mask_rows size (suc rounds) row0 (suc r) h =
      let (rest, e) = drop-mask_rows size rounds (row0 + 1) r (omega arith) in
      let split : suc r * size ≡ size + r * size = grind arith in
      let row = mask_row m n row0 size 0 in
      let later = mask_rows m n size rounds (row0 + 1) in
      let next : row0 + 1 + r ≡ row0 + suc r = omega arith in
      (
        rest,
        ap (λ k. drop k (row ++ later)) split
            ∙ sym (drop-add size (r * size) (row ++ later))
            ∙ ap (drop (r * size)) (drop_front row later size (length-mask_row row0 size 0))
            ∙ e
            ∙ ap (λ k. mask_row m n k size 0 ++ rest) next,
      )

  pub length-mask_rows :
      (size rounds row0 : ℕ) → length (mask_rows m n size rounds row0) ≡ rounds * size
  unfolding mask_rows
  length-mask_rows size zero row0 = omega arith
  length-mask_rows size (suc rounds) row0 =
      let split : size + rounds * size ≡ suc rounds * size = grind arith in
      length-append (mask_row m n row0 size 0) (mask_rows m n size rounds (row0 + 1))
      ∙ ap₂ ◌+◌ (length-mask_row row0 size 0) (length-mask_rows size rounds (row0 + 1))
      ∙ split

  -- What `Mask` returns, and what it leaves in `fec_packet_mask_`.
  pub mask-rows :
      (size : ℕ) (table state : List ℕ)
      → 12 < m
      → mask m n size table state
        ≡ (mask_rows m n size n 0, mask_rows m n size n 0 ++ drop (n * size) state)
  unfolding mask write
  mask-rows size table state h =
      let large : leb m 12 ≡ false = ground arith in
      let rows = mask_rows m n size n 0 in
      let e : length rows ≡ n * size = length-mask_rows size n 0 in
      let z : 0 + n * size ≡ n * size = omega arith in
      rw (mask, large, e, z, take_front rows (drop (n * size) state) (n * size) e) refl

  -- For more than 12 media packets, bit i of row r of the mask that `Mask` returns for n FEC packets
  -- is set exactly if there is a media packet i and i % n is r, for every bit that the row has.
  pub has_bit-mask :
      (size : ℕ) (table state : List ℕ) (r i : ℕ)
      → 12 < m
      → r < n
      → i < size * 8
      → has_bit (row_of size (mask m n size table state).0 r) i ≡ (i % n == r && ltb i m)
  has_bit-mask size table state r i h hr hi =
      let (rest, e) = drop-mask_rows size n 0 r hr in
      let z : 0 + r ≡ r = omega arith in
      ap (λ (out : List ℕ × List ℕ). has_bit (row_of size out.0 r) i) (mask-rows size table state h)
      ∙ ap (λ xs. has_bit xs i) (e ∙ ap (λ k. mask_row m n k size 0 ++ rest) z)
      ∙ has_bit-mask_row r size i rest hi
