-- ===== src/Fec/Rows.antt =====
-- The masks that `GeneratePacketMasks` of src/rtp_rtcp/ulp_fec.cc makes where no packet is more
-- important than others.
use qo_srtp.Common.{
  ℕ, ◌+◌, ◌*◌, ◌/◌, ◌%◌, ◌^◌, ◌≤◌, ◌<◌, bit_and, ◌≡◌, ap, ◌∙◌, inl, inr, true, false, not, List,
  ◌++◌, arith, ltb, leb, ◌==◌, Bool-cases, length, get_or, drop, length-drop, get_or-append,
  drop-append,
}
use qo_srtp.DataBuffer.{write}
use qo_srtp.Fec.Masks.{FecMaskType, packet_mask_size, pick_table, mask, has_bit}
use qo_srtp.Fec.Unequal.{ImportantPacketsProtectionMethod, generate_packet_masks}
use qo_srtp.Fec.Tables.{row_of, look_up_in_fec_table_protects}
use qo_srtp.Fec.Interleave.{mask-rows, length-mask_rows, has_bit-mask}

-- Masks of n rows for m media packets: each row protects a packet, none that is not there, and each
-- packet is in a row.
pub record ProtectsAll (masks : List ℕ) (size m n : ℕ) : Type 0 where
  pub row_used : (r : ℕ) → r < n → (x : ℕ) × (x < m) × (has_bit (row_of size masks r) x ≡ true)
  pub packet_used : (x : ℕ) → x < m → (r : ℕ) × (r < n) × (has_bit (row_of size masks r) x ≡ true)
  pub none_behind :
      (r x : ℕ) → r < n → m ≤ x → x < size * 8 → has_bit (row_of size masks r) x ≡ false

-- A row is the same whatever follows the rows.
row_front :
    (M rest : List ℕ) (size f r x : ℕ)
    → length M ≡ f * size
    → r < f
    → x < size * 8
    → has_bit (row_of size (M ++ rest) r) x ≡ has_bit (row_of size M r) x
unfolding has_bit
row_front M rest size f r x e hr hx =
    let before : r * size + size ≤ f * size = grind arith in
    let long : x / 8 < length (drop (r * size) M) =
      omega (arith, length-drop (r * size) M, e, before, hx) in
    ap (λ b. not (bit_and (128 / 2 ^ (x % 8)) b == 0))
      (ap (λ xs. get_or xs (x / 8) 0) (drop-append (r * size) M rest (omega (arith, e, before)))
        ∙ get_or-append (drop (r * size) M) rest (x / 8) 0 long)

front-ProtectsAll :
    (M rest : List ℕ) (size m n : ℕ)
    → m ≤ size * 8
    → length M ≡ n * size
    → ProtectsAll M size m n
    → ProtectsAll (M ++ rest) size m n
front-ProtectsAll M rest size m n h e p = record {
  row_used = λ r hr.
      let (x, hx, found) = p.row_used r hr in
      (x, hx, row_front M rest size n r x e hr (omega (arith, h, hx)) ∙ found);
  packet_used = λ x hx.
      let (r, hr, found) = p.packet_used x hx in
      (r, hr, row_front M rest size n r x e hr (omega (arith, h, hx)) ∙ found);
  none_behind = λ r x hr lo hi. row_front M rest size n r x e hr hi ∙ p.none_behind r x hr lo hi;
}

table-ProtectsAll :
    (t : FecMaskType) (m n : ℕ) (state : List ℕ)
    → 0 < m
    → m ≤ 12
    → 0 < n
    → n ≤ m
    → let M = (mask m n 2 (pick_table t m) state).0 in (length M ≡ n * 2) × ProtectsAll M 2 m n
unfolding mask
table-ProtectsAll t m n state hm hm' hn hn' =
    let small : leb m 12 ≡ true = ground arith in
    let (found, long, rows, packets, behind) = look_up_in_fec_table_protects t m n hm hm' hn hn' in
    rw (mask, small)
      (
        long,
        record {
          row_used = rows;
          packet_used = packets;
          none_behind = λ r x hr lo hi. behind r x hr lo (omega (arith, hi));
        },
      )

interleaved-ProtectsAll :
    (m n size : ℕ) (table state : List ℕ)
    → 12 < m
    → m ≤ size * 8
    → 0 < n
    → n ≤ m
    → let M = (mask m n size table state).0 in (length M ≡ n * size) × ProtectsAll M size m n
interleaved-ProtectsAll m n size table state hm fits hn hn' =
    let bit = λ (r x : ℕ) (hr : r < n) (hx : x < size * 8).
      has_bit-mask m n size table state r x hm hr hx in
    (
      ap (λ (out : List ℕ × List ℕ). length out.0) (mask-rows m n size table state hm)
          ∙ length-mask_rows m n size n 0,
      record {
        row_used = λ r hr.
            let same : r % n ≡ r = grind arith in
            (
              r,
              omega (arith, hr, hn'),
              bit r r hr (omega (arith, fits, hr, hn')) ∙ ground (arith, same),
            );
        packet_used = λ x hx.
            let within : x % n < n = grind arith in
            (x % n, within, bit (x % n) x within (omega (arith, fits, hx)) ∙ ground arith);
        none_behind = λ r x hr lo hi. bit r x hr hi ∙ ground arith;
      },
    )

mask-ProtectsAll :
    (t : FecMaskType) (m n : ℕ) (state : List ℕ)
    → 0 < m
    → m ≤ 48
    → 0 < n
    → n ≤ m
    → let size = packet_mask_size m in
      let M = (mask m n size (pick_table t m) state).0 in
      (length M ≡ n * size) × ProtectsAll M size m n
unfolding packet_mask_size
mask-ProtectsAll t m n state hm hm' hn hn' = elim (Bool-cases (leb m 12)) [
  | inl few ↦
      let two : ltb 16 m ≡ false = ground (arith, few) in
      rw two (table-ProtectsAll t m n state hm (ground (arith, few)) hn hn')
  | inr more ↦
      interleaved-ProtectsAll m n (packet_mask_size m) (pick_table t m) state (ground (arith, more))
        (ground arith) hn hn'
]

-- For 1 to 48 media packets, at most as many FEC packets and no important packets, the masks that
-- are generated protect every media packet, if there is a FEC packet; every FEC packet protects one,
-- and none protects a packet that is not there.
pub generate_packet_masks-ProtectsAll :
    (t : FecMaskType) (method : ImportantPacketsProtectionMethod) (m n : ℕ) (state : List ℕ)
    → 0 < m
    → m ≤ 48
    → 0 < n
    → n ≤ m
    → ProtectsAll
        (generate_packet_masks m n 0 method t (packet_mask_size m) state)
        (packet_mask_size m)
        m
        n
unfolding generate_packet_masks write
generate_packet_masks-ProtectsAll t method m n state hm hm' hn hn' =
    let (long, protects) = mask-ProtectsAll t m n state hm hm' hn hn' in
    let fits : m ≤ packet_mask_size m * 8 = unfold packet_mask_size in ground arith in
    front-ProtectsAll (mask m n (packet_mask_size m) (pick_table t m) state).0 _
      (packet_mask_size m) m n fits long protects
