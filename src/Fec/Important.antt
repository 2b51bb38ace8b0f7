-- ===== src/Fec/Important.antt =====
-- The protection of important packets where the tables do not serve, and the number of FEC packets,
-- in src/rtp_rtcp/ulp_fec.cc.
use qo_srtp.Common.{
  ℕ, ◌+◌, ◌-◌, ◌*◌, ◌/◌, ◌≤◌, ◌<◌, ◌≡◌, refl, sym, ap, ◌∙◌, true, List, ◌++◌, arith, ltb, ◌==◌,
  ==_iff, length, take, drop, length-take, drop_front, take_front, take-append, take-length,
}
use qo_srtp.DataBuffer.{write}
use qo_srtp.Fec.Masks.{mask_rows, packet_mask_size, num_fec_packets}
use qo_srtp.Fec.Interleave.{mask-rows, length-mask_rows}
use qo_srtp.Fec.Unequal.{
  mode_overlap, set_protection_allocation, fit_sub_mask, overlapping, remaining_packet_protection,
  fec_for_imp, unequal_protection_mask,
}

allocation-le-half :
    (m n imp : ℕ)
    → (set_protection_allocation m n imp ≤ n / 2) × (set_protection_allocation m n imp ≤ imp)
unfolding set_protection_allocation
allocation-le-half m n imp = ground arith

-- The rows for all packets, copied behind themselves.
copied_rows :
    (rows rest : List ℕ) (at_row : ℕ)
    → at_row ≤ length rows
    → let out = write (rows ++ rest) at_row rows in take at_row out ≡ take at_row (drop at_row out)
unfolding write
copied_rows rows rest at_row h =
    let behind = drop (at_row + length rows) (rows ++ rest) in
    let start : length (take at_row rows) ≡ at_row = omega (arith, h, length-take at_row rows) in
    let e : take at_row (rows ++ rest) ≡ take at_row rows = take-append at_row rows rest h in
    ap (λ xs. take at_row (xs ++ (rows ++ behind))) e
    ∙ take_front (take at_row rows) (rows ++ behind) at_row start
    ∙ sym (
        ap (λ xs. take at_row (drop at_row (xs ++ (rows ++ behind)))) e
        ∙ ap (take at_row) (drop_front (take at_row rows) (rows ++ behind) at_row start)
        ∙ take-append at_row rows behind h)

overlapping-copies :
    (m rem k size : ℕ) (table state : List ℕ)
    → 12 < m
    → k ≤ rem
    → let out = overlapping m rem k size table state in
      take (k * size) out ≡ take (k * size) (drop (k * size) out)
unfolding overlapping fit_sub_mask
overlapping-copies m rem k size table state h hk =
    let rows = mask_rows m rem size rem 0 in
    let long : length rows ≡ rem * size = length-mask_rows m rem size rem 0 in
    let within : k * size ≤ length rows = grind (arith, long) in
    let same : (size == size) ≡ true = (==_iff size size).1 refl in
    rw
      (
        overlapping,
        mask-rows m rem size table state h,
        fit_sub_mask,
        same,
        take-length (rem * size) rows long,
      )
      (copied_rows rows (drop (rem * size) state) (k * size) within)

-- More than 12 media packets, the mode with overlap, and k FEC packets for the important packets:
-- the first k rows of the mask come out as copies of the next k, which protect all packets. The
-- rows for the important packets are overwritten before they are used.
pub unequal_protection_mask_copies :
    (m n imp size : ℕ) (table state : List ℕ)
    → 12 < m
    → 0 < n
    → let k = set_protection_allocation m n imp in
      let out = unequal_protection_mask mode_overlap m n imp size table state in
      take (k * size) out ≡ take (k * size) (drop (k * size) out)
unfolding unequal_protection_mask fec_for_imp remaining_packet_protection
unequal_protection_mask_copies m n imp size table state h hn =
    let k = set_protection_allocation m n imp in
    let half = allocation-le-half m n imp in
    let more : ltb 0 (n - k) ≡ true = ground (arith, half.0) in
    rw (unequal_protection_mask, more, remaining_packet_protection)
      (overlapping-copies m (n - k) k size table _ h (omega (arith, half.0)))

-- Of 1 to 48 media packets and a factor of at most 255: there are at most as many FEC packets as
-- media packets, at least one unless the factor is 0, and their masks fit `fec_packet_mask_`.
pub num_fec_packets_bounds :
    (m factor : ℕ)
    → 0 < m
    → m ≤ 48
    → factor ≤ 255
    → (num_fec_packets m factor ≤ m)
      × (0 < factor → 0 < num_fec_packets m factor)
      × (factor ≡ 0 → num_fec_packets m factor ≡ 0)
      × (num_fec_packets m factor * packet_mask_size m ≤ 288)
      × (m ≤ packet_mask_size m * 8)
unfolding num_fec_packets packet_mask_size
num_fec_packets_bounds m factor hm hm' hf =
    let product : m * factor ≤ m * 255 = grind arith in
    (
      ground (arith, product),
      λ h. ground (arith, product),
      λ h. ground (arith, h),
      ground (arith, product),
      ground arith,
    )
