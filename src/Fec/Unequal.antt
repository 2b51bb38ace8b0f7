-- ===== src/Fec/Unequal.antt =====
-- Masks with more protection for the important packets, of src/rtp_rtcp/ulp_fec.cc. The masks that
-- are filled are `fec_packet_mask_` itself, which `Mask` uses as well.
use qo_srtp.Common.{
  ℕ, zero, suc, ◌+◌, ◌-◌, ◌*◌, ◌/◌, ◌%◌, ◌^◌, bit_or, ◌&&◌, List, [], ◌∷◌, ◌++◌, ltb, ◌==◌,
  if◌then◌else◌, get_or, take, drop, u8,
}
use qo_srtp.DataBuffer.{write}
use qo_srtp.Fec.Masks.{FecMaskType, packet_mask_size, pick_table, mask}

pub data ImportantPacketsProtectionMethod : Type 0 where
  none_set mode_no_overlap mode_overlap mode_bias_first_packet : ImportantPacketsProtectionMethod

-- `0.5 * num_fec_packets` in float is exact, and its conversion cuts. Arguments are uint8_t.
unfoldable pub set_protection_allocation : ℕ → ℕ → ℕ → ℕ
set_protection_allocation num_media num_fec num_imp =
    let max_num = num_fec / 2 in
    if num_fec == 1 && ltb (2 * num_imp) num_media
    then 0
    else if ltb num_imp max_num
    then num_imp
    else max_num

-- The rows of a mask copied one by one into wider rows.
unfoldable pub fit_rows : ℕ → ℕ → ℕ → ℕ → List ℕ → List ℕ → List ℕ
fit_rows num_mask_bytes num_sub_mask_bytes zero i sub_mask packet_mask = packet_mask
fit_rows num_mask_bytes num_sub_mask_bytes (suc rounds) i sub_mask packet_mask =
    fit_rows num_mask_bytes num_sub_mask_bytes rounds (i + 1) sub_mask (
      write packet_mask (i * num_mask_bytes)
        (take num_sub_mask_bytes (drop (i * num_sub_mask_bytes) sub_mask)))

-- `FitSubMask` for the rows from `offset` bytes on.
unfoldable pub fit_sub_mask : ℕ → ℕ → ℕ → List ℕ → ℕ → List ℕ → List ℕ
fit_sub_mask num_mask_bytes num_sub_mask_bytes num_rows sub_mask offset packet_mask =
    let fitted =
      fit_rows num_mask_bytes num_sub_mask_bytes num_rows 0 sub_mask (drop offset packet_mask) in
    if num_mask_bytes == num_sub_mask_bytes
    then write packet_mask offset (take (num_rows * num_sub_mask_bytes) sub_mask)
    else take offset packet_mask ++ fitted

-- The bytes of a row behind its first, from the last one on, shifted to the right by `shift` bits.
unfoldable pub shift_bytes : ℕ → ℕ → ℕ → ℕ → List ℕ → List ℕ → List ℕ
shift_bytes zero shift idx idx2 sub_mask packet_mask =
    write packet_mask idx (get_or sub_mask idx2 0 / 2 ^ shift ∷ [])
shift_bytes (suc j) shift idx idx2 sub_mask packet_mask =
    let right = get_or sub_mask idx2 0 / 2 ^ shift in
    let left = u8 (get_or sub_mask (idx2 - 1) 0 * 2 ^ (8 - shift)) in
    shift_bytes j shift (idx - 1) (idx2 - 1) sub_mask
      (write packet_mask idx (bit_or right left ∷ []))

-- `ShiftFitSubMask` for `rounds` rows from row i on.
unfoldable pub shift_fit_rows : ℕ → ℕ → ℕ → ℕ → ℕ → List ℕ → List ℕ → List ℕ
shift_fit_rows num_mask_bytes res_mask_bytes num_column_shift zero i sub_mask packet_mask =
    packet_mask
shift_fit_rows num_mask_bytes res_mask_bytes num_column_shift (suc rounds) i sub_mask packet_mask =
    let shift = num_column_shift % 8 in
    let idx = i * num_mask_bytes + res_mask_bytes - 1 + num_column_shift / 8 in
    let idx2 = (i - num_column_shift) * res_mask_bytes + res_mask_bytes - 1 in
    let left = u8 (get_or sub_mask idx2 0 * 2 ^ (8 - shift)) in
    let started =
      if ltb res_mask_bytes num_mask_bytes
      then write packet_mask (idx + 1) (left ∷ [])
      else packet_mask in
    shift_fit_rows num_mask_bytes res_mask_bytes num_column_shift rounds (i + 1) sub_mask
      (shift_bytes (res_mask_bytes - 1) shift idx idx2 sub_mask started)

unfoldable pub shift_fit_sub_mask : ℕ → ℕ → ℕ → ℕ → List ℕ → List ℕ → List ℕ
shift_fit_sub_mask num_mask_bytes res_mask_bytes num_column_shift end_row sub_mask packet_mask =
    shift_fit_rows num_mask_bytes res_mask_bytes num_column_shift (end_row - num_column_shift)
      num_column_shift sub_mask packet_mask

unfoldable pub important_packet_protection : ℕ → ℕ → ℕ → List ℕ → List ℕ → List ℕ
important_packet_protection num_fec_for_imp num_imp num_mask_bytes mask_table packet_mask =
    let sub_1 = mask num_imp num_fec_for_imp num_mask_bytes mask_table packet_mask in
    fit_sub_mask num_mask_bytes (packet_mask_size num_imp) num_fec_for_imp sub_1.0 0 sub_1.1

-- `packet_mask[i * num_mask_bytes] |= 1 << 7` for each row from i on.
unfoldable pub bias_first_packet : ℕ → ℕ → ℕ → List ℕ → List ℕ
bias_first_packet num_mask_bytes zero i packet_mask = packet_mask
bias_first_packet num_mask_bytes (suc rounds) i packet_mask =
    bias_first_packet num_mask_bytes rounds (i + 1) (
      write packet_mask (i * num_mask_bytes)
        (bit_or (get_or packet_mask (i * num_mask_bytes) 0) 128 ∷ []))

-- The common part of the modes with overlap: the mask for all packets in the remaining rows.
unfoldable pub overlapping : ℕ → ℕ → ℕ → ℕ → List ℕ → List ℕ → List ℕ
overlapping num_media num_fec_remaining num_fec_for_imp num_mask_bytes mask_table packet_mask =
    let sub_22 = mask num_media num_fec_remaining num_mask_bytes mask_table packet_mask in
    fit_sub_mask num_mask_bytes num_mask_bytes num_fec_remaining sub_22.0
      (num_fec_for_imp * num_mask_bytes) sub_22.1

unfoldable pub remaining_packet_protection :
    ImportantPacketsProtectionMethod → ℕ → ℕ → ℕ → ℕ → List ℕ → List ℕ → List ℕ
remaining_packet_protection none_set num_media num_fec_remaining num_fec_for_imp num_mask_bytes
      mask_table packet_mask =
    packet_mask
remaining_packet_protection mode_no_overlap num_media num_fec_remaining num_fec_for_imp
      num_mask_bytes mask_table packet_mask =
    let res_mask_bytes = packet_mask_size (num_media - num_fec_for_imp) in
    let sub_21 =
      mask (num_media - num_fec_for_imp) num_fec_remaining res_mask_bytes mask_table packet_mask in
    shift_fit_sub_mask num_mask_bytes res_mask_bytes num_fec_for_imp
      (num_fec_for_imp + num_fec_remaining) sub_21.0 sub_21.1
remaining_packet_protection mode_overlap num_media num_fec_remaining num_fec_for_imp num_mask_bytes
      mask_table packet_mask =
    overlapping num_media num_fec_remaining num_fec_for_imp num_mask_bytes mask_table packet_mask
remaining_packet_protection mode_bias_first_packet num_media num_fec_remaining num_fec_for_imp
      num_mask_bytes mask_table packet_mask =
    bias_first_packet num_mask_bytes num_fec_remaining 0 (
      overlapping num_media num_fec_remaining num_fec_for_imp num_mask_bytes mask_table packet_mask)

-- The FEC packets for the important packets; none where the first packet is in every row.
unfoldable pub fec_for_imp : ImportantPacketsProtectionMethod → ℕ → ℕ → ℕ → ℕ
fec_for_imp mode_bias_first_packet num_media num_fec num_imp = 0
fec_for_imp none_set num_media num_fec num_imp = set_protection_allocation num_media num_fec num_imp
fec_for_imp mode_no_overlap num_media num_fec num_imp =
    set_protection_allocation num_media num_fec num_imp
fec_for_imp mode_overlap num_media num_fec num_imp =
    set_protection_allocation num_media num_fec num_imp

unfoldable pub unequal_protection_mask :
    ImportantPacketsProtectionMethod → ℕ → ℕ → ℕ → ℕ → List ℕ → List ℕ → List ℕ
unequal_protection_mask method num_media num_fec num_imp mask_size mask_table packet_mask =
    let for_imp = fec_for_imp method num_media num_fec num_imp in
    let remaining = num_fec - for_imp in
    let masks1 =
      if ltb 0 for_imp
      then important_packet_protection for_imp num_imp mask_size mask_table packet_mask
      else packet_mask in
    if ltb 0 remaining
    then remaining_packet_protection method num_media remaining for_imp mask_size mask_table masks1
    else masks1

abbrev pub method_used : ImportantPacketsProtectionMethod → ImportantPacketsProtectionMethod
method_used none_set = mode_overlap
method_used mode_no_overlap = mode_no_overlap
method_used mode_overlap = mode_overlap
method_used mode_bias_first_packet = mode_bias_first_packet

-- `GeneratePacketMasks` into `fec_packet_mask_`.
unfoldable pub generate_packet_masks :
    ℕ → ℕ → ℕ → ImportantPacketsProtectionMethod → FecMaskType → ℕ → List ℕ → List ℕ
generate_packet_masks num_media num_fec num_imp method mask_type mask_size packet_mask =
    let mask_table = pick_table mask_type num_media in
    let sub = mask num_media num_fec mask_size mask_table packet_mask in
    if num_imp == 0
    then write sub.1 0 sub.0
    else unequal_protection_mask (method_used method) num_media num_fec num_imp mask_size mask_table
        packet_mask
