-- ===== src/Fec/Masks.antt =====
-- The masks of src/rtp_rtcp/ulp_fec.cc: which media packets each FEC packet protects. Bit i of a
-- row, from the highest bit of its first byte on, is media packet i.
use qo_srtp.Common.{
  ℕ, zero, suc, ◌+◌, ◌-◌, ◌*◌, ◌/◌, ◌%◌, ◌^◌, bit_and, bit_or, Bool, not, ◌&&◌, List, [], ◌∷◌, ◌++◌,
  ltb, leb, ◌==◌, if◌then◌else◌, get_or, take, drop, u32,
}
use qo_srtp.DataBuffer.{write}
use qo_srtp.Fec.Random.{packet_mask_random_tbl}
use qo_srtp.Fec.Bursty.{packet_mask_bursty_tbl}

pub data FecMaskType : Type 0 where
  random bursty : FecMaskType

-- `kUlpfecMaxMediaPackets`, and the bytes of a row without and with the L bit.
abbrev pub max_media_packets : ℕ
max_media_packets = 48

abbrev pub mask_size_l_bit_clear : ℕ
mask_size_l_bit_clear = 2

abbrev pub mask_size_l_bit_set : ℕ
mask_size_l_bit_set = 6

unfoldable pub packet_mask_size : ℕ → ℕ
packet_mask_size num_sequence_numbers =
    if ltb (mask_size_l_bit_clear * 8) num_sequence_numbers
    then mask_size_l_bit_set
    else mask_size_l_bit_clear

-- `>> 8` on a uint32_t.
unfoldable pub num_fec_packets : ℕ → ℕ → ℕ
num_fec_packets num_media_packets protection_factor =
    let num = u32 (num_media_packets * protection_factor + 128) / 256 in
    if ltb 0 protection_factor && num == 0 then 1 else num

unfoldable pub pick_table : FecMaskType → ℕ → List ℕ
pick_table random num_media_packets = packet_mask_random_tbl
pick_table bursty num_media_packets =
    if leb num_media_packets (get_or packet_mask_bursty_tbl 0 0)
    then packet_mask_bursty_tbl
    else packet_mask_random_tbl

-- `entry += increment * (j + 1)` for `rounds` values of j.
unfoldable pub skip_data : ℕ → ℕ → ℕ → List ℕ → List ℕ
skip_data zero j increment entry = entry
skip_data (suc rounds) j increment entry =
    skip_data rounds (j + 1) increment (drop (increment * (j + 1)) entry)

-- The loop over the numbers of media packets, from i on: the increment and the entry.
unfoldable pub skip_media : ℕ → ℕ → ℕ → List ℕ → ℕ × List ℕ
skip_media zero i increment entry = (increment, entry)
skip_media (suc rounds) i increment entry =
    let increment' = if i == 16 then 6 else increment in
    skip_media rounds (i + 1) increment' (skip_data (get_or entry 0 0) 0 increment' (drop 1 entry))

-- `fec_count` is `fec_index + 1`: the index is -1 if there is no FEC packet.
unfoldable pub look_up_in_fec_table : List ℕ → ℕ → ℕ → List ℕ
look_up_in_fec_table table media_packet_index fec_count =
    let skipped = skip_media media_packet_index 0 2 (drop 1 table) in
    let increment = if media_packet_index == 16 then 6 else skipped.0 in
    let entry = skip_data (fec_count - 1) 0 increment (drop 1 skipped.1) in
    take (increment * fec_count) entry

-- `value` if media packet x belongs to FEC packet `row`.
unfoldable pub mask_bit : ℕ → ℕ → ℕ → ℕ → ℕ → ℕ
mask_bit num_media num_fec row x value = if x % num_fec == row && ltb x num_media then value else 0

unfoldable pub mask_byte : ℕ → ℕ → ℕ → ℕ → ℕ
mask_byte num_media num_fec row col =
    let b = λ (k value : ℕ). mask_bit num_media num_fec row (col * 8 + k) value in
    bit_or
      (bit_or
        (bit_or
          (bit_or (bit_or (bit_or (bit_or (b 0 0x80) (b 1 0x40)) (b 2 0x20)) (b 3 0x10)) (b 4 0x08))
          (b 5 0x04))
        (b 6 0x02))
      (b 7 0x01)

-- The bytes that the inner loop writes from column `col` on.
unfoldable pub mask_row : ℕ → ℕ → ℕ → ℕ → ℕ → List ℕ
mask_row num_media num_fec row zero col = []
mask_row num_media num_fec row (suc rounds) col =
    mask_byte num_media num_fec row col ∷ mask_row num_media num_fec row rounds (col + 1)

-- The bytes that the outer loop writes from row `row` on, one row behind the other.
unfoldable pub mask_rows : ℕ → ℕ → ℕ → ℕ → ℕ → List ℕ
mask_rows num_media num_fec mask_size zero row = []
mask_rows num_media num_fec mask_size (suc rounds) row =
    mask_row num_media num_fec row mask_size 0
    ++ mask_rows num_media num_fec mask_size rounds (row + 1)

-- `Mask`: its result, and `fec_packet_mask_`, which it overwrites if the tables do not serve.
unfoldable pub mask : ℕ → ℕ → ℕ → List ℕ → List ℕ → List ℕ × List ℕ
mask num_media num_fec mask_size mask_table fec_packet_mask =
    let written = write fec_packet_mask 0 (mask_rows num_media num_fec mask_size num_fec 0) in
    if leb num_media 12
    then (look_up_in_fec_table mask_table (num_media - 1) num_fec, fec_packet_mask)
    else (take (num_fec * mask_size) written, written)

-- `(0x80 >> i % 8) & mask[i / 8]`, as a test.
unfoldable pub has_bit : List ℕ → ℕ → Bool
has_bit row i = not (bit_and (128 / 2 ^ (i % 8)) (get_or row (i / 8) 0) == 0)
