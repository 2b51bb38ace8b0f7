-- ===== src/Tests/Protecting.antt =====
-- src/rtp_rtcp/ulp_fec.cc at concrete inputs.
use qo_srtp.Common.{
  ℕ, ◌*◌, ◌≤◌, ◌<◌, ◌≡◌, refl, true, false, none, some, List, [], ◌∷◌, map, arith, length,
  get_elem?, take, drop, replicate, All,
}
use qo_srtp.RtpPacket.Defs.{RtpPacket}
use qo_srtp.RtpPacket.Store.{buffer_length, extension_bytes, payload_bytes}
use qo_srtp.RtpPacket.Load.{load_packet}
use qo_srtp.RtpPacket.RoundTrip.{InRange}
use qo_srtp.Fec.Random.{packet_mask_random_tbl}
use qo_srtp.Fec.Masks.{
  random, bursty, packet_mask_size, num_fec_packets, pick_table, skip_data, skip_media,
  look_up_in_fec_table, mask, has_bit,
}
use qo_srtp.Fec.Unequal.{
  mode_overlap, none_set, generate_packet_masks, unequal_protection_mask, set_protection_allocation,
}
use qo_srtp.Fec.Packet.{FecEncoderConfig}
use qo_srtp.Fec.Encoder.{UlpFecEncoder, new_encoder, encoded, encode}
use qo_srtp.Fec.Decoder.{FecDecoderConfig, CachedPacket, fec_recover_packet}
use qo_srtp.Fec.Group.{IsShort}
use qo_srtp.Fec.Tables.{row_of, macro_of, look_up_in_fec_table_protects}
use qo_srtp.Fec.Interleave.{has_bit-mask}
use qo_srtp.Fec.Important.{unequal_protection_mask_copies, num_fec_packets_bounds}
use qo_srtp.Fec.Rows.{ProtectsAll, generate_packet_masks-ProtectsAll}
use qo_srtp.Fec.Recovered.{read_back}
use qo_srtp.Fec.Encoding.{IsRun, group_of, BuildsRow}
use qo_srtp.Fec.Chosen.{chosen}
use qo_srtp.DataBuffer.{write}
use qo_srtp.Fec.Ends.{masks_after, encode-encoded, encode-recovered}

abbrev pub stale : ℕ → ℕ
stale _ = 0xcc

-- Packets 65535, 0 and 1 with payloads of different lengths.
abbrev pub media : ℕ → ℕ → RtpPacket
media seq size = record {
  octet_m_and_payload_type = 96;
  sequence_number = seq;
  timestamp = 90000;
  ssrc = 7;
  csrcs = [];
  extension = none;
  payload_buffer = some (record { size = size; capacity = 3; buffer = 1 ∷ 2 ∷ 3 ∷ [] });
  pad_size = 0;
}

abbrev frame : List RtpPacket
frame = media 65535 3 ∷ media 0 1 ∷ media 1 2 ∷ []

abbrev encoder_config : FecEncoderConfig
encoder_config = record { ssrc = 7; payload_type = 100 }

abbrev encoder : UlpFecEncoder
encoder = record new_encoder { config = some encoder_config }

abbrev pub decoder_config : FecDecoderConfig
decoder_config = record { max_cache_seq_difference = 100; ssrc = 7; payload_type = 100 }

media-IsShort : (seq size : ℕ) → seq < 65536 → size ≤ 3 → IsShort (media seq size)
unfolding buffer_length extension_bytes payload_bytes
media-IsShort seq size h hs = record {
  whole = record { extension_fits = tt; payload_fits = hs; total = omega arith };
  short = omega arith;
}

frame-IsShort : All IsShort frame
frame-IsShort = (
  media-IsShort 65535 3 (omega arith) (omega arith),
  (
    media-IsShort 0 1 (omega arith) (omega arith),
    (media-IsShort 1 2 (omega arith) (omega arith), tt),
  ),
)

frame-IsRun : IsRun 7 frame
frame-IsRun = (refl, omega arith, (refl, omega arith, refl, (refl, omega arith, omega arith, tt)))

encode-encoded_example :
    (fecs : List RtpPacket) × (encode stale frame 0 none_set 128 random encoder ≡ (
      encoded fecs,
      record encoder { fec_packet_mask = masks_after encoder none_set random 3 128 },
    ))
    × (length fecs ≡ num_fec_packets 3 128)
    × ((r : ℕ)
        → r < num_fec_packets 3 128
        → (fec : RtpPacket) × (get_elem? fecs r ≡ some fec)
          × BuildsRow stale encoder_config frame
              (masks_after encoder none_set random 3 128)
              (packet_mask_size 3)
              r
              fec)
    × (0 < 128
        → (x : ℕ) → x < 3
        → (r : ℕ) × (r < num_fec_packets 3 128)
          × (has_bit (row_of (packet_mask_size 3) (masks_after encoder none_set random 3 128) r) x
              ≡ true))
encode-encoded_example =
    encode-encoded stale frame none_set 128 random encoder encoder_config refl frame-IsRun
      frame-IsShort (omega arith) (omega arith) (omega arith)

-- Two FEC packets; the second row holds the first and the last packet.
two_rows : num_fec_packets 3 128 ≡ 2
unfolding num_fec_packets
two_rows = refl

media-InRange : (seq size : ℕ) → seq < 65536 → InRange (media seq size)
media-InRange seq size h = record {
  octet = omega arith;
  seq = h;
  stamp = omega arith;
  source = omega arith;
  few_csrcs = omega arith;
}

abbrev frame_masks : List ℕ
frame_masks = masks_after encoder none_set random 3 128

second_row :
    group_of stale encoder_config frame frame_masks (packet_mask_size 3) 1
    ≡ media 65535 3 ∷ media 1 2 ∷ []
unfolding chosen generate_packet_masks mask pick_table skip_data skip_media look_up_in_fec_table
    packet_mask_random_tbl has_bit num_fec_packets packet_mask_size write
second_row = refl

encode-recovered_example :
    (fecs : List RtpPacket) × ((encode stale frame 0 none_set 128 random encoder).0 ≡ encoded fecs)
    × (fec : RtpPacket) × (get_elem? fecs 1 ≡ some fec)
    × (c : CachedPacket) × (fec_recover_packet stale [] decoder_config
          (load_packet stale (record fec { sequence_number = 2 }))
          1
          (map (load_packet stale) (media 65535 3 ∷ []))
        ≡ some c)
    × (c.rtp_struct ≡ read_back (media 1 2))
unfolding num_fec_packets payload_bytes
encode-recovered_example =
    encode-recovered stale frame none_set 128 random encoder encoder_config refl frame-IsRun
      frame-IsShort (omega arith) (omega arith) (omega arith) stale stale decoder_config 1
      (media 65535 3 ∷ []) [] (media 1 2) 2 [] (omega arith) second_row refl
      (media-InRange 1 2 (omega arith)) refl refl (omega arith)

generate_packet_masks-ProtectsAll_example :
    ProtectsAll
      (generate_packet_masks 20 5 0 none_set bursty (packet_mask_size 20) (replicate 288 0))
      (packet_mask_size 20)
      20
      5
generate_packet_masks-ProtectsAll_example =
    generate_packet_masks-ProtectsAll bursty none_set 20 5 (replicate 288 0) (omega arith)
      (omega arith) (omega arith) (omega arith)

look_up_in_fec_table_protects_example :
    let masks = look_up_in_fec_table (pick_table bursty 12) 11 4 in
    (masks ≡ macro_of bursty 12 4)
    × (length masks ≡ 4 * 2)
    × ((r : ℕ) → r < 4 → (x : ℕ) × (x < 12) × (has_bit (row_of 2 masks r) x ≡ true))
    × ((x : ℕ) → x < 12 → (r : ℕ) × (r < 4) × (has_bit (row_of 2 masks r) x ≡ true))
    × ((r x : ℕ) → r < 4 → 12 ≤ x → x < 16 → has_bit (row_of 2 masks r) x ≡ false)
look_up_in_fec_table_protects_example =
    look_up_in_fec_table_protects bursty 12 4 (omega arith) (omega arith) (omega arith)
      (omega arith)

has_bit-mask_example : has_bit (row_of 6 (mask 20 5 6 [] (replicate 288 0)).0 3) 18 ≡ true
has_bit-mask_example =
    has_bit-mask 20 5 6 [] (replicate 288 0) 3 18 (omega arith) (omega arith) (omega arith)

unequal_protection_mask_copies_example :
    let k = set_protection_allocation 20 6 4 in
    let out = unequal_protection_mask mode_overlap 20 6 4 6 [] (replicate 288 0) in
    take (k * 6) out ≡ take (k * 6) (drop (k * 6) out)
unequal_protection_mask_copies_example =
    unequal_protection_mask_copies 20 6 4 6 [] (replicate 288 0) (omega arith) (omega arith)

-- Three of the six FEC packets are for the important packets.
three_important : set_protection_allocation 20 6 4 ≡ 3
unfolding set_protection_allocation
three_important = refl

num_fec_packets_bounds_example :
    (num_fec_packets 48 255 ≤ 48)
    × (0 < 255 → 0 < num_fec_packets 48 255)
    × (◌≡◌ {A = ℕ} 255 0 → num_fec_packets 48 255 ≡ 0)
    × (num_fec_packets 48 255 * packet_mask_size 48 ≤ 288)
    × (48 ≤ packet_mask_size 48 * 8)
num_fec_packets_bounds_example =
    num_fec_packets_bounds 48 255 (omega arith) (omega arith) (omega arith)
