-- ===== src/Fec/Packet.antt =====
-- `BuildFecPacket` of src/rtp_rtcp/ulp_fec.cc: the exclusive or of a group of packets.
use qo_srtp.Common.{
  ℕ, zero, suc, ◌+◌, ◌*◌, ◌/◌, ◌%◌, ◌^◌, bit_and, bit_or, bit_xor, Bool, Option, none, some, List,
  [], ◌∷◌, ◌++◌, ltb, if◌then◌else◌, length, get_or, take, drop, replicate, u8, u16, sub32,
}
use qo_srtp.Seq.{diff_seq}
use qo_srtp.ByteIo.{write_big_endian}
use qo_srtp.DataBuffer.{DataBuffer}
use qo_srtp.RtpPacket.Defs.{RtpPacket, empty_packet, fixed_buffer_length}
use qo_srtp.RtpPacket.Store.{store_fields}
use qo_srtp.Fec.Masks.{mask_size_l_bit_clear, mask_size_l_bit_set}

-- `kUlpfecHeaderLength`.
abbrev pub ulpfec_header_length : ℕ
ulpfec_header_length = 10

-- `RtpPacketData`: a packet and what its `LoadPacket` wrote.
pub record RtpPacketData : Type 0 where
  pub packet_struct : RtpPacket
  pub packet_buffer : DataBuffer

pub record FecEncoderConfig : Type 0 where
  pub ssrc : ℕ
  pub payload_type : ℕ

-- The bytes behind the fixed header, as a uint16_t.
unfoldable pub source_length : RtpPacketData → ℕ
source_length packet = u16 (sub32 packet.packet_buffer.size fixed_buffer_length)

-- `destination[i] ^= source[i]` for each byte of the source.
unfoldable pub xor_into : List ℕ → List ℕ → List ℕ
xor_into [] source = []
xor_into (d ∷ ds) [] = d ∷ ds
xor_into (d ∷ ds) (s ∷ ss) = bit_xor d s ∷ xor_into ds ss

-- `mask[index] |= value`.
unfoldable pub or_at : List ℕ → ℕ → ℕ → List ℕ
or_at [] index value = []
or_at (b ∷ bs) zero value = bit_or b value ∷ bs
or_at (b ∷ bs) (suc index) value = b ∷ or_at bs index value

-- The parts of the payload that the loop over the group changes: bytes 0, 1, 4 to 7 and 8 to 9 of
-- the level 0 header, the mask of the level 1 header, and the bytes behind that.
pub record FecParts : Type 0 where
  pub octet_0 : ℕ
  pub octet_1 : ℕ
  pub timestamp_recovery : List ℕ
  pub length_recovery : List ℕ
  pub fec_mask : List ℕ
  pub protected : List ℕ

-- After the `MemSet`.
abbrev pub blank_parts : ℕ → ℕ → FecParts
blank_parts mask_size max_length = record {
  octet_0 = 0;
  octet_1 = 0;
  timestamp_recovery = replicate 4 0;
  length_recovery = replicate 2 0;
  fec_mask = replicate mask_size 0;
  protected = replicate max_length 0;
}

unfoldable pub mask_with : List ℕ → ℕ → List ℕ
mask_with fec_mask seq_diff = or_at fec_mask (seq_diff / 8) (128 / 2 ^ (seq_diff % 8))

-- One round of the loop over the group.
unfoldable pub add_packet : ℕ → RtpPacketData → FecParts → FecParts
add_packet seq_base packet parts =
    let source = packet.packet_buffer.buffer in
    let len = source_length packet in
    record {
      octet_0 = bit_xor parts.octet_0 (get_or source 0 0);
      octet_1 = bit_xor parts.octet_1 (get_or source 1 0);
      timestamp_recovery = xor_into parts.timestamp_recovery (take 4 (drop 4 source));
      length_recovery = xor_into parts.length_recovery (write_big_endian 2 len);
      fec_mask =
          mask_with parts.fec_mask (u8 (diff_seq seq_base packet.packet_struct.sequence_number));
      protected = xor_into parts.protected (take len (drop fixed_buffer_length source));
    }

-- The loop. Its counter is an int16_t, so a packet with more than 32767 bytes behind its fixed
-- header takes it below 0 and writes in front of the payload: `none`.
unfoldable pub add_packets : ℕ → List RtpPacketData → FecParts → Option FecParts
add_packets seq_base [] parts = some parts
add_packets seq_base (packet ∷ packets) parts =
    let rest = add_packets seq_base packets (add_packet seq_base packet parts) in
    if ltb 32767 (source_length packet) then none else rest

-- The payload, once the base is written and the first byte has its two flags.
unfoldable pub fec_bytes : ℕ → Bool → ℕ → FecParts → List ℕ
fec_bytes seq_base l max_length parts =
    let start = bit_and parts.octet_0 0x3f in
    (if l then bit_or start 0x40 else start)
    ∷ (parts.octet_1
        ∷ (write_big_endian 2 seq_base
            ++ (parts.timestamp_recovery
                ++ (parts.length_recovery
                    ++ (write_big_endian 2 max_length ++ (parts.fec_mask ++ parts.protected))))))

unfoldable pub seq_of_data : RtpPacketData → ℕ
seq_of_data packet = packet.packet_struct.sequence_number

-- `group_media_packets.back()`, of a group that starts with `first`.
unfoldable pub last_packet : RtpPacketData → List RtpPacketData → RtpPacketData
last_packet first [] = first
last_packet first (packet ∷ packets) = last_packet packet packets

-- Whether the mask needs six bytes.
unfoldable pub long_mask : RtpPacketData → List RtpPacketData → Bool
long_mask first packets =
    ltb (mask_size_l_bit_clear * 8)
      (u8 (diff_seq (seq_of_data first) (seq_of_data (last_packet first packets))) + 1)

-- The bytes of `fec_payload` for a group that starts with `first`.
unfoldable pub fec_payload : RtpPacketData → List RtpPacketData → ℕ → Option (List ℕ)
fec_payload first packets max_length =
    let l = long_mask first packets in
    let mask_size = if l then mask_size_l_bit_set else mask_size_l_bit_clear in
    elim (add_packets (seq_of_data first) (first ∷ packets) (blank_parts mask_size max_length)) [
      | none ↦ none
      | some parts ↦ some (fec_bytes (seq_of_data first) l max_length parts)
    ]

-- The packet; `none` is undefined behaviour, such as the front of an empty group.
unfoldable pub build_fec_packet : FecEncoderConfig → List RtpPacketData → ℕ → Option RtpPacket
build_fec_packet config [] max_length = none
build_fec_packet config (first ∷ packets) max_length = elim (fec_payload first packets max_length) [
  | none ↦ none
  | some payload ↦
      some
        (store_fields
          (record empty_packet {
            octet_m_and_payload_type = config.payload_type;
            ssrc = config.ssrc;
            payload_buffer =
                some
                  (record { size = length payload; capacity = length payload; buffer = payload });
          })
          empty_packet).1
]
