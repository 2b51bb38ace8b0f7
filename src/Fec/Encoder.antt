-- ===== src/Fec/Encoder.antt =====
-- `UlpFecEncoder` of src/rtp_rtcp/ulp_fec.cc, and its configuration of
-- src/rtp_rtcp/forward_error_correction.cc.
use qo_srtp.Common.{
  ℕ, zero, suc, ◌+◌, ◌*◌, max, not, Option, none, some, List, [], ◌∷◌, map, ltb, leb, ◌==◌,
  if◌then◌else◌, length, drop, replicate, u8,
}
use qo_srtp.Seq.{is_next_seq}
use qo_srtp.DataBuffer.{write}
use qo_srtp.RtpPacket.Defs.{RtpPacket}
use qo_srtp.RtpPacket.Load.{load_packet}
use qo_srtp.Fec.Masks.{FecMaskType, max_media_packets, packet_mask_size, num_fec_packets, has_bit}
use qo_srtp.Fec.Unequal.{ImportantPacketsProtectionMethod, generate_packet_masks}
use qo_srtp.Fec.Packet.{RtpPacketData, FecEncoderConfig, source_length, build_fec_packet}

pub record UlpFecEncoder : Type 0 where
  pub config : Option FecEncoderConfig
  pub fec_packet_mask : List ℕ

-- `kFECPacketMaskMaxSize` bytes.
abbrev pub new_encoder : UlpFecEncoder
new_encoder = record { config = none; fec_packet_mask = replicate 288 0 }

-- `FecEncoderConfigImpl::Configure`; `none` is an error, which leaves the object as it was.
unfoldable pub configure_config : ℕ → ℕ → Option FecEncoderConfig
configure_config ssrc payload_type =
    if leb 128 payload_type
    then none
    else some (record { ssrc = ssrc; payload_type = payload_type })

-- `Configure`. `none` is a nullptr.
unfoldable pub configure_encoder : Option FecEncoderConfig → UlpFecEncoder → Option UlpFecEncoder
configure_encoder none self = none
configure_encoder (some config) self =
    if leb 128 config.payload_type then none else some (record self { config = some config })

-- What `Encode` does: an error text, undefined behaviour, or the packets that are pushed.
pub data Encoded : Type 0 where
  no_packets too_many_packets too_many_important other_ssrc not_next_seq : Encoded
  undefined : Encoded
  encoded : List RtpPacket → Encoded

-- The packets of a row from bit i on, and the greatest length behind their fixed headers. `none`
-- is a bit for a packet that is not there.
unfoldable pub gather : List ℕ → ℕ → ℕ → List RtpPacketData → ℕ → Option (List RtpPacketData × ℕ)
gather row zero i media max_length = some ([], max_length)
gather row (suc rounds) i [] max_length =
    let rest = gather row rounds (i + 1) [] max_length in if has_bit row i then none else rest
gather row (suc rounds) i (packet ∷ media) max_length =
    let skipped = gather row rounds (i + 1) media max_length in
    let taken = gather row rounds (i + 1) media (max max_length (source_length packet)) in
    if has_bit row i
    then (elim taken [ none ↦ none | some (group, len) ↦ some (packet ∷ group, len) ])
    else skipped

-- The loop of `GenerateFecPackets` from FEC packet `i_fec` on.
unfoldable pub generate_fec_packets :
    FecEncoderConfig → List RtpPacketData → ℕ → ℕ → ℕ → List ℕ → Option (List RtpPacket)
generate_fec_packets config media mask_size zero i_fec masks = some []
generate_fec_packets config media mask_size (suc rounds) i_fec masks =
    let later = generate_fec_packets config media mask_size rounds (i_fec + 1) masks in
    elim (gather (drop (i_fec * mask_size) masks) (mask_size * 8) 0 media 0) [
      | none ↦ none
      | some (group, max_length) ↦ elim (build_fec_packet config group max_length) [
        | none ↦ none
        | some packet ↦ elim later [ none ↦ none | some packets ↦ some (packet ∷ packets) ]
      ]
    ]

-- The loop that checks the packets behind the first one; `none` if nothing is wrong.
unfoldable pub check_packets : ℕ → ℕ → List RtpPacket → Option Encoded
check_packets ssrc last_seq [] = none
check_packets ssrc last_seq (packet ∷ packets) =
    let rest = check_packets ssrc packet.sequence_number packets in
    if not (ssrc == packet.ssrc)
    then some other_ssrc
    else if not (is_next_seq last_seq packet.sequence_number)
    then some not_next_seq
    else rest

unfoldable pub check_all : ℕ → List RtpPacket → Option Encoded
check_all ssrc [] = none
check_all ssrc (packet ∷ packets) =
    if not (ssrc == packet.ssrc)
    then some other_ssrc
    else check_packets ssrc packet.sequence_number packets

-- From the masks on: `memory` is what the blocks held that the packets are written to.
unfoldable pub encode_checked :
    (ℕ → ℕ)
    → List RtpPacket
    → ℕ
    → ImportantPacketsProtectionMethod
    → ℕ
    → FecMaskType
    → FecEncoderConfig
    → UlpFecEncoder
    → Encoded × UlpFecEncoder
encode_checked memory packets num_important method protection_factor mask_type config self =
    let nb = length packets in
    let mask_size = packet_mask_size nb in
    let num_fec = num_fec_packets nb protection_factor in
    let cleared = write self.fec_packet_mask 0 (replicate (num_fec * mask_size) 0) in
    let masks = generate_packet_masks nb num_fec num_important method mask_type mask_size cleared in
    let media =
      map (λ packet. record { packet_struct = packet; packet_buffer = load_packet memory packet })
        packets in
    (
      (elim (generate_fec_packets config media mask_size (u8 num_fec) 0 masks) [
        | none ↦ undefined
        | some out ↦ encoded out
      ]),
      record self { fec_packet_mask = masks },
    )

unfoldable pub encode :
    (ℕ → ℕ)
    → List RtpPacket
    → ℕ
    → ImportantPacketsProtectionMethod
    → ℕ
    → FecMaskType
    → UlpFecEncoder
    → Encoded × UlpFecEncoder
encode memory packets num_important method protection_factor mask_type self =
    if length packets == 0
    then (no_packets, self)
    else if ltb max_media_packets (length packets)
    then (too_many_packets, self)
    else if ltb (length packets) num_important
    then (too_many_important, self)
    else elim self.config [
      | none ↦ (undefined, self)
      | some config ↦ elim (check_all config.ssrc packets) [
        | some error ↦ (error, self)
        | none ↦
            encode_checked memory packets num_important method protection_factor mask_type config
              self
      ]
    ]
