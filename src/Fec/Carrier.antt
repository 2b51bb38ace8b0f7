-- ===== src/Fec/Carrier.antt =====
-- The packet that `BuildFecPacket` of src/rtp_rtcp/ulp_fec.cc makes of its payload.
use qo_srtp.Common.{
  ℕ, ◌+◌, ◌<◌, ◌≡◌, refl, ap, ◌∙◌, Bool, none, some, List, [], ◌∷◌, map, arith, le→ltb, length,
  take, drop, take-all,
}
use mathlib.Core.List.{append-nil}
use qo_srtp.RtpPacket.Defs.{RtpPacket, empty_packet}
use qo_srtp.RtpPacket.Store.{store_fields, buffer_length, extension_bytes, payload_bytes}
use qo_srtp.RtpPacket.Load.{load_packet}
use qo_srtp.RtpPacket.Written.{csrc_bytes, extension_image, payload_image, padding_image}
use qo_srtp.RtpPacket.Layout.{IsPacket, load_packet-image}
use qo_srtp.RtpPacket.Fields.{drop_twelve}
use qo_srtp.Fec.Packet.{
  FecEncoderConfig, FecParts, blank_parts, add_packets, fec_bytes, seq_of_data, long_mask,
  fec_payload, build_fec_packet,
}
use qo_srtp.Fec.Group.{loaded}
use qo_srtp.Fec.Layout.{size_of_mask}

-- The packet that carries a payload.
abbrev pub carrier : FecEncoderConfig → ℕ → List ℕ → RtpPacket
carrier config seq payload = record {
  octet_m_and_payload_type = config.payload_type;
  sequence_number = seq;
  timestamp = 0;
  ssrc = config.ssrc;
  csrcs = [];
  extension = none;
  payload_buffer =
      some (record { size = length payload; capacity = length payload; buffer = payload });
  pad_size = 0;
}

module _ (config : FecEncoderConfig) (payload : List ℕ) (small : length payload < 65536) where
  carried : (seq : ℕ) → buffer_length (carrier config seq payload) ≡ 12 + length payload
  unfolding buffer_length extension_bytes payload_bytes
  carried seq = omega arith

  pub store_fields-carrier :
      (store_fields (carrier config 0 payload) empty_packet).1 ≡ carrier config 0 payload
  unfolding store_fields
  store_fields-carrier =
      let e =
        le→ltb 4294967295 (buffer_length (carrier config 0 payload))
          (omega (arith, carried 0, small)) in
      rw e refl

  carrier-IsPacket : (seq : ℕ) → IsPacket (carrier config seq payload)
  carrier-IsPacket seq = record {
    extension_fits = tt;
    payload_fits = omega arith;
    total = omega (arith, carried seq, small);
  }

  -- Its bytes behind the fixed header.
  pub load_packet-carrier :
      (memory : ℕ → ℕ) (seq : ℕ)
      → ((load_packet memory (carrier config seq payload)).size ≡ 12 + length payload)
        × (drop 12 (load_packet memory (carrier config seq payload)).buffer ≡ payload)
  unfolding csrc_bytes extension_image payload_image padding_image
  load_packet-carrier memory seq =
      let (size, buffer) =
        load_packet-image memory (carrier config seq payload) (carrier-IsPacket seq) in
      (
        size ∙ carried seq,
        ap (drop 12) buffer
            ∙ drop_twelve (carrier config seq payload)
            ∙ append-nil (take (length payload) payload)
            ∙ take-all payload,
      )

module _ (memory : ℕ → ℕ) (config : FecEncoderConfig) (first : RtpPacket) (packets : List RtpPacket)
    (max_length : ℕ) where
  abbrev pub l : Bool
  l = long_mask (loaded memory first) (map (loaded memory) packets)

  -- The packet is built once the loop over the group has ended.
  pub build_fec_packet-carrier :
      (parts : FecParts)
      → add_packets first.sequence_number
          (map (loaded memory) (first ∷ packets))
          (blank_parts (size_of_mask l) max_length)
        ≡ some parts
      → build_fec_packet config (map (loaded memory) (first ∷ packets)) max_length
        ≡ some
            (store_fields
              (carrier config 0 (fec_bytes first.sequence_number l max_length parts))
              empty_packet).1
  unfolding build_fec_packet fec_payload seq_of_data
  build_fec_packet-carrier parts sum = rw (build_fec_packet, fec_payload, sum) refl
