-- ===== src/Fec/Recovered.antt =====
-- The packet that `FecRecoverPacket` of src/rtp_rtcp/ulp_fec.cc makes of the recovered bytes.
use qo_srtp.Common.{
  ℕ, ◌-◌, ◌≤◌, ◌<◌, ◌≡◌, refl, ap, ◌∙◌, inl, inr, true, false, not, none, some, List, [], ◌∷◌, ◌++◌,
  map, arith, ltb, ◌==◌, if◌then◌else◌, Bool-cases, replicate, All,
}
use qo_srtp.DataBuffer.{DataBuffer}
use qo_srtp.RtpPacket.Defs.{RtpPacket, payload_type, empty_packet, ok}
use qo_srtp.RtpPacket.Store.{store_packet, buffer_length, payload_bytes}
use qo_srtp.RtpPacket.Load.{load_packet}
use qo_srtp.RtpPacket.Layout.{IsPacket, load_packet-image}
use qo_srtp.RtpPacket.Fields.{byte_swap}
use qo_srtp.RtpPacket.RoundTrip.{InRange, trimmed, store_packet-image}
use qo_srtp.Fec.Packet.{FecEncoderConfig, build_fec_packet}
use qo_srtp.Fec.Decoder.{
  FecDecoderConfig, CachedPacket, decode_fec_info, has_payload, store_recovered, fec_recover_packet,
}
use qo_srtp.Fec.Group.{IsShort, body_length, loaded}
use qo_srtp.Fec.Recovery.{fec_recover_packet-build_fec_packet}

-- What a packet without extension and padding comes back as.
abbrev pub read_back : RtpPacket → RtpPacket
read_back packet = record {
  octet_m_and_payload_type = packet.octet_m_and_payload_type;
  sequence_number = packet.sequence_number;
  timestamp = packet.timestamp;
  ssrc = packet.ssrc;
  csrcs = map byte_swap packet.csrcs;
  extension = none;
  payload_buffer = trimmed packet.payload_buffer;
  pad_size = 0;
}

decode_fec_info-keeps :
    (pt : ℕ) (c : CachedPacket)
    → ((decode_fec_info pt c).rtp_struct ≡ c.rtp_struct)
      × ((decode_fec_info pt c).rtp_buffer ≡ c.rtp_buffer)
unfolding decode_fec_info
decode_fec_info-keeps pt c = elim (Bool-cases (not (payload_type c.rtp_struct == pt))) [
  | inl e ↦ rw e (refl, refl)
  | inr e ↦ rw e (refl, refl)
]

trimmed-has_payload :
    (packet : RtpPacket)
    → 0 < payload_bytes packet.payload_buffer
    → has_payload (read_back packet) ≡ true
unfolding has_payload trimmed payload_bytes
trimmed-has_payload packet h = ground arith

store_recovered_lem :
    (memory : ℕ → ℕ) (decoder : FecDecoderConfig) (buffer : DataBuffer) (packet : RtpPacket)
    → store_packet memory buffer.buffer buffer.size empty_packet ≡ (ok, packet)
    → has_payload packet ≡ true
    → (c : CachedPacket) × (store_recovered memory decoder buffer ≡ some c)
      × (c.rtp_struct ≡ packet)
      × (c.rtp_buffer ≡ buffer)
unfolding store_recovered
store_recovered_lem memory decoder buffer packet e h =
    let c : CachedPacket = record {
      rtp_struct = packet;
      rtp_buffer = buffer;
      is_fec = false;
      protected_seqs = [];
      media_packets = [];
      invalid_fec = false;
    } in
    let k = decode_fec_info-keeps decoder.payload_type c in
    (decode_fec_info decoder.payload_type c, rw (store_recovered, e, e, h) refl, k.0, k.1)

-- Under the conditions of `fec_recover_packet-build_fec_packet`, for a missing packet that has a
-- payload and no extension and no padding, in the ranges of its fields: FecRecoverPacket returns a
-- packet with its fixed fields and its payload, and with its CSRCs, their bytes reversed.
pub recovered-read_back :
    (memory memory' memory'' : ℕ → ℕ) (config : FecEncoderConfig) (decoder : FecDecoderConfig)
    (before after : List RtpPacket) (lost : RtpPacket) (max_length seq_fec : ℕ) (beyond : List ℕ)
    → All IsShort (before ++ lost ∷ after)
    → All (λ p. body_length p ≤ max_length) (before ++ lost ∷ after)
    → 0 < max_length
    → max_length ≤ 32767
    → decoder.ssrc ≡ lost.ssrc
    → IsPacket lost
    → InRange lost
    → lost.extension ≡ none
    → lost.pad_size ≡ 0
    → 0 < payload_bytes lost.payload_buffer
    → (fec : RtpPacket) × (build_fec_packet config
          (map (loaded memory) (before ++ lost ∷ after))
          max_length
        ≡ some fec)
      × (c : CachedPacket) × (fec_recover_packet memory'' beyond decoder
            (load_packet memory' (record fec { sequence_number = seq_fec }))
            lost.sequence_number
            (map (load_packet memory) (before ++ after))
          ≡ some c)
      × (c.rtp_struct ≡ read_back lost)
recovered-read_back memory memory' memory'' config decoder before after lost max_length seq_fec
      beyond short protected some_bytes few_bytes same_ssrc v r no_extension no_padding
      with_payload =
    let (fec, built, ran) =
      fec_recover_packet-build_fec_packet memory memory' memory'' config decoder before after lost
        max_length seq_fec beyond short protected r.few_csrcs some_bytes few_bytes same_ssrc in
    let zeros : List ℕ = replicate (max_length - body_length lost) 0 in
    let read = store_packet-image lost v r no_extension no_padding zeros memory'' empty_packet in
    let no_pad : (if ltb 0 (payload_bytes lost.payload_buffer) then 0 else 0) ≡ 0 = ground arith in
    let stored =
      ap (λ xs. store_packet memory'' (xs ++ zeros) (buffer_length lost) empty_packet)
        (load_packet-image memory lost v).1
      ∙ read
      ∙ ap (λ k. (ok, record (read_back lost) { pad_size = k })) no_pad in
    let (c, kept, same, whole) =
      store_recovered_lem memory'' decoder _ (read_back lost) stored
        (trimmed-has_payload lost with_payload) in
    (fec, built, c, ran ∙ kept, same)
