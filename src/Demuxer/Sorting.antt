-- ===== src/Demuxer/Sorting.antt =====
-- What `OnData` of src/rtp_rtcp/rtp_rtcp_demuxer.cc hands over.
use qo_srtp.Common.{
  ℕ, ◌≤◌, ◌<◌, bit_and, ◌≡◌, refl, true, false, ◌&&◌, ◌||◌, none, some, [], ◌∷◌, arith, ltb, get_or,
}
use qo_srtp.DataBuffer.{DataBuffer}
use qo_srtp.RtpPacket.Defs.{RtpPacket, empty_packet, payload_type}
use qo_srtp.RtpPacket.Store.{store_packet, buffer_length}
use qo_srtp.RtpPacket.Load.{load_packet, first_byte}
use qo_srtp.RtpPacket.Layout.{IsPacket, image, fixed_header, load_packet-image}
use qo_srtp.RtpPacket.Flags.{first_byte_flags}
use qo_srtp.RtpPacket.RoundTrip.{InRange, trimmed, store_packet-load_packet}
use qo_srtp.Demuxer.{
  is_rtp, is_rtcp, has_correct_rtp_version, payload_type_is_reserved_for_rtcp, sort_buffer, on_data,
}

-- No buffer is both; one of at least twelve bytes with version 2 is one of them, and which one the
-- payload type says.
pub is_rtp-is_rtcp :
    (b : DataBuffer)
    → ((is_rtp b && is_rtcp b) ≡ false)
      × (12 ≤ b.size → (is_rtp b || is_rtcp b) ≡ has_correct_rtp_version b.buffer)
      × (b.size < 4 → (is_rtp b || is_rtcp b) ≡ false)
unfolding is_rtp is_rtcp
is_rtp-is_rtcp b = (ground arith, λ h. ground arith, λ h. ground arith)

module _ (memory memory' : ℕ → ℕ) (packet : RtpPacket) (v : IsPacket packet) (r : InRange packet)
    (no_extension : packet.extension ≡ none) (no_padding : packet.pad_size ≡ 0)
    (not_reserved : payload_type_is_reserved_for_rtcp (payload_type packet) ≡ false) where
  first : get_or (image packet) 0 0 ≡ first_byte packet
  first = unfold image fixed_header in refl

  second : get_or (image packet) 1 0 ≡ packet.octet_m_and_payload_type
  second = unfold image fixed_header in refl

  long : ltb (buffer_length packet) 12 ≡ false
  unfolding buffer_length
  long = ground arith

  not_rtcp : payload_type_is_reserved_for_rtcp (bit_and 127 packet.octet_m_and_payload_type) ≡ false
  unfolding payload_type
  not_rtcp = not_reserved

  taken : is_rtp (load_packet memory packet) ≡ true
  unfolding is_rtp has_correct_rtp_version
  taken =
      let l = load_packet-image memory packet v in
      let f = first_byte_flags packet r.few_csrcs in
      rw (is_rtp, l.0, l.1, long, first, second, f.1, not_rtcp) refl

  -- What `LoadPacket` writes of a packet without extension and padding and with at most 15 CSRCs,
  -- whose payload type is none of those reserved for RTCP, is taken for RTP and handed over as one
  -- packet with its fixed fields and its payload.
  pub on_data-load_packet :
      (parsed : RtpPacket) × (on_data memory' (some (load_packet memory packet) ∷ [])
        ≡ (parsed ∷ [], []))
      × (parsed.sequence_number ≡ packet.sequence_number)
      × (parsed.timestamp ≡ packet.timestamp)
      × (parsed.ssrc ≡ packet.ssrc)
      × (parsed.octet_m_and_payload_type ≡ packet.octet_m_and_payload_type)
      × (parsed.payload_buffer ≡ trimmed packet.payload_buffer)
  unfolding on_data sort_buffer
  on_data-load_packet =
      let b = load_packet memory packet in
      let out = store_packet memory' b.buffer b.size empty_packet in
      let back =
        store_packet-load_packet memory packet v r no_extension no_padding memory' empty_packet in
      (out.1, rw (on_data, sort_buffer, taken, back.0) refl, back.2, back.3, back.4, back.1, back.7)
