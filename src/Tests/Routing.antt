-- ===== src/Tests/Routing.antt =====
-- src/rtp_rtcp/rtp_rtcp_demuxer.cc and src/rtp_rtcp/rtp_rtcp_router.cc at concrete inputs.
use qo_srtp.Common.{ℕ, ◌≡◌, refl, Bool, true, false, ◌||◌, some, [], ◌∷◌, map, ◌==◌, All}
use qo_srtp.DataBuffer.{DataBuffer}
use qo_srtp.RtpPacket.Defs.{RtpPacket, payload_type}
use qo_srtp.RtpPacket.Load.{load_packet}
use qo_srtp.RtpPacket.RoundTrip.{trimmed}
use qo_srtp.Demuxer.{
  payload_type_is_reserved_for_rtcp, is_rtp, is_rtcp, has_correct_rtp_version, on_data,
}
use qo_srtp.Demuxer.Sorting.{on_data-load_packet}
use qo_srtp.Router.{on_rtp}
use qo_srtp.Router.Destinations.{IsMeant, on_rtp-IsMeant}
use qo_srtp.Tests.Packets.{plain, stale, plain-IsPacket, plain-InRange}
use qo_srtp.Tests.Receiving.{numbered}

-- A NACK and a packet that is too short.
abbrev feedback : DataBuffer
feedback = record { size = 8; capacity = 8; buffer = 0x81 ∷ 205 ∷ 0 ∷ 1 ∷ 0 ∷ 0 ∷ 0 ∷ 9 ∷ [] }

a_nack : (is_rtp feedback ≡ false) × (is_rtcp feedback ≡ true)
unfolding is_rtp is_rtcp has_correct_rtp_version payload_type_is_reserved_for_rtcp
a_nack = (refl, refl)

plain_type_is_free : payload_type_is_reserved_for_rtcp (payload_type plain) ≡ false
unfolding payload_type_is_reserved_for_rtcp payload_type
plain_type_is_free = refl

on_data-load_packet_example :
    (parsed : RtpPacket) × (on_data stale (some (load_packet stale plain) ∷ []) ≡ (parsed ∷ [], []))
    × (parsed.sequence_number ≡ 0x0102)
    × (parsed.timestamp ≡ 0x03040506)
    × (parsed.ssrc ≡ 0x0708090a)
    × (parsed.octet_m_and_payload_type ≡ 0xe0)
    × (parsed.payload_buffer ≡ trimmed plain.payload_buffer)
on_data-load_packet_example =
    on_data-load_packet stale stale plain plain-IsPacket plain-InRange refl refl plain_type_is_free

-- Destination 1 expects the ssrc 0, destination 2 every one.
abbrev expects : ℕ → ℕ → Bool
expects dst ssrc = (dst == 2) || (ssrc == 0)

on_rtp-IsMeant_example :
    (map (λ c. c.1) (on_rtp expects (numbered 5 ∷ numbered 6 ∷ []) (1 ∷ 2 ∷ []))
      ≡ numbered 5 ∷ numbered 6 ∷ [])
    × All
        (IsMeant expects (1 ∷ 2 ∷ []))
        (on_rtp expects (numbered 5 ∷ numbered 6 ∷ []) (1 ∷ 2 ∷ []))
on_rtp-IsMeant_example = on_rtp-IsMeant expects (numbered 5 ∷ numbered 6 ∷ []) (1 ∷ 2 ∷ [])
