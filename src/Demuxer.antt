-- ===== src/Demuxer.antt =====
-- src/rtp_rtcp/rtp_rtcp_demuxer.cc: RTP and RTCP packets that come from one socket. There is a
-- callback; without one `OnData` calls a null pointer in the end.
pub mod Sorting
use qo_srtp.Common.{
  ℕ, zero, suc, ◌+◌, ◌-◌, ◌*◌, ◌/◌, ◌%◌, ◌^◌, ◌≤◌, ◌<◌, min, max, bit_and, bit_or, bit_xor, ◌≡◌,
  refl, sym, ap, ap₂, subst, ◌∙◌, ◌≢◌, ◌↔◌, ◌⊎◌, inl, inr, Bool, true, false, not, ◌&&◌, ◌||◌,
  Option, none, some, List, [], ◌∷◌, ◌++◌, map, reverse, arith, ltb, leb, ◌==◌, if◌then◌else◌,
  ltb→lt, lt→ltb, le→ltb, leb→le, ==_iff, ==_ne, Bool-cases, Option-cases, length, get_or, take,
  drop, replicate, All, length-append, length-take, length-drop, length-replicate, take-append-drop,
  take-length-append, drop-length-append, take-all, length-reverse, drop-nil, drop-add, drop-all,
  drop_front, take_front, take-take, passes, passes-at, u8, u16, u32, IsU8, IsU16, IsU32, inc16,
  sub16, sub32,
}
use qo_srtp.DataBuffer.{DataBuffer}
use qo_srtp.RtpPacket.Defs.{RtpPacket, ok, err, empty_packet}
use qo_srtp.RtpPacket.Store.{store_packet}

unfoldable pub has_correct_rtp_version : List ℕ → Bool
has_correct_rtp_version bytes = get_or bytes 0 0 / 64 == 2

unfoldable pub payload_type_is_reserved_for_rtcp : ℕ → Bool
payload_type_is_reserved_for_rtcp payload_type = leb 64 payload_type && ltb payload_type 96

unfoldable pub is_rtp : DataBuffer → Bool
is_rtp b =
    if ltb b.size 12
    then false
    else has_correct_rtp_version b.buffer
      && not (payload_type_is_reserved_for_rtcp (bit_and 127 (get_or b.buffer 1 0)))

unfoldable pub is_rtcp : DataBuffer → Bool
is_rtcp b =
    if ltb b.size 4
    then false
    else has_correct_rtp_version b.buffer
      && payload_type_is_reserved_for_rtcp (bit_and 127 (get_or b.buffer 1 0))

-- One buffer: what it adds to the RTP packets and to the RTCP buffers. `none` is `nullptr`.
unfoldable pub sort_buffer : (ℕ → ℕ) → Option DataBuffer → List RtpPacket × List DataBuffer
sort_buffer memory none = ([], [])
sort_buffer memory (some b) =
    let (result, packet) = store_packet memory b.buffer b.size empty_packet in
    if is_rtp b
    then elim result [ ok ↦ (packet ∷ [], []) | err e ↦ ([], []) ]
    else if is_rtcp b
    then ([], b ∷ [])
    else ([], [])

-- What the two calls of the callback get.
unfoldable pub on_data : (ℕ → ℕ) → List (Option DataBuffer) → List RtpPacket × List DataBuffer
on_data memory [] = ([], [])
on_data memory (b ∷ bs) =
    let (rtps, rtcps) = sort_buffer memory b in
    let (more_rtps, more_rtcps) = on_data memory bs in (rtps ++ more_rtps, rtcps ++ more_rtcps)
