-- ===== src/Router.antt =====
-- src/rtp_rtcp/rtp_rtcp_router.cc: the destinations of RTP and RTCP packets. A destination is the
-- number of an object. The hand-over to the worker thread is left out.
pub mod Destinations
use qo_srtp.Common.{
  ℕ, zero, suc, ◌+◌, ◌-◌, ◌*◌, ◌/◌, ◌%◌, ◌^◌, ◌≤◌, ◌<◌, min, max, bit_and, bit_or, bit_xor, ◌≡◌,
  refl, sym, ap, ap₂, subst, ◌∙◌, ◌≢◌, ◌↔◌, ◌⊎◌, inl, inr, Bool, true, false, not, ◌&&◌, ◌||◌,
  Option, none, some, List, [], ◌∷◌, ◌++◌, map, reverse, arith, ltb, leb, ◌==◌, if◌then◌else◌,
  ltb→lt, lt→ltb, le→ltb, leb→le, ==_iff, ==_ne, Bool-cases, Option-cases, length, get_or,
  get_elem?, take, drop, replicate, All, length-append, length-take, length-drop, length-replicate,
  take-append-drop, take-length-append, drop-length-append, take-all, length-reverse, drop-nil,
  drop-add, drop-all, drop_front, take_front, take-take, take-append, get_or-append, drop-append,
  take-length, passes, passes-at, some_passes, some_passes-at, &&-left, &&-right, u8, u16, u32,
  IsU8, IsU16, IsU32, inc16, sub16, sub32,
}
use qo_srtp.DataBuffer.{DataBuffer}
use qo_srtp.RtpPacket.Defs.{RtpPacket}

abbrev pub is_among : ℕ → List ℕ → Bool
is_among dst [] = false
is_among dst (d ∷ ds) = (d == dst) || is_among dst ds

-- `AddRtpDst` and `AddRtcpDst`.
unfoldable pub add_dst : ℕ → List ℕ → List ℕ
add_dst dst destinations =
    if is_among dst destinations then destinations else destinations ++ (dst ∷ [])

-- `RemoveRtpDst` and `RemoveRtcpDst`: the first one is erased.
unfoldable pub remove_dst : ℕ → List ℕ → List ℕ
remove_dst dst [] = []
remove_dst dst (d ∷ ds) = if d == dst then ds else d ∷ remove_dst dst ds

-- The calls of `OnRtcpPacket` for one buffer, and for all: destinations and buffers.
unfoldable pub give_all : DataBuffer → List ℕ → List (ℕ × DataBuffer)
give_all data_buffer [] = []
give_all data_buffer (d ∷ ds) = (d, data_buffer) ∷ give_all data_buffer ds

unfoldable pub on_rtcp : List DataBuffer → List ℕ → List (ℕ × DataBuffer)
on_rtcp [] destinations = []
on_rtcp (b ∷ bs) destinations = give_all b destinations ++ on_rtcp bs destinations

-- `IsExpectedRemoteSsrc` of a destination is virtual.
module _ (is_expected_remote_ssrc : ℕ → ℕ → Bool) where
  -- The inner loop for one packet; `none` if no destination expects it.
  unfoldable pub find_dst : ℕ → List ℕ → Option ℕ
  find_dst ssrc [] = none
  find_dst ssrc (d ∷ ds) = if not (is_expected_remote_ssrc d ssrc) then find_dst ssrc ds else some d

  -- The calls of `OnRtpPacket`: destinations and packets.
  unfoldable pub on_rtp : List RtpPacket → List ℕ → List (ℕ × RtpPacket)
  on_rtp [] destinations = []
  on_rtp (packet ∷ packets) destinations =
      let rest = on_rtp packets destinations in
      elim (find_dst packet.ssrc destinations) [ none ↦ rest | some d ↦ (d, packet) ∷ rest ]
