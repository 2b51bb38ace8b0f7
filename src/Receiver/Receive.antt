-- ===== src/Receiver/Receive.antt =====
-- `OnRtpPacket` of src/rtp_rtcp/rtp_receiver.cc.
use qo_srtp.Common.{
  ℕ, ◌+◌, ◌-◌, ◌*◌, ◌/◌, min, max, Bool, true, false, not, ◌&&◌, ◌||◌, Option, none, some, List, [],
  ◌∷◌, ltb, leb, ◌==◌, if◌then◌else◌, u32, sub32,
}
use qo_srtp.RtpPacket.Defs.{RtpPacket, payload_type}
use qo_srtp.ReceiverCache.Put.{put_packet}
use qo_srtp.ReceiverCache.Get.{get_packets, get_loss_packet_seqs_for_nack}
use qo_srtp.Receiver.Defs.{RtpReceiverStatistics, InterarrivalJitterInfo, RtpReceiver}
use qo_srtp.Receiver.Rtx.{reconstruct_rtp_from_rtx}

-- What the clock says at the four calls of `UTCTimeMillis` that matter.
pub record Clock : Type 0 where
  pub receive_time : ℕ
  pub put_time : ℕ
  pub nack_time : ℕ
  pub get_time : ℕ

abbrev pub contains : ℕ → List ℕ → Bool
contains key [] = false
contains key (k ∷ ks) = (k == key) || contains key ks

-- The distance of two numbers.
abbrev pub distance : ℕ → ℕ → ℕ
distance a b = max a b - min a b

-- `d`: by how much the distance of the timestamps differs from the time that passed, in units of
-- the timestamp. The milliseconds are converted to an `int32_t`. The code calculates with `double`,
-- which is exact if the clock rate is a multiple of 1000.
unfoldable pub transit_difference : ℕ → RtpPacket → ℕ → InterarrivalJitterInfo → ℕ
transit_difference rtp_clock_rate_hz packet utc_now_ms info =
    let passed = u32 (utc_now_ms + 18446744073709551616 - info.last_rtp_utc_ms) in
    let now = packet.timestamp * 1000 in
    let before = info.last_rtp_timestamp * 1000 in
    if ltb passed 2147483648
    then distance now (before + passed * rtp_clock_rate_hz) / 1000
    else distance (now + (4294967296 - passed) * rtp_clock_rate_hz) before / 1000

-- `interarrival_jitter += (d - interarrival_jitter) / 16`, where the quotient is cut towards 0.
unfoldable pub smooth : ℕ → ℕ → ℕ
smooth d jitter = if leb jitter d then jitter + (d - jitter) / 16 else jitter - (jitter - d) / 16

-- `none` is a distance that no `int32_t` holds; its conversion is undefined.
unfoldable pub update_jitter :
    Bool → ℕ → RtpPacket → ℕ → InterarrivalJitterInfo → Option InterarrivalJitterInfo
update_jitter has_received rtp_clock_rate_hz packet utc_now_ms info =
    let d = transit_difference rtp_clock_rate_hz packet utc_now_ms info in
    let moved : InterarrivalJitterInfo = record {
      last_rtp_timestamp = packet.timestamp;
      last_rtp_utc_ms = utc_now_ms;
      interarrival_jitter = if has_received then smooth d info.interarrival_jitter else 0;
    } in
    if has_received && leb 2147483648 d then none else some moved

-- The statistics once the cache has the packet. `cumulative_loss` is an `int32_t` difference that is
-- cut at 0 if it is negative.
unfoldable pub update_statistics : RtpReceiver → RtpReceiver
update_statistics self =
    let expected =
      sub32 self.packet_cache.extended_highest_seq self.packet_cache.extended_first_seq in
    let real = u32 (self.nb_received_real + 1) in
    let loss = sub32 expected real in
    record self {
      nb_received_expected = expected;
      nb_received_real = real;
      has_received = true;
      rtp_receiver_statistics = record self.rtp_receiver_statistics {
        first_extended_seq_num = self.packet_cache.extended_first_seq;
        extended_seq_num = self.packet_cache.extended_highest_seq;
        cumulative_loss = if ltb loss 2147483648 then loss else 0;
        interarrival_jitter = self.interarrival_jitter_info.interarrival_jitter;
      };
    }

-- What a call leads to: packets that are dropped, undefined behaviour, or the new state with the
-- numbers for `NotifyLossPacketSeqsForNack` and the packets for `OnRtpPacket` of the callback.
pub data Received : Type 0 where
  dropped undefined : Received
  received : RtpReceiver → List ℕ → List RtpPacket → Received

-- From the first use of the cache on.
unfoldable pub process : RtpPacket → Clock → RtpReceiver → Received
process packet clock self =
    let put = put_packet packet clock.put_time self.packet_cache in
    let counted = update_statistics (record self { packet_cache = put }) in
    let (asked, losses) = get_loss_packet_seqs_for_nack clock.nack_time [] put in
    let (after, packets) = get_packets clock.get_time [] asked in
    received (record counted { packet_cache = after }) losses packets

-- A packet of the stream itself.
unfoldable pub on_original : RtpPacket → Clock → RtpReceiver → Received
on_original packet clock self =
    let config = self.config in
    if not (packet.ssrc == config.remote_ssrc)
    then dropped
    else if not (contains (payload_type packet) config.rtp_payload_types)
    then dropped
    else elim (update_jitter self.has_received config.rtp_clock_rate_hz packet clock.receive_time
        self.interarrival_jitter_info) [
          | none ↦ undefined
          | some info ↦ process packet clock (record self { interarrival_jitter_info = info })
        ]

unfoldable pub on_rtp_packet : (ℕ → ℕ) → RtpPacket → Clock → RtpReceiver → Received
on_rtp_packet memory packet clock self =
    if self.config.rtx_enabled && (packet.ssrc == self.config.rtx_ssrc)
    then elim (reconstruct_rtp_from_rtx memory self.config packet) [
      | none ↦ dropped
      | some original ↦ on_original original clock self
    ]
    else on_original packet clock self

unfoldable pub get_rtp_receiver_statistics : RtpReceiver → Option RtpReceiverStatistics
get_rtp_receiver_statistics self =
    if self.has_received then some self.rtp_receiver_statistics else none
