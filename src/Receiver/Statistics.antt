-- ===== src/Receiver/Statistics.antt =====
-- The jitter and the losses that `OnRtpPacket` of src/rtp_rtcp/rtp_receiver.cc counts.
use qo_srtp.Common.{
  ℕ, ◌+◌, ◌-◌, ◌/◌, ◌≤◌, ◌<◌, min, max, ◌≡◌, refl, true, arith, leb, ◌==◌, lt→ltb, u32,
}
use qo_srtp.RtpPacket.Defs.{RtpPacket, payload_type}
use qo_srtp.Receiver.Defs.{InterarrivalJitterInfo, RtpReceiver}
use qo_srtp.Receiver.Receive.{
  contains, Clock, undefined, distance, transit_difference, smooth, update_jitter,
  update_statistics, on_original,
}

-- The jitter moves by a sixteenth of its distance from the new difference towards it, and never
-- past it. The quotient is cut, so a distance below 16 leaves it where it is.
pub smooth_lem :
    (d jitter : ℕ)
    → (min d jitter ≤ smooth d jitter)
      × (smooth d jitter ≤ max d jitter)
      × (distance d (smooth d jitter) ≡ distance d jitter - distance d jitter / 16)
unfolding smooth
smooth_lem d jitter = (ground arith, ground arith, ground arith)

passed_small :
    (now last : ℕ)
    → last ≤ now
    → now - last < 2147483648
    → u32 (now + 18446744073709551616 - last) < 2147483648
passed_small now last ht hb = omega arith

transit_difference-far :
    (rate : ℕ) (packet : RtpPacket) (now : ℕ) (info : InterarrivalJitterInfo)
    → info.last_rtp_utc_ms ≤ now
    → now - info.last_rtp_utc_ms < 2147483648
    → packet.timestamp + 2147483648 ≤ info.last_rtp_timestamp
    → 2147483648 ≤ transit_difference rate packet now info
unfolding transit_difference
transit_difference-far rate packet now info ht hb hw =
    rw (transit_difference, lt→ltb _ 2147483648 (passed_small now info.last_rtp_utc_ms ht hb))
      (omega (arith, hw))

-- A packet of the stream whose timestamp is smaller than the last one by 2 ^ 31 or more, as when
-- the timestamp wraps around, makes the conversion of the difference to `int32_t` undefined. The
-- clock did not go back, and less than 2 ^ 31 milliseconds passed.
pub on_original_wraps :
    (packet : RtpPacket) (clock : Clock) (self : RtpReceiver)
    → (packet.ssrc == self.config.remote_ssrc) ≡ true
    → contains (payload_type packet) self.config.rtp_payload_types ≡ true
    → self.has_received ≡ true
    → self.interarrival_jitter_info.last_rtp_utc_ms ≤ clock.receive_time
    → clock.receive_time - self.interarrival_jitter_info.last_rtp_utc_ms < 2147483648
    → packet.timestamp + 2147483648 ≤ self.interarrival_jitter_info.last_rtp_timestamp
    → on_original packet clock self ≡ undefined
unfolding on_original update_jitter
on_original_wraps packet clock self hs hp hr ht hb hw =
    let far =
      transit_difference-far self.config.rtp_clock_rate_hz packet clock.receive_time
        self.interarrival_jitter_info ht hb hw in
    let big : leb 2147483648 (
          transit_difference self.config.rtp_clock_rate_hz packet clock.receive_time
            self.interarrival_jitter_info)
        ≡ true =
      ground (arith, far) in
    rw (on_original, hs, hp, update_jitter, hr, big) refl

-- Of the highest and the first extended number only the difference is expected, and from it all
-- packets that `OnRtpPacket` counted are taken, the new one too. None of it exceeds an `int32_t`.
pub update_statistics_loss :
    (self : RtpReceiver)
    → self.packet_cache.extended_first_seq ≤ self.packet_cache.extended_highest_seq
    → self.packet_cache.extended_highest_seq < 4294967296
    → self.packet_cache.extended_highest_seq - self.packet_cache.extended_first_seq < 2147483648
    → self.nb_received_real < 2147483647
    → (update_statistics self).rtp_receiver_statistics.cumulative_loss
      ≡ self.packet_cache.extended_highest_seq
        - self.packet_cache.extended_first_seq
        - (self.nb_received_real + 1)
unfolding update_statistics
update_statistics_loss self hf hh hd hr = ground arith
