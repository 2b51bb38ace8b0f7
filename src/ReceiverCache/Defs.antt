-- ===== src/ReceiverCache/Defs.antt =====
-- The state of RtpReceiverPacketCache in src/rtp_rtcp/rtp_receiver.h.
use qo_srtp.Common.{ℕ, Bool, false, List, []}
use qo_srtp.RtpPacket.Defs.{RtpPacket}

pub record CachedRtpPacket : Type 0 where
  pub packet : RtpPacket
  pub packet_timeout_time_utc_ms : ℕ

pub record LossPacketSequenceNumber : Type 0 where
  pub seq : ℕ
  pub notified : Bool
  pub last_notify_time_utc_ms : ℕ

-- In both lists a smaller index is meant to have a "bigger" sequence number.
pub record PacketCache : Type 0 where
  pub cached_packets : List CachedRtpPacket
  pub loss_seqs : List LossPacketSequenceNumber
  pub max_cache_duration_ms : ℕ
  pub latest_callback_seq : ℕ
  pub has_callback_packet : Bool
  pub cumulative_packets_loss : ℕ
  pub extended_highest_seq : ℕ
  pub extended_first_seq : ℕ
  pub has_cached_packet : Bool

abbrev pub nack_interval_ms : ℕ
nack_interval_ms = 50

abbrev pub seq_of : CachedRtpPacket → ℕ
seq_of c = c.packet.sequence_number

abbrev pub new_loss : ℕ → LossPacketSequenceNumber
new_loss seq = record { seq = seq; notified = false; last_notify_time_utc_ms = 0 }

unfoldable pub new_cache : ℕ → PacketCache
new_cache max_cache_duration_ms = record {
  cached_packets = [];
  loss_seqs = [];
  max_cache_duration_ms = max_cache_duration_ms;
  latest_callback_seq = 0;
  has_callback_packet = false;
  cumulative_packets_loss = 0;
  extended_highest_seq = 0;
  extended_first_seq = 0;
  has_cached_packet = false;
}
