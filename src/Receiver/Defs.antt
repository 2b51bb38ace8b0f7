-- ===== src/Receiver/Defs.antt =====
-- The state of RtpReceiver in src/rtp_rtcp/rtp_receiver.h and its start in
-- src/rtp_rtcp/rtp_receiver.cc.
use qo_srtp.Common.{ℕ, Bool, false, not, ◌&&◌, ◌||◌, Option, none, some, List, ◌==◌, if◌then◌else◌}
use qo_srtp.ReceiverCache.Defs.{PacketCache, new_cache}

-- `map_rtx_payload_type` is a `std::map` from RTX payload types to those they repeat.
pub record RtpReceiverConfig : Type 0 where
  pub remote_ssrc : ℕ
  pub rtp_clock_rate_hz : ℕ
  pub rtp_payload_types : List ℕ
  pub max_cache_duration_ms : ℕ
  pub rtx_enabled : Bool
  pub rtx_max_cache_seq_difference : ℕ
  pub rtx_ssrc : ℕ
  pub map_rtx_payload_type : List (ℕ × ℕ)

pub record RtpReceiverStatistics : Type 0 where
  pub remote_ssrc : ℕ
  pub cumulative_loss : ℕ
  pub extended_seq_num : ℕ
  pub first_extended_seq_num : ℕ
  pub interarrival_jitter : ℕ

pub record InterarrivalJitterInfo : Type 0 where
  pub last_rtp_timestamp : ℕ
  pub last_rtp_utc_ms : ℕ
  pub interarrival_jitter : ℕ

-- `Initialize` sets the configuration and makes the cache and the statistics. The two counters are
-- `int32_t`s, kept by the 32 bits they hold.
pub record RtpReceiver : Type 0 where
  pub config : RtpReceiverConfig
  pub packet_cache : PacketCache
  pub has_received : Bool
  pub rtp_receiver_statistics : RtpReceiverStatistics
  pub nb_received_expected : ℕ
  pub nb_received_real : ℕ
  pub interarrival_jitter_info : InterarrivalJitterInfo

-- `none` is an error; `has_callback` says that the callback is not `nullptr`.
unfoldable pub initialize : Bool → Option RtpReceiverConfig → Option RtpReceiver
initialize has_callback none = none
initialize has_callback (some config) =
    if not has_callback || (config.rtx_enabled && (config.rtx_max_cache_seq_difference == 0))
    then none
    else some (record {
      config = config;
      packet_cache = new_cache config.max_cache_duration_ms;
      has_received = false;
      rtp_receiver_statistics = record {
        remote_ssrc = config.remote_ssrc;
        cumulative_loss = 0;
        extended_seq_num = 0;
        first_extended_seq_num = 0;
        interarrival_jitter = 0;
      };
      nb_received_expected = 0;
      nb_received_real = 0;
      interarrival_jitter_info = record {
        last_rtp_timestamp = 0;
        last_rtp_utc_ms = 0;
        interarrival_jitter = 0;
      };
    })

unfoldable pub is_expected_remote_ssrc : RtpReceiverConfig → ℕ → Bool
is_expected_remote_ssrc config ssrc =
    (ssrc == config.remote_ssrc) || (config.rtx_enabled && (ssrc == config.rtx_ssrc))
