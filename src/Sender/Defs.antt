-- ===== src/Sender/Defs.antt =====
-- The state of src/rtp_rtcp/rtp_sender.h and its start in src/rtp_rtcp/rtp_sender.cc.
use qo_srtp.Common.{ℕ, Bool, true, false, Option, none, some, List, [], ◌==◌, if◌then◌else◌}
use qo_srtp.RtpPacket.Defs.{RtpPacket}

-- `map_rtx_payload_type` is a `std::map`: pairs of an RTX payload type and the one it repeats, in
-- the order of the first.
pub record RtpSenderConfig : Type 0 where
  pub max_cache_seq_difference : ℕ
  pub local_ssrc : ℕ
  pub rtp_clock_rate_hz : ℕ
  pub rtp_payload_types : List ℕ
  pub rtx_enabled : Bool
  pub rtx_ssrc : ℕ
  pub map_rtx_payload_type : List (ℕ × ℕ)

pub record RtpSenderPacketCache : Type 0 where
  pub cached_rtp_packets : List RtpPacket
  pub max_difference : ℕ

pub record RtxContext : Type 0 where
  pub last_rtx_seq : ℕ
  pub has_sent_rtx : Bool

-- `config` and `cache` are `nullptr` before `Initialize`.
pub record RtpSender : Type 0 where
  pub rtx_context : RtxContext
  pub sender_config : Option RtpSenderConfig
  pub cache : Option RtpSenderPacketCache
  pub has_sent : Bool
  pub last_seq : ℕ
  pub utc_ms_first : ℕ
  pub rtp_timestamp_first : ℕ
  pub rtp_clock_rate : ℕ
  pub sender_packet_count : ℕ
  pub sender_octet_count : ℕ

abbrev pub new_sender : RtpSender
new_sender = record {
  rtx_context = record { last_rtx_seq = 0; has_sent_rtx = false };
  sender_config = none;
  cache = none;
  has_sent = false;
  last_seq = 0;
  utc_ms_first = 0;
  rtp_timestamp_first = 0;
  rtp_clock_rate = 0;
  sender_packet_count = 0;
  sender_octet_count = 0;
}

pub data Started : Type 0 where
  started null_parameter no_cache_for_rtx : Started

-- `has_callbacks` says that the callback and the transceiver are not `nullptr`.
unfoldable pub initialize : Bool → Option RtpSenderConfig → RtpSender → Started × RtpSender
initialize has_callbacks none self = (null_parameter, self)
initialize false (some config) self = (null_parameter, self)
initialize true (some config) self =
    let configured = record self { sender_config = some config } in
    if config.rtx_enabled
    then (if config.max_cache_seq_difference == 0 then (no_cache_for_rtx, configured) else (
      started,
      record configured {
        cache =
            some (record {
              cached_rtp_packets = [];
              max_difference = config.max_cache_seq_difference;
            });
      },
    ))
    else (started, configured)
