-- ===== src/Sender/Send.antt =====
-- `SendRtp`, `SendRtx` and `GetStatisticInfo` of src/rtp_rtcp/rtp_sender.cc. `Initialize` has run,
-- so there is a configuration.
use qo_srtp.Common.{
  ℕ, ◌+◌, Bool, true, false, not, ◌&&◌, ◌||◌, Option, none, some, List, [], ◌∷◌, ◌==◌,
  if◌then◌else◌, u32,
}
use qo_srtp.RtpPacket.Defs.{RtpPacket, payload_type, is_some}
use qo_srtp.RtpPacket.Store.{payload_bytes}
use qo_srtp.RtpPacket.Copy.{create_copy}
use qo_srtp.Sender.Defs.{RtpSenderConfig, RtpSenderPacketCache, RtxContext, RtpSender}
use qo_srtp.Sender.Cache.{put_packet, get_packets}
use qo_srtp.Sender.Rtx.{undefined, no_packet, constructed, construct_rtx, find_rtx_type}

abbrev pub contains : ℕ → List ℕ → Bool
contains key [] = false
contains key (k ∷ ks) = (k == key) || contains key ks

-- The number that has to follow `last_seq_`.
unfoldable pub expected_seq : ℕ → ℕ
expected_seq last_seq = if last_seq == 65535 then 0 else last_seq + 1

-- The tests that make `SendRtp` give up.
unfoldable pub may_send : RtpSenderConfig → RtpPacket → RtpSender → Bool
may_send config packet self =
    (config.local_ssrc == packet.ssrc)
    && contains (payload_type packet) config.rtp_payload_types
    && not (self.has_sent && not (packet.sequence_number == expected_seq self.last_seq))

-- A copy goes into the cache if the stream is repeated and the payload type has an RTX type. A copy
-- is never `nullptr` (`create_copy-some`), and there is a cache if RTX is enabled.
unfoldable pub remember :
    (ℕ → ℕ)
    → RtpSenderConfig
    → RtpPacket
    → Option RtpSenderPacketCache
    → Option RtpSenderPacketCache
remember memory config packet none = none
remember memory config packet (some cache) =
    if config.rtx_enabled
      && is_some (find_rtx_type (payload_type packet) config.map_rtx_payload_type)
    then elim (create_copy memory packet) [
      | none ↦ some cache
      | some copied ↦ some (put_packet copied cache)
    ]
    else some cache

unfoldable pub count : RtpSenderConfig → ℕ → RtpPacket → RtpSender → RtpSender
count config utc_ms_now packet self = record self {
  utc_ms_first = if self.has_sent then self.utc_ms_first else u32 utc_ms_now;
  rtp_timestamp_first = if self.has_sent then self.rtp_timestamp_first else packet.timestamp;
  rtp_clock_rate = if self.has_sent then self.rtp_clock_rate else config.rtp_clock_rate_hz;
  sender_packet_count = u32 (self.sender_packet_count + 1);
  sender_octet_count = u32 (self.sender_octet_count + payload_bytes packet.payload_buffer);
  last_seq = packet.sequence_number;
  has_sent = true;
}

-- The new state, and what the transceiver is given. `none` for a packet is `nullptr`.
unfoldable pub send_rtp :
    (ℕ → ℕ) → RtpSenderConfig → ℕ → Option RtpPacket → RtpSender → RtpSender × List RtpPacket
send_rtp memory config utc_ms_now none self = (self, [])
send_rtp memory config utc_ms_now (some packet) self =
    if may_send config packet self
    then (
      count config utc_ms_now packet
          (record self { cache = remember memory config packet self.cache }),
      packet ∷ [],
    )
    else (self, [])

-- The loop of `SendRtx` over the packets that the cache gave. `none` is undefined behaviour: a
-- packet without a payload, or no packet.
unfoldable pub construct_each :
    (ℕ → ℕ)
    → ℕ
    → RtpSenderConfig
    → List (Option RtpPacket)
    → RtxContext
    → Option (RtxContext × List RtpPacket)
construct_each memory random config [] context = some (context, [])
construct_each memory random config (none ∷ packets) context = none
construct_each memory random config (some packet ∷ packets) context =
    let (outcome, context') = construct_rtx memory random config packet context in
    let rest = construct_each memory random config packets context' in
    elim outcome [
      | undefined ↦ none
      | no_packet ↦ rest
      | constructed rtx ↦ elim rest [ none ↦ none | some (end, sent) ↦ some (end, rtx ∷ sent) ]
    ]

unfoldable pub repeat_all :
    (ℕ → ℕ)
    → ℕ
    → RtpSenderConfig
    → List (Option RtpPacket)
    → RtpSender
    → Option (RtpSender × List RtpPacket)
repeat_all memory random config packets self =
    elim (construct_each memory random config packets self.rtx_context) [
      | none ↦ none
      | some (context, sent) ↦ some (record self { rtx_context = context }, sent)
    ]

unfoldable pub send_rtx :
    (ℕ → ℕ) → ℕ → RtpSenderConfig → List ℕ → RtpSender → Option (RtpSender × List RtpPacket)
send_rtx memory random config packet_seqs self =
    if not config.rtx_enabled then some (self, []) else elim self.cache [
      | none ↦ some (self, [])
      | some cache ↦ repeat_all memory random config (get_packets memory packet_seqs cache) self
    ]

-- The packet and octet counts that `GetStatisticInfo` answers with, if it does.
unfoldable pub get_statistic_info : RtpSender → Option (ℕ × ℕ)
get_statistic_info self =
    if not self.has_sent then none else some (self.sender_packet_count, self.sender_octet_count)
