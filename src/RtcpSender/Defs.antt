-- ===== src/RtcpSender/Defs.antt =====
-- `RtcpSender` of src/rtp_rtcp/rtcp_sender.cc. What the callback answers, and the time, are
-- arguments; the packets that are handed to the transceiver, and the delay of the task that is
-- pushed, are results.
use qo_srtp.Common.{
  ℕ, ◌+◌, ◌-◌, ◌*◌, ◌/◌, Bool, true, false, not, ◌&&◌, ◌||◌, Option, none, some, List, [], ◌∷◌, map,
  ltb, leb, ◌==◌, if◌then◌else◌, u8, u32, sub32,
}
use qo_srtp.Report.Defs.{ReportBlock, set_cumulative_lost, ReceiverReport}
use qo_srtp.Report.SenderReport.{SenderReport}
use qo_srtp.Sdes.Defs.{Sdes, new_sdes, add_cname}
use qo_srtp.Bye.Defs.{Bye}
use qo_srtp.Nack.Defs.{Nack, set_packet_ids, new_nack}

pub data MediaTransmissionDirection : Type 0 where
  send_recv send_only recv_only : MediaTransmissionDirection

pub record RemoteSenderInfo : Type 0 where
  pub remote_ssrc : ℕ
  pub cumulative_loss : ℕ
  pub extended_seq_num : ℕ
  pub first_extended_seq_num : ℕ
  pub interarrival_jitter : ℕ
  pub lsr : ℕ
  pub dlsr : ℕ

abbrev pub no_remote_sender : RemoteSenderInfo
no_remote_sender = record {
  remote_ssrc = 0;
  cumulative_loss = 0;
  extended_seq_num = 0;
  first_extended_seq_num = 0;
  interarrival_jitter = 0;
  lsr = 0;
  dlsr = 0;
}

pub record LocalSenderInfo : Type 0 where
  pub ntp_now : ℕ
  pub rtp_timestamp_now : ℕ
  pub sender_packet_count : ℕ
  pub sender_octet_count : ℕ

-- The answers of `RtcpSenderCallback`.
pub record Answers : Type 0 where
  pub has_sent : Bool
  pub has_received : Bool
  pub has_heard_bye : Bool
  pub remote_sender : RemoteSenderInfo
  pub local_sender : LocalSenderInfo

pub record RtcpSenderConfig : Type 0 where
  pub local_ssrc : ℕ
  pub remote_ssrc : ℕ
  pub local_cname : List ℕ
  pub rtcp_report_interval_ms : ℕ
  pub direction : MediaTransmissionDirection

pub record RtcpSender : Type 0 where
  pub config : RtcpSenderConfig
  pub last_report : RemoteSenderInfo
  pub utc_ms_next_send : ℕ
  pub has_sent_rtp : Bool
  pub has_sent_bye : Bool
  pub has_sent_rtcp : Bool
  pub has_received_rtp : Bool

-- With the delay of the task for `ScheduleSendRtcp`.
unfoldable pub initialize : ℕ → RtcpSenderConfig → RtcpSender × ℕ
initialize now config = (
  record {
    config = config;
    last_report = no_remote_sender;
    utc_ms_next_send = now + config.rtcp_report_interval_ms / 2;
    has_sent_rtp = false;
    has_sent_bye = false;
    has_sent_rtcp = false;
    has_received_rtp = false;
  },
  config.rtcp_report_interval_ms / 2,
)

-- The packets, by their class.
pub data RtcpPacket : Type 0 where
  sender_report : SenderReport → RtcpPacket
  receiver_report : ReceiverReport → RtcpPacket
  source_description : Sdes → RtcpPacket
  goodbye : Bye → RtcpPacket
  negative_acknowledgement : Nack → RtcpPacket

-- `SendRtcpInfo`, with the null pointer.
pub data SendRtcpInfo : Type 0 where
  only_report send_bye : SendRtcpInfo
  send_nack : List ℕ → SendRtcpInfo

unfoldable pub is_recv_only : MediaTransmissionDirection → Bool
is_recv_only send_recv = false
is_recv_only send_only = false
is_recv_only recv_only = true

unfoldable pub is_send_only : MediaTransmissionDirection → Bool
is_send_only send_recv = false
is_send_only send_only = true
is_send_only recv_only = false

-- The losses, an `int32_t` kept by its 32 bits, and the packets expected since the last report.
unfoldable pub since_last_report : RemoteSenderInfo → RtcpSender → ℕ × ℕ
since_last_report info self =
    if self.has_sent_rtcp
    then (
      sub32 info.cumulative_loss self.last_report.cumulative_loss,
      sub32 info.extended_seq_num self.last_report.extended_seq_num,
    )
    else (u32 info.cumulative_loss, sub32 info.extended_seq_num info.first_extended_seq_num)

-- The shift is one of an `int32_t`, the division one of a `uint32_t`.
unfoldable pub fraction_of : ℕ → ℕ → ℕ
fraction_of loss expected =
    if expected == 0 || (loss == 0 || leb 2147483648 loss)
    then 0
    else u8 (u32 (loss * 256) / expected)

-- An error of `SetCumulativeLost` is not looked at: the field of the new block stays 0.
unfoldable pub make_report_block : RemoteSenderInfo → RtcpSender → ReportBlock
make_report_block info self =
    let (loss, expected) = since_last_report info self in
    let blank : ReportBlock = record {
      source_ssrc = info.remote_ssrc;
      fraction_lost = fraction_of loss expected;
      cumulative_lost = 0;
      extended_high_seq_num = info.extended_seq_num;
      jitter = info.interarrival_jitter;
      last_sr = info.lsr;
      delay_since_last_sr = info.dlsr;
    } in
    elim (set_cumulative_lost info.cumulative_loss blank) [ none ↦ blank | some block ↦ block ]

-- The report in front: of a sender or of a receiver. `SetReportBlocks` takes the one block.
unfoldable pub make_report : List ReportBlock → LocalSenderInfo → RtcpSender → RtcpPacket
make_report blocks local self =
    if self.has_sent_rtp
    then sender_report (record {
      sender_ssrc = self.config.local_ssrc;
      ntp = local.ntp_now;
      rtp_timestamp = local.rtp_timestamp_now;
      sender_packet_count = local.sender_packet_count;
      sender_octet_count = local.sender_octet_count;
      report_blocks = map some blocks;
    })
    else receiver_report (record { sender_ssrc = self.config.local_ssrc; report_blocks = blocks })

-- An error of `AddCName` is not looked at: then there is no chunk.
unfoldable pub make_sdes : RtcpSenderConfig → Sdes
make_sdes config = elim (add_cname config.local_ssrc config.local_cname new_sdes) [
  | none ↦ new_sdes
  | some sdes ↦ sdes
]

unfoldable pub extra_packets : RtcpSenderConfig → SendRtcpInfo → List RtcpPacket
extra_packets config only_report = []
extra_packets config send_bye =
    goodbye (record { sender_ssrc = config.local_ssrc; csrcs = []; reason = [] }) ∷ []
extra_packets config (send_nack seqs) =
    negative_acknowledgement (
      set_packet_ids seqs
        (record new_nack { sender_ssrc = config.local_ssrc; media_ssrc = config.remote_ssrc }))
    ∷ []

-- The callback is asked until it said yes once.
unfoldable pub ask : Answers → RtcpSender → RtcpSender
ask answers self = record self {
  has_sent_rtp =
      if not (is_recv_only self.config.direction) && not self.has_sent_rtp
      then answers.has_sent
      else self.has_sent_rtp;
  has_received_rtp =
      if not (is_send_only self.config.direction) && not self.has_received_rtp
      then answers.has_received
      else self.has_received_rtp;
}

unfoldable pub send_rtcp : Answers → SendRtcpInfo → RtcpSender → RtcpSender × List RtcpPacket
send_rtcp answers info self =
    let asked = ask answers self in
    let blocks =
      if asked.has_received_rtp then make_report_block answers.remote_sender asked ∷ [] else [] in
    (
      record asked {
        last_report = if asked.has_received_rtp then answers.remote_sender else asked.last_report;
        has_sent_rtcp = true;
      },
      make_report blocks answers.local_sender asked
          ∷ source_description (make_sdes self.config)
          ∷ extra_packets self.config info,
    )

unfoldable pub say_goodbye : Answers → RtcpSender → RtcpSender × List RtcpPacket
say_goodbye answers self =
    let (sent, packets) = send_rtcp answers send_bye self in
    (record sent { has_sent_bye = true }, packets)

-- `SendNack`. `none` is a return before anything is sent.
unfoldable pub ask_again : ℕ → Answers → List ℕ → RtcpSender → RtcpSender × Option (List RtcpPacket)
ask_again now answers [] self = (self, none)
ask_again now answers (q ∷ qs) self =
    let (sent, packets) = send_rtcp answers (send_nack (q ∷ qs)) self in
    if self.has_sent_bye || answers.has_heard_bye then (self, none) else (
      record sent { utc_ms_next_send = now + self.config.rtcp_report_interval_ms },
      some packets,
    )

-- `ScheduleSendRtcp`: with the packets, if some are sent, and the delay of the next task, if one
-- is pushed.
unfoldable pub schedule_send_rtcp :
    ℕ → Answers → RtcpSender → RtcpSender × Option (List RtcpPacket) × Option ℕ
schedule_send_rtcp now answers self =
    let (sent, packets) = send_rtcp answers only_report self in
    if self.has_sent_bye || answers.has_heard_bye
    then (self, none, none)
    else if ltb now self.utc_ms_next_send
    then (self, none, some (self.utc_ms_next_send - now))
    else (
      record sent { utc_ms_next_send = now + self.config.rtcp_report_interval_ms },
      some packets,
      some self.config.rtcp_report_interval_ms,
    )
