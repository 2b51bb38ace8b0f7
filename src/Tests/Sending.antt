-- ===== src/Tests/Sending.antt =====
-- src/rtp_rtcp/rtp_sender.cc and src/rtp_rtcp/rtp_packet.cc at concrete inputs.
use qo_srtp.Common.{ℕ, ◌≡◌, refl, true, false, Option, none, some, List, [], ◌∷◌, arith}
use qo_srtp.RtpPacket.Defs.{RtpPacket}
use qo_srtp.RtpPacket.Copy.{create_copy}
use qo_srtp.RtpPacket.Copied.{trimmed_packet, create_copy-trimmed}
use qo_srtp.Sender.Defs.{RtpSenderConfig, RtxContext, new_sender}
use qo_srtp.Sender.Cache.{put_all, put_all-last_of}
use qo_srtp.Sender.Stream.{InRow, send_all, send_all-InRow}
use qo_srtp.Sender.Repeat.{Repeats, construct_each-Repeats}
use qo_srtp.Tests.Packets.{payload, plain, stale, plain-IsPacket}
use qo_srtp.Tests.Receiving.{numbered}

create_copy-trimmed_example : create_copy stale plain ≡ some (trimmed_packet plain)
create_copy-trimmed_example =
    create_copy-trimmed stale plain plain-IsPacket (omega arith) (omega arith)

abbrev pub sender_config : RtpSenderConfig
sender_config = record {
  max_cache_seq_difference = 1;
  local_ssrc = 0;
  rtp_clock_rate_hz = 90000;
  rtp_payload_types = 0 ∷ 96 ∷ [];
  rtx_enabled = true;
  rtx_ssrc = 77;
  map_rtx_payload_type = (97, 96) ∷ (99, 0) ∷ [];
}

put_all-last_of_example :
    (put_all
      (numbered 65535 ∷ numbered 0 ∷ numbered 1 ∷ [])
      (record { cached_rtp_packets = []; max_difference = 1 })).cached_rtp_packets
    ≡ numbered 0 ∷ numbered 1 ∷ []
put_all-last_of_example =
    put_all-last_of 65535 1 (numbered 65535 ∷ numbered 0 ∷ numbered 1 ∷ []) (omega arith)
      (omega arith) (refl, (refl, (refl, tt)))

abbrev with_payload : ℕ → RtpPacket
with_payload n = record (numbered n) { payload_buffer = some payload }

-- The second packet does not follow the first, and is not sent.
abbrev calls : List (ℕ × Option RtpPacket)
calls =
    (10, some (with_payload 65535))
    ∷ (11, some (with_payload 1))
    ∷ (12, none)
    ∷ (13, some (with_payload 0))
    ∷ []

send_all-InRow_example : InRow (send_all stale sender_config calls new_sender).1
send_all-InRow_example =
    send_all-InRow stale sender_config calls new_sender
      (omega arith, (omega arith, (tt, (omega arith, tt)))) refl

abbrev pub fresh_context : RtxContext
fresh_context = record { last_rtx_seq = 0; has_sent_rtx = false }

construct_each-Repeats_example :
    Repeats stale 65535 sender_config (with_payload 1 ∷ with_payload 2 ∷ []) fresh_context
construct_each-Repeats_example =
    construct_each-Repeats stale 65535 sender_config (with_payload 1 ∷ with_payload 2 ∷ [])
      fresh_context (omega arith) (omega arith) ((payload, refl), ((payload, refl), tt))
