-- ===== src/RtcpSender/Compound.antt =====
-- `SendRtcp` of src/rtp_rtcp/rtp_rtcp_tranceiver_impl.cc: the packets go into one buffer.
use qo_srtp.Common.{ℕ, ◌+◌, not, Option, none, some, List, [], ◌∷◌, ◌==◌, if◌then◌else◌, u32}
use qo_srtp.Nack.Packet.{block_length, Loaded, loaded, no_items, no_space, load_nack}
use qo_srtp.Report.Defs.{report_length, load_report}
use qo_srtp.Report.SenderReport.{
  Outcome, failed, undefined, done, sender_report_length, load_sender_report,
}
use qo_srtp.Sdes.Defs.{sdes_length, load_sdes}
use qo_srtp.Bye.Defs.{bye_length, load_bye}
use qo_srtp.RtcpSender.Defs.{
  RtcpPacket, sender_report, receiver_report, source_description, goodbye, negative_acknowledgement,
}

-- The virtual `BlockLength` and `LoadPacket`.
unfoldable pub packet_length : RtcpPacket → ℕ
packet_length (sender_report p) = sender_report_length p
packet_length (receiver_report p) = report_length p
packet_length (source_description p) = sdes_length p
packet_length (goodbye p) = bye_length p
packet_length (negative_acknowledgement p) = block_length p

unfoldable pub of_option {ℓ} : {A : Type ℓ} → Option A → Outcome A
of_option none = failed
of_option (some a) = done a

unfoldable pub of_loaded : Loaded × List ℕ × ℕ → Outcome (List ℕ × ℕ)
of_loaded (loaded, packet, pos) = done (packet, pos)
of_loaded (no_items, packet, pos) = failed
of_loaded (no_space, packet, pos) = failed

unfoldable pub load_packet : RtcpPacket → List ℕ → ℕ → ℕ → Outcome (List ℕ × ℕ)
load_packet (sender_report p) packet pos max_length = load_sender_report p packet pos max_length
load_packet (receiver_report p) packet pos max_length =
    of_option (load_report p packet pos max_length)
load_packet (source_description p) packet pos max_length =
    of_option (load_sdes p packet pos max_length)
load_packet (goodbye p) packet pos max_length = of_option (load_bye p packet pos max_length)
load_packet (negative_acknowledgement p) packet pos max_length =
    of_loaded (load_nack p packet pos max_length)

unfoldable pub total_length : ℕ → List RtcpPacket → ℕ
total_length sum [] = sum
total_length sum (p ∷ ps) = total_length (u32 (sum + packet_length p)) ps

-- The loop over the packets.
unfoldable pub load_all : List RtcpPacket → List ℕ → ℕ → ℕ → Outcome (List ℕ × ℕ)
load_all [] packet pos max_length = done (packet, pos)
load_all (p ∷ ps) packet pos max_length = elim (load_packet p packet pos max_length) [
  | failed ↦ failed
  | undefined ↦ undefined
  | done (written, end) ↦ load_all ps written end max_length
]

-- What is handed to the network; `failed` is a return before that. `memory` is what a new buffer
-- of some length holds.
unfoldable pub send_compound : (ℕ → List ℕ) → List RtcpPacket → Outcome (List ℕ)
send_compound memory packets =
    let size = total_length 0 packets in
    if size == 0 then failed else elim (load_all packets (memory size) 0 size) [
      | failed ↦ failed
      | undefined ↦ undefined
      | done (written, end) ↦ if not (end == size) then failed else done written
    ]
