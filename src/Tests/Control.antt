-- ===== src/Tests/Control.antt =====
-- src/rtp_rtcp/bye.cc, sdes.cc, sender_report.cc, rtcp_sender.cc and rtcp_receiver.cc of the same
-- directory at concrete inputs.
use qo_srtp.Common.{
  ℕ, ◌+◌, ◌≡◌, refl, true, false, some, List, [], ◌∷◌, ◌++◌, map, arith, length, drop, replicate,
  length-replicate,
}
use qo_srtp.Seq.{is_seq_after, is_seq_after_in_range}
use qo_srtp.Nack.Header.{CommonHeader, new_header, store_header, header_bytes, accepted}
use qo_srtp.Nack.Defs.{pack, pack_from, shift_of}
use qo_srtp.Nack.Packing.{AreIncreasing}
use qo_srtp.Report.Defs.{ReportBlock}
use qo_srtp.Report.SenderReport.{
  done, undefined, SenderReport, load_sender_report, store_sender_report, new_sender_report,
}
use qo_srtp.Report.SenderRoundTrip.{store_sender_report-load_sender_report}
use qo_srtp.Sdes.Defs.{Sdes, load_sdes, store_sdes}
use qo_srtp.Sdes.Chunks.{sizes}
use qo_srtp.Sdes.RoundTrip.{store_sdes-load_sdes}
use qo_srtp.Bye.Defs.{Bye, load_bye, store_bye, reason_words}
use qo_srtp.Bye.RoundTrip.{store_bye-load_bye}
use qo_srtp.RtcpReceiver.Defs.{
  RtcpReceiver, nack_received, bye_received, outside, parsed, on_rtcp_packet,
}
use qo_srtp.RtcpReceiver.Ends.{ends, ends-on_rtcp_packet, on_rtcp_packet_empty}
use qo_srtp.RtcpSender.Defs.{
  send_recv, RemoteSenderInfo, Answers, RtcpSenderConfig, RtcpSender, initialize, RtcpPacket,
  source_description, only_report, is_send_only, is_recv_only, fraction_of, make_report, make_sdes,
  extra_packets, ask, send_rtcp, say_goodbye, ask_again,
}
use qo_srtp.RtcpSender.Compound.{send_compound}
use qo_srtp.RtcpSender.Heard.{IsConfig, IsRemote}
use qo_srtp.RtcpSender.Exchange.{on_rtcp_packet-ask_again, on_rtcp_packet-say_goodbye}
use qo_srtp.RtcpSender.Fraction.{first_fraction}
use qo_srtp.Tests.Reports.{lossy}

-- The reason ends within a word.
abbrev leaving : Bye
leaving = record { sender_ssrc = 7; csrcs = 8 ∷ 9 ∷ []; reason = 98 ∷ 121 ∷ 101 ∷ 33 ∷ [] }

store_bye-load_bye_example :
    (packet : List ℕ) × (load_bye leaving (1 ∷ replicate 40 5) 1 41 ≡ some (packet, 1 + 24))
    × (parsed : CommonHeader) × (store_header (drop 1 packet) 40 new_header ≡ accepted parsed)
    × (store_bye parsed ≡ some leaving)
unfolding reason_words
store_bye-load_bye_example =
    store_bye-load_bye leaving
      (record {
        sender = omega arith;
        sources = (omega arith, (omega arith, tt));
        few_sources = omega arith;
        short_reason = omega arith;
      })
      (1 ∷ []) (replicate 40 5) 41 40 new_header (omega arith) (omega arith) (omega arith)

-- Two names, one of which fills its words.
abbrev names : Sdes
names = record {
  chunks = record { ssrc = 7; cname = 97 ∷ 98 ∷ [] } ∷ record { ssrc = 8; cname = 97 ∷ [] } ∷ [];
  chunks_buffer_length = 20;
}

store_sdes-load_sdes_example :
    (packet : List ℕ) × (load_sdes names (1 ∷ replicate 40 5) 1 41 ≡ some (packet, 1 + 24))
    × (parsed : CommonHeader) × (store_header (drop 1 packet) 40 new_header ≡ accepted parsed)
    × (store_sdes parsed ≡ some names)
unfolding sizes
store_sdes-load_sdes_example =
    store_sdes-load_sdes names
      (record {
        few = omega arith;
        good = (
          record { source = omega arith; short_name = omega arith },
          (record { source = omega arith; short_name = omega arith }, tt),
        );
        summed = refl;
      })
      (1 ∷ []) (replicate 40 5) 41 40 new_header (omega arith) (omega arith) (omega arith)

abbrev status : SenderReport
status = record {
  sender_ssrc = 7;
  ntp = 1311768467294899695;
  rtp_timestamp = 90000;
  sender_packet_count = 10;
  sender_octet_count = 1000;
  report_blocks = [];
}

store_sender_report-load_sender_report_example :
    let self : SenderReport = record status { report_blocks = map some (lossy ∷ []) } in
    (packet : List ℕ) × (load_sender_report self (1 ∷ replicate 60 0) 1 61 ≡ done (packet, 1 + 52))
    × (parsed : CommonHeader) × (store_header (drop 1 packet) 60 new_header ≡ accepted parsed)
    × (store_sender_report 0 parsed new_sender_report ≡ undefined)
store_sender_report-load_sender_report_example =
    store_sender_report-load_sender_report status (lossy ∷ []) (1 ∷ []) (replicate 60 0) 61 60 0
      new_header (omega arith)
      (record {
        sender = omega arith;
        time = omega arith;
        timestamp = omega arith;
        packets = omega arith;
        octets = omega arith;
      })
      (omega arith) (omega arith) (omega arith)

abbrev peer : RtcpReceiver
peer = record {
  remote_ssrc = 7;
  has_received_bye = false;
  has_received_sender_report = false;
  ntp_last_sender_report = 0;
  ms_receive_last_sr = 0;
}

ends-on_rtcp_packet_example : ends (on_rtcp_packet 0 5 (128 ∷ 203 ∷ 0 ∷ 1 ∷ []) 4 peer) ≡ true
ends-on_rtcp_packet_example = ends-on_rtcp_packet 0 5 (128 ∷ 203 ∷ 0 ∷ 1 ∷ []) 4 peer

-- An SDES without chunks.
on_rtcp_packet_empty_example :
    on_rtcp_packet 0 5 (header_bytes 0 202 0 ++ (1 ∷ [])) 5 peer ≡ outside
on_rtcp_packet_empty_example =
    on_rtcp_packet_empty 0 5 0 202 5 (1 ∷ []) peer refl (omega arith) (omega arith)

abbrev settings : RtcpSenderConfig
settings = record {
  local_ssrc = 7;
  remote_ssrc = 8;
  local_cname = 97 ∷ [];
  rtcp_report_interval_ms = 1000;
  direction = send_recv;
}

settings-IsConfig : IsConfig settings
settings-IsConfig = record { local = omega arith; remote = omega arith; short_name = omega arith }

-- 10 of 101 packets are lost.
abbrev stream : RemoteSenderInfo
stream = record {
  remote_ssrc = 8;
  cumulative_loss = 10;
  extended_seq_num = 40100;
  first_extended_seq_num = 40000;
  interarrival_jitter = 0;
  lsr = 0;
  dlsr = 0;
}

stream-IsRemote : IsRemote stream
stream-IsRemote = record {
  source = omega arith;
  loss = omega arith;
  high = omega arith;
  stutter = omega arith;
  last = omega arith;
  delay = omega arith;
}

abbrev listening : Answers
listening = record {
  has_sent = false;
  has_received = true;
  has_heard_bye = false;
  remote_sender = stream;
  local_sender = record {
    ntp_now = 0;
    rtp_timestamp_now = 0;
    sender_packet_count = 0;
    sender_octet_count = 0;
  };
}

abbrev waiting : Answers
waiting = record listening { has_received = false }

abbrev begun : RtcpSender
begun = record {
  config = settings;
  last_report = stream;
  utc_ms_next_send = 500;
  has_sent_rtp = false;
  has_sent_bye = false;
  has_sent_rtcp = false;
  has_received_rtp = false;
}

abbrev missing : List ℕ
missing = 65530 ∷ 65533 ∷ 1 ∷ []

missing-AreIncreasing : AreIncreasing missing
unfolding is_seq_after is_seq_after_in_range
missing-AreIncreasing = (omega arith, ((omega arith, refl, ((omega arith, refl, tt)))))

on_rtcp_packet-ask_again_example :
    (packets : List RtcpPacket) × ((ask_again 5 listening missing begun).1 ≡ some packets)
    × (buffer : List ℕ) × (send_compound (λ n. replicate n 0) packets ≡ done buffer)
    × (on_rtcp_packet 0 5 buffer (length buffer) peer
        ≡ parsed
            (record { receiver = peer; type_flags = 0x002d; called = nack_received missing ∷ [] }))
unfolding ask is_recv_only is_send_only pack pack_from shift_of
on_rtcp_packet-ask_again_example =
    on_rtcp_packet-ask_again begun listening peer (λ n. replicate n 0) 0 5 settings-IsConfig
      stream-IsRemote refl refl refl (λ n. length-replicate n 0) 5 65530 (65533 ∷ 1 ∷ []) refl refl
      missing-AreIncreasing (omega arith) (omega arith)

on_rtcp_packet-say_goodbye_example :
    let deaf : RtcpReceiver = record peer { has_received_bye = true } in
    (buffer : List ℕ) × (send_compound (λ n. replicate n 0) (say_goodbye waiting begun).1
      ≡ done buffer)
    × (on_rtcp_packet 0 5 buffer (length buffer) peer
        ≡ parsed (record { receiver = deaf; type_flags = 0x001c; called = bye_received ∷ [] }))
    × (on_rtcp_packet 0 5 (1 ∷ 2 ∷ []) 2 deaf
        ≡ parsed (record { receiver = deaf; type_flags = 0; called = [] }))
unfolding ask is_recv_only is_send_only
on_rtcp_packet-say_goodbye_example =
    on_rtcp_packet-say_goodbye begun waiting peer (λ n. replicate n 0) 0 5 settings-IsConfig
      stream-IsRemote refl refl refl (λ n. length-replicate n 0) (1 ∷ 2 ∷ []) 2

-- Of the first block, and the same numbers counted from the first packet received.
fractions : (fraction_of 10 40100 ≡ 0) × (fraction_of 10 100 ≡ 25)
unfolding fraction_of
fractions = (refl, refl)

first_fraction_example :
    let self = (send_rtcp waiting only_report (initialize 0 settings).0).0 in
    (block : ReportBlock) × ((send_rtcp listening only_report self).1
      ≡ make_report (block ∷ []) listening.local_sender (ask listening self)
        ∷ source_description (make_sdes settings)
        ∷ extra_packets settings only_report)
    × (block.fraction_lost ≡ fraction_of 10 40100)
unfolding is_send_only
first_fraction_example =
    first_fraction 0 settings waiting listening only_report only_report refl refl refl (omega arith)
      (omega arith)
