-- ===== src/Tests/Streams.antt =====
-- The RTX stream and `OnRtpPacket` of src/rtp_rtcp/rtp_receiver.cc at concrete inputs.
use qo_srtp.Common.{ℕ, ◌≡◌, refl, true, some, [], ◌∷◌, arith}
use qo_srtp.RtpPacket.Defs.{RtpPacket, payload_type}
use qo_srtp.RtpPacket.Store.{payload_bytes, buffer_length, extension_bytes}
use qo_srtp.Sender.Rtx.{construct_rtx, constructed, find_rtx_type, next_rtx_seq}
use qo_srtp.Receiver.Defs.{RtpReceiverConfig, RtpReceiver}
use qo_srtp.Receiver.Rtx.{reconstruct_rtp_from_rtx}
use qo_srtp.Receiver.Receive.{Clock, undefined, on_original}
use qo_srtp.Receiver.Deliver.{receive_all, receive_all-Follows}
use qo_srtp.Receiver.Statistics.{on_original_wraps}
use qo_srtp.ReceiverCache.Deliver.{Follows}
use qo_srtp.RtxStream.RoundTrip.{IsRepeatable, repeated, reconstruct-construct}
use qo_srtp.Tests.Packets.{payload, plain, stale, plain-IsPacket}
use qo_srtp.Tests.Receiving.{numbered, waiting, waiting-IsOrdered}
use qo_srtp.Tests.Sending.{sender_config, fresh_context}

abbrev receiver_config : RtpReceiverConfig
receiver_config = record {
  remote_ssrc = 0;
  rtp_clock_rate_hz = 90000;
  rtp_payload_types = 0 ∷ 96 ∷ [];
  max_cache_duration_ms = 500;
  rtx_enabled = true;
  rtx_max_cache_seq_difference = 100;
  rtx_ssrc = 77;
  map_rtx_payload_type = (97, 96) ∷ (99, 0) ∷ [];
}

plain-IsRepeatable : IsRepeatable plain payload
unfolding buffer_length extension_bytes payload_bytes
plain-IsRepeatable = record {
  fits = plain-IsPacket;
  octet = omega arith;
  seq = omega arith;
  few_csrcs = omega arith;
  has_payload = refl;
  not_empty = omega arith;
  room = omega arith;
}

plain_type : find_rtx_type (payload_type plain) ((97, 96) ∷ (99, 0) ∷ []) ≡ some 97
unfolding find_rtx_type payload_type
plain_type = refl

reconstruct-construct_example :
    (rtx : RtpPacket) × ((construct_rtx stale 65535 sender_config plain fresh_context).0
      ≡ constructed rtx)
    × (rtx.ssrc ≡ 77)
    × (rtx.sequence_number ≡ next_rtx_seq 65535 fresh_context)
    × (reconstruct_rtp_from_rtx stale receiver_config rtx ≡ some (repeated 0 plain payload))
reconstruct-construct_example =
    reconstruct-construct plain payload plain-IsRepeatable stale stale 65535 sender_config
      receiver_config fresh_context 97 plain_type (omega arith) (omega arith, (omega arith, tt))
      refl

-- A receiver whose cache waits for 65534 and 1, and that has received something.
abbrev receiver : RtpReceiver
receiver = record {
  config = receiver_config;
  packet_cache = waiting;
  has_received = true;
  rtp_receiver_statistics = record {
    remote_ssrc = 0;
    cumulative_loss = 0;
    extended_seq_num = 0;
    first_extended_seq_num = 0;
    interarrival_jitter = 0;
  };
  nb_received_expected = 5;
  nb_received_real = 2;
  interarrival_jitter_info = record {
    last_rtp_timestamp = 4294967000;
    last_rtp_utc_ms = 90;
    interarrival_jitter = 3;
  };
}

abbrev clock_at : ℕ → Clock
clock_at now = record { receive_time = now; put_time = now; nack_time = now; get_time = now }

abbrev stamped : ℕ → RtpPacket
stamped n = record (numbered n) { timestamp = 4294967000 }

receive_all-Follows_example :
    Follows 65533
      (receive_all stale
        ((stamped 65534, clock_at 100) ∷ (stamped 1, clock_at 101) ∷ [])
        receiver).1
receive_all-Follows_example =
    receive_all-Follows stale ((stamped 65534, clock_at 100) ∷ (stamped 1, clock_at 101) ∷ [])
      receiver
      (record { word = omega arith; bytes = tt }, (record { word = omega arith; bytes = tt }, tt))
      (record { called = refl; ordered = waiting-IsOrdered })

on_original_wraps_example : on_original (numbered 65534) (clock_at 100) receiver ≡ undefined
unfolding payload_type
on_original_wraps_example =
    on_original_wraps (numbered 65534) (clock_at 100) receiver refl refl refl (omega arith)
      (omega arith) (omega arith)
