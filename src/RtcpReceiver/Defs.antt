-- ===== src/RtcpReceiver/Defs.antt =====
-- `RtcpReceiver` of src/rtp_rtcp/rtcp_receiver.cc. A time is an argument, and the calls of the
-- callback are a list of events. No other thread runs meanwhile.
use qo_srtp.Common.{
  ℕ, zero, suc, ◌+◌, ◌-◌, ◌*◌, ◌/◌, ◌%◌, bit_or, Bool, true, false, not, ◌&&◌, ◌||◌, Option, none,
  some, List, [], ◌∷◌, ◌++◌, ltb, ◌==◌, if◌then◌else◌, length, drop, u32,
}
use qo_srtp.Nack.Header.{CommonHeader, new_header, store_header, undefined, refused, accepted}
use qo_srtp.Nack.Packet.{store_nack, wrong_type, too_short, unread, stored}
use qo_srtp.Report.Defs.{store_report}
use qo_srtp.Report.SenderReport.{
  Outcome, failed, done, SenderReport, new_sender_report, store_sender_report,
}
use qo_srtp.Report.SenderReport
use qo_srtp.Sdes.Defs.{Chunk, store_sdes}
use qo_srtp.Bye.Defs.{store_bye}

pub record RtcpReceiver : Type 0 where
  pub remote_ssrc : ℕ
  pub has_received_bye : Bool
  pub has_received_sender_report : Bool
  pub ntp_last_sender_report : ℕ
  pub ms_receive_last_sr : ℕ

pub data Event : Type 0 where
  bye_received : Event
  nack_received : List ℕ → Event

-- The receiver, `type_flags` of the information, and the calls so far, while `Parse` runs.
pub record Parsing : Type 0 where
  pub receiver : RtcpReceiver
  pub type_flags : ℕ
  pub called : List Event

unfoldable pub parse_sender_report : ℕ → ℕ → CommonHeader → Parsing → Option Parsing
parse_sender_report stale now header s = elim (store_sender_report stale header new_sender_report) [
  | failed ↦ some s
  | SenderReport.undefined ↦ none
  | done report ↦
      let flags = bit_or s.type_flags 0x0002 in
      if not (s.receiver.remote_ssrc == report.sender_ssrc)
      then some s
      else some (record s {
        receiver = record s.receiver {
          has_received_sender_report = true;
          ntp_last_sender_report = report.ntp;
          ms_receive_last_sr = now;
        };
        type_flags = if length report.report_blocks == 0 then flags else bit_or flags 0x0001;
      })
]

unfoldable pub parse_receiver_report : ℕ → CommonHeader → Parsing → Parsing
parse_receiver_report stale header s = elim (store_report stale header) [
  | none ↦ s
  | some report ↦
      let flags = bit_or s.type_flags 0x0004 in
      if not (s.receiver.remote_ssrc == report.sender_ssrc) then s else record s {
        type_flags = if length report.report_blocks == 0 then flags else bit_or flags 0x0001;
      }
]

unfoldable pub describes : ℕ → List Chunk → Bool
describes remote_ssrc [] = false
describes remote_ssrc (c ∷ cs) = remote_ssrc == c.ssrc || describes remote_ssrc cs

unfoldable pub parse_sdes : CommonHeader → Parsing → Parsing
parse_sdes header s = elim (store_sdes header) [
  | none ↦ s
  | some sdes ↦
      if not (describes s.receiver.remote_ssrc sdes.chunks)
      then s
      else record s { type_flags = bit_or s.type_flags 0x0008 }
]

unfoldable pub parse_bye : CommonHeader → Parsing → Parsing
parse_bye header s = elim (store_bye header) [
  | none ↦ s
  | some bye ↦ if not (s.receiver.remote_ssrc == bye.sender_ssrc) then s else record {
    receiver = record s.receiver { has_received_bye = true };
    type_flags = bit_or s.type_flags 0x0010;
    called = s.called ++ (bye_received ∷ []);
  }
]

unfoldable pub parse_nacks : CommonHeader → Parsing → Option Parsing
parse_nacks header s = elim (store_nack header) [
  | wrong_type ↦ some s
  | too_short ↦ some s
  | unread ↦ none
  | stored nack ↦
      if not (s.receiver.remote_ssrc == nack.sender_ssrc)
      then some s
      else some (record s {
        type_flags = bit_or s.type_flags 0x0020;
        called = s.called ++ (nack_received nack.packet_ids ∷ []);
      })
]

-- The `switch`; `none` is undefined.
unfoldable pub dispatch : ℕ → ℕ → CommonHeader → Parsing → Option Parsing
dispatch stale now header s =
    if header.packet_type == 200
    then parse_sender_report stale now header s
    else if header.packet_type == 201
    then some (parse_receiver_report stale header s)
    else if header.packet_type == 202
    then some (parse_sdes header s)
    else if header.packet_type == 203
    then some (parse_bye header s)
    else if header.packet_type == 205 && header.count_or_format == 1
    then parse_nacks header s
    else some s

-- How the loop ends: with a read outside the buffer or through a null pointer, with a header that
-- is refused, with the last packet, or not within the rounds it was given.
pub data Parsed : Type 0 where
  outside : Parsed
  rejected parsed : Parsing → Parsed
  endless : Parsed

-- The loop of `Parse`. The header object is the one of the round before, and `next_packet` the
-- bytes from there on, of which the packet has `remain_length`. `NextPacket` counts from the
-- payload: without one that is a null pointer, which is no place in the buffer.
unfoldable pub parse : ℕ → ℕ → ℕ → CommonHeader → List ℕ → ℕ → Parsing → Parsed
parse zero stale now header next_packet remain_length s =
    if remain_length == 0 then parsed s else endless
parse (suc n) stale now header next_packet remain_length s =
    if remain_length == 0 then parsed s else elim (store_header next_packet remain_length header) [
      | undefined ↦ outside
      | refused error ↦ rejected s
      | accepted compound ↦ elim compound.payload [
        | none ↦ outside
        | some payload ↦
            let behind = compound.payload_size + compound.padding_size in
            elim (dispatch stale now compound s) [
              | none ↦ outside
              | some s' ↦
                  let rest =
                    parse n stale now compound (drop behind payload) (remain_length - (4 + behind))
                      s' in
                  if ltb remain_length (4 + behind) then outside else rest
            ]
      ]
    ]

-- `buffer` holds what was allocated, and `size` bytes of it are the packet. A round takes at least
-- four of them.
unfoldable pub on_rtcp_packet : ℕ → ℕ → List ℕ → ℕ → RtcpReceiver → Parsed
on_rtcp_packet stale now buffer size self =
    let start : Parsing = record { receiver = self; type_flags = 0; called = [] } in
    if self.has_received_bye
    then parsed start
    else parse size stale now new_header buffer size start

-- `lsr` and `dlsr`.
unfoldable pub get_sr_info : ℕ → RtcpReceiver → ℕ × ℕ
get_sr_info now self =
    if self.has_received_sender_report
    then (
      self.ntp_last_sender_report * 65536 % 18446744073709551616 / 4294967296,
      u32 (
          (now + 18446744073709551616 - self.ms_receive_last_sr)
          % 18446744073709551616
          * 65536
          % 18446744073709551616
          / 1000),
    )
    else (0, 0)
