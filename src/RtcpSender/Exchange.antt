-- ===== src/RtcpSender/Exchange.antt =====
-- A NACK and a goodbye, from `SendNack` and `SendBye` of src/rtp_rtcp/rtcp_sender.cc to
-- `OnRtcpPacket` of src/rtp_rtcp/rtcp_receiver.cc.
use qo_srtp.Common.{
  ℕ, ◌+◌, ◌≤◌, ◌<◌, bit_or, ◌≡◌, refl, ap, ap₂, ◌∙◌, Bool, true, false, ◌||◌, Option, none, some,
  List, [], ◌∷◌, arith, ◌==◌, if◌then◌else◌, length, All,
}
use qo_srtp.Nack.Defs.{Nack, new_nack, set_packet_ids, pack, unpack}
use qo_srtp.Nack.Packing.{AreIncreasing, pack-IsItem, unpack-pack}
use qo_srtp.Nack.RoundTrip.{IsNack}
use qo_srtp.Report.Defs.{ReportBlock}
use qo_srtp.Report.RoundTrip.{IsBlock}
use qo_srtp.Report.SenderReport.{done}
use qo_srtp.Bye.Defs.{Bye}
use qo_srtp.Bye.Parts.{IsBye}
use qo_srtp.RtcpReceiver.Defs.{RtcpReceiver, nack_received, bye_received, parsed, on_rtcp_packet}
use qo_srtp.RtcpSender.Defs.{
  Answers, RtcpSender, RtcpPacket, receiver_report, source_description, goodbye,
  negative_acknowledgement, make_report_block, make_report, make_sdes, extra_packets, ask,
  send_rtcp, send_nack, say_goodbye, ask_again,
}
use qo_srtp.RtcpSender.Compound.{send_compound}
use qo_srtp.RtcpSender.Images.{bye_image, bye-IsWritten, nack_image, nack-IsWritten}
use qo_srtp.RtcpSender.Heard.{
  IsConfig, IsRemote, make_report_block-IsBlock, dispatch-bye, dispatch-nack,
}
use qo_srtp.RtcpSender.Conversation.{heard}

blocks_few :
    (received : Bool) (block : ReportBlock)
    → IsBlock block
    → let blocks = if received then block ∷ [] else [] in
      (length blocks ≤ 1)
      × (All IsBlock blocks)
      × (◌≡◌ {A = ℕ}
          (if length blocks == 0 then 0x000c else 0x000d)
          (if received then 0x000d else 0x000c))
blocks_few true block v = (omega arith, (v, tt), refl)
blocks_few false block v = (omega arith, tt, refl)

flags_nack :
    (b : Bool) → bit_or (if b then 0x000d else 0x000c) 0x0020 ≡ (if b then 0x002d else 0x002c)
flags_nack true = refl
flags_nack false = refl

flags_bye :
    (b : Bool) → bit_or (if b then 0x000d else 0x000c) 0x0010 ≡ (if b then 0x001d else 0x001c)
flags_bye true = refl
flags_bye false = refl

module _ (self : RtcpSender) (answers : Answers) (receiver : RtcpReceiver) (memory : ℕ → List ℕ)
    (stale now : ℕ) (c : IsConfig self.config) (r : IsRemote answers.remote_sender)
    (quiet : (ask answers self).has_sent_rtp ≡ false)
    (peer : receiver.remote_ssrc ≡ self.config.local_ssrc)
    (here : receiver.has_received_bye ≡ false) (allocated : (n : ℕ) → length (memory n) ≡ n) where
  abbrev received : Bool
  received = (ask answers self).has_received_rtp

  abbrev blocks : List ReportBlock
  blocks = if received then make_report_block answers.remote_sender (ask answers self) ∷ [] else []

  few_blocks :
      (length blocks ≤ 1)
      × (All IsBlock blocks)
      × (◌≡◌ {A = ℕ}
          (if length blocks == 0 then 0x000c else 0x000d)
          (if received then 0x000d else 0x000c))
  few_blocks =
      blocks_few received (make_report_block answers.remote_sender (ask answers self))
        (make_report_block-IsBlock answers.remote_sender (ask answers self) r)

  abbrev with_extra : RtcpPacket → List RtcpPacket
  with_extra extra =
      receiver_report (record { sender_ssrc = self.config.local_ssrc; report_blocks = blocks })
      ∷ source_description (make_sdes self.config)
      ∷ extra
      ∷ []

  report_sent :
      make_report blocks answers.local_sender (ask answers self)
      ≡ receiver_report (record { sender_ssrc = self.config.local_ssrc; report_blocks = blocks })
  unfolding make_report ask
  report_sent = rw (make_report, quiet) refl

  -- Before this side has sent RTP: a NACK with numbers that "increase" with the index, few enough
  -- for a packet, is sent unless one side said goodbye. The peer, whose configuration and state
  -- fit, calls its callback once, with exactly these numbers, and nothing else of it changes.
  pub on_rtcp_packet-ask_again :
      (later q : ℕ) (qs : List ℕ)
      → self.has_sent_bye ≡ false
      → answers.has_heard_bye ≡ false
      → AreIncreasing (q ∷ qs)
      → 0 < length (pack (q ∷ qs))
      → length (pack (q ∷ qs)) < 65534
      → (packets : List RtcpPacket) × ((ask_again later answers (q ∷ qs) self).1 ≡ some packets)
        × (buffer : List ℕ) × (send_compound memory packets ≡ done buffer)
        × (on_rtcp_packet stale now buffer (length buffer) receiver
            ≡ parsed (record {
              receiver = receiver;
              type_flags = if received then 0x002d else 0x002c;
              called = nack_received (q ∷ qs) ∷ [];
            }))
  unfolding ask_again send_rtcp make_report extra_packets set_packet_ids ask
  on_rtcp_packet-ask_again later q qs stays answered inc any few =
      let nack : Nack = set_packet_ids (q ∷ qs) (record new_nack {
        sender_ssrc = self.config.local_ssrc;
        media_ssrc = self.config.remote_ssrc;
      }) in
      let v : IsNack nack = record {
        some_items = any;
        few_items = few;
        items = pack-IsItem (q ∷ qs) inc;
        sender = c.local;
        media = c.remote;
      } in
      let out_now = send_rtcp answers (send_nack (q ∷ qs)) self in
      let next : RtcpSender × Option (List RtcpPacket) = (
        record out_now.0 { utc_ms_next_send = later + self.config.rtcp_report_interval_ms },
        some out_now.1,
      ) in
      let flags : ℕ = if length blocks == 0 then 0x000c else 0x000d in
      let handled =
        dispatch-nack nack v stale now []
          (record { receiver = receiver; type_flags = flags; called = [] }) peer in
      let out =
        heard self.config c receiver peer here memory allocated stale now blocks
          (negative_acknowledgement nack) (nack_image nack)
          (record {
            receiver = receiver;
            type_flags = bit_or flags 0x0020;
            called = nack_received (unpack nack.packed) ∷ [];
          })
          few_blocks.0 few_blocks.1 (nack-IsWritten nack v) handled in
      (
        with_extra (negative_acknowledgement nack),
        ap₂ (λ gone heard_bye. (if gone || heard_bye then (self, none) else next).1) stays answered
            ∙ ap
                (λ report. some (
                  report
                  ∷ source_description (make_sdes self.config)
                  ∷ negative_acknowledgement nack
                  ∷ []))
                report_sent,
        out.0,
        out.1,
        out.2
            ∙ ap₂
                (λ f ids.
                  parsed (record {
                    receiver = receiver;
                    type_flags = f;
                    called = nack_received ids ∷ [];
                  }))
                (ap (λ f. bit_or f 0x0020) few_blocks.2 ∙ flags_nack received)
                (unpack-pack (q ∷ qs) inc),
      )

  -- Before this side has sent RTP: of its goodbye the peer, whose configuration and state fit,
  -- calls its callback once, and from then on no buffer is looked at any more.
  pub on_rtcp_packet-say_goodbye :
      (later_buffer : List ℕ) (size : ℕ)
      → let packets = (say_goodbye answers self).1 in
        let deaf : RtcpReceiver = record receiver { has_received_bye = true } in
        (buffer : List ℕ) × (send_compound memory packets ≡ done buffer)
        × (on_rtcp_packet stale now buffer (length buffer) receiver
            ≡ parsed (record {
              receiver = deaf;
              type_flags = if received then 0x001d else 0x001c;
              called = bye_received ∷ [];
            }))
        × (on_rtcp_packet stale now later_buffer size deaf
            ≡ parsed (record { receiver = deaf; type_flags = 0; called = [] }))
  unfolding say_goodbye send_rtcp make_report extra_packets ask on_rtcp_packet
  on_rtcp_packet-say_goodbye later_buffer size =
      let bye : Bye = record { sender_ssrc = self.config.local_ssrc; csrcs = []; reason = [] } in
      let v : IsBye bye = record {
        sender = c.local;
        sources = tt;
        few_sources = (let e : 0 ≤ 30 = omega arith in e);
        short_reason = (let e : 0 ≤ 255 = omega arith in e);
      } in
      let flags : ℕ = if length blocks == 0 then 0x000c else 0x000d in
      let handled =
        dispatch-bye bye v stale now []
          (record { receiver = receiver; type_flags = flags; called = [] }) peer in
      let out =
        heard self.config c receiver peer here memory allocated stale now blocks (goodbye bye)
          (bye_image bye v)
          (record {
            receiver = record receiver { has_received_bye = true };
            type_flags = bit_or flags 0x0010;
            called = bye_received ∷ [];
          })
          few_blocks.0 few_blocks.1 (bye-IsWritten bye v) handled in
      (
        out.0,
        ap
              (λ report.
                send_compound memory
                  (report ∷ source_description (make_sdes self.config) ∷ goodbye bye ∷ []))
              report_sent
            ∙ out.1,
        out.2
            ∙ ap
                (λ f. parsed (record {
                  receiver = record receiver { has_received_bye = true };
                  type_flags = f;
                  called = bye_received ∷ [];
                }))
                (ap (λ f. bit_or f 0x0010) few_blocks.2 ∙ flags_bye received),
        refl,
      )
