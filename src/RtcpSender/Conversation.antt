-- ===== src/RtcpSender/Conversation.antt =====
-- A report, a name and one packet more, from src/rtp_rtcp/rtcp_sender.cc through the buffer of
-- src/rtp_rtcp/rtp_rtcp_tranceiver_impl.cc to `OnRtcpPacket` of src/rtp_rtcp/rtcp_receiver.cc.
use mathlib.Core.List.{append-nil}
use qo_srtp.Common.{
  ℕ, ◌+◌, ◌*◌, ◌/◌, ◌≤◌, ◌<◌, bit_or, ◌≡◌, refl, sym, ap, ◌∙◌, Bool, true, false, ◌||◌, some, List,
  [], ◌∷◌, ◌++◌, arith, ◌==◌, if◌then◌else◌, ==_iff, length, All, length-append,
}
use qo_srtp.Nack.Header.{new_header}
use qo_srtp.Report.Defs.{ReportBlock, ReceiverReport}
use qo_srtp.Report.RoundTrip.{IsBlock}
use qo_srtp.Report.SenderReport.{done}
use qo_srtp.Sdes.Defs.{Sdes}
use qo_srtp.Sdes.Chunks.{sizes}
use qo_srtp.Sdes.RoundTrip.{IsSdes}
use qo_srtp.RtcpReceiver.Defs.{
  RtcpReceiver, Parsing, describes, dispatch, parsed, parse, on_rtcp_packet,
}
use qo_srtp.RtcpReceiver.Compound.{
  Image, image_header, image_bytes, length-image_bytes, compound_bytes, AreHandled,
  parse-compound_bytes,
}
use qo_srtp.RtcpSender.Defs.{
  RtcpSenderConfig, RtcpPacket, receiver_report, source_description, make_sdes,
}
use qo_srtp.RtcpSender.Compound.{send_compound}
use qo_srtp.RtcpSender.Sent.{IsWritten, AreWritten, AreWritten-IsImage, send_compound-bytes}
use qo_srtp.RtcpSender.Images.{report_image, report-IsWritten, sdes_image, sdes-IsWritten}
use qo_srtp.RtcpSender.Heard.{IsConfig, own_chunk, make_sdes-chunk, dispatch-report, dispatch-sdes}

flags_described :
    (b : Bool)
    → bit_or (if b then bit_or 0 0x0004 else bit_or (bit_or 0 0x0004) 0x0001) 0x0008
      ≡ (if b then 0x000c else 0x000d)
flags_described true = refl
flags_described false = refl

module _ (config : RtcpSenderConfig) (c : IsConfig config) (receiver : RtcpReceiver)
    (peer : receiver.remote_ssrc ≡ config.local_ssrc) (here : receiver.has_received_bye ≡ false)
    (memory : ℕ → List ℕ) (allocated : (n : ℕ) → length (memory n) ≡ n) (stale now : ℕ) where
  abbrev own_sdes : Sdes
  own_sdes = record {
    chunks = own_chunk config ∷ [];
    chunks_buffer_length = sizes (own_chunk config ∷ []);
  }

  own_sdes-IsSdes : IsSdes own_sdes
  own_sdes-IsSdes = record {
    few = (let e : 1 ≤ 31 = omega arith in e);
    good = (record { source = c.local; short_name = c.short_name }, tt);
    summed = refl;
  }

  own_size : (0 < sizes (own_chunk config ∷ [])) × (sizes (own_chunk config ∷ []) ≤ 265)
  unfolding sizes
  own_size = (omega arith, omega (arith, c.short_name))

  own_described : describes receiver.remote_ssrc (own_chunk config ∷ []) ≡ true
  unfolding describes
  own_described = ap (λ b. b || false) ((==_iff receiver.remote_ssrc config.local_ssrc).1 peer)

  -- A report with at most one block, the name, and one packet more.
  pub heard :
      (blocks : List ReportBlock) (extra : RtcpPacket) (i : Image) (handled : Parsing)
      → length blocks ≤ 1
      → All IsBlock blocks
      → IsWritten extra i
      → dispatch stale now (image_header i []) (record {
        receiver = receiver;
        type_flags = if length blocks == 0 then 0x000c else 0x000d;
        called = [];
      })
        ≡ some handled
      → let report : ReceiverReport = record {
        sender_ssrc = config.local_ssrc;
        report_blocks = blocks;
      } in
        let packets = receiver_report report ∷ source_description (make_sdes config) ∷ extra ∷ [] in
        (buffer : List ℕ) × (send_compound memory packets ≡ done buffer)
        × (on_rtcp_packet stale now buffer (length buffer) receiver ≡ parsed handled)
  unfolding on_rtcp_packet AreWritten AreHandled compound_bytes
  heard blocks extra i handled few good written last =
      let report : ReceiverReport = record {
        sender_ssrc = config.local_ssrc;
        report_blocks = blocks;
      } in
      let is = report_image report ∷ sdes_image own_sdes ∷ i ∷ [] in
      let packets = receiver_report report ∷ source_description own_sdes ∷ extra ∷ [] in
      let few' : length blocks < 32 = omega (arith, few) in
      let all : AreWritten packets is = (
        report-IsWritten report few',
        (sdes-IsWritten own_sdes own_sdes-IsSdes own_size.0, (written, tt)),
      ) in
      let images = AreWritten-IsImage packets is all in
      let buffer = compound_bytes is in
      let long : length buffer
          ≡ 4
            + (length blocks * 6 + 1) * 4
            + (4 + sizes (own_chunk config ∷ []) / 4 * 4 + (4 + i.words * 4 + 0)) =
        omega (
          arith,
          length-append (image_bytes (report_image report))
              (image_bytes (sdes_image own_sdes) ++ (image_bytes i ++ [])),
          length-append (image_bytes (sdes_image own_sdes)) (image_bytes i ++ []),
          length-append (image_bytes i) [],
          length-image_bytes (report_image report) images.0,
          length-image_bytes (sdes_image own_sdes) images.1.0,
          length-image_bytes i written.is_image,
        ) in
      let sent =
        send_compound-bytes memory packets is allocated all (omega (arith, long))
          (omega (arith, long, few, own_size.1, written.is_image.few_words)) in
      let n = length buffer in
      let start : Parsing = record { receiver = receiver; type_flags = 0; called = [] } in
      let noted : Parsing = record start {
        type_flags =
            if length blocks == 0 then bit_or 0 0x0004 else bit_or (bit_or 0 0x0004) 0x0001;
      } in
      let named : Parsing = record noted { type_flags = bit_or noted.type_flags 0x0008 } in
      let first =
        dispatch-report report few' stale now (compound_bytes (sdes_image own_sdes ∷ i ∷ []) ++ [])
          start c.local good peer in
      let second =
        dispatch-sdes own_sdes own_sdes-IsSdes stale now (compound_bytes (i ∷ []) ++ []) noted
          own_size.0 own_described in
      let third =
        ap
          (λ f.
            dispatch stale now (image_header i [])
              (record { receiver = receiver; type_flags = f; called = [] }))
          (flags_described (length blocks == 0))
        ∙ last in
      (
        buffer,
        ap (λ s. send_compound memory (receiver_report report ∷ source_description s ∷ extra ∷ []))
              (make_sdes-chunk config c)
            ∙ sent,
        ap (λ b. if b then parsed start else parse n stale now new_header buffer n start) here
            ∙ ap (λ l. parse n stale now new_header l n start) (sym (append-nil buffer))
            ∙ parse-compound_bytes is n stale now new_header [] start handled images
                (omega (arith, long)) (noted, first, (named, second, (handled, third, refl))),
      )
