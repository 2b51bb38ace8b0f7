-- ===== src/RtcpSender/Fraction.antt =====
-- The fraction of lost packets in the first report block of src/rtp_rtcp/rtcp_sender.cc.
use qo_srtp.Common.{
  ℕ, ◌≡◌, refl, ap, ap₂, ◌∙◌, inl, inr, true, false, ◌&&◌, [], ◌∷◌, arith, ltb, leb, if◌then◌else◌,
  Bool-cases, IsU32, sub32,
}
use qo_srtp.Report.Defs.{ReportBlock, set_cumulative_lost}
use qo_srtp.RtcpSender.Defs.{
  RemoteSenderInfo, no_remote_sender, Answers, RtcpSenderConfig, RtcpSender, initialize,
  source_description, SendRtcpInfo, is_send_only, since_last_report, fraction_of, make_report_block,
  make_report, make_sdes, extra_packets, ask, send_rtcp,
}

fraction_lost-make_report_block :
    (info : RemoteSenderInfo) (self : RtcpSender)
    → (make_report_block info self).fraction_lost
      ≡ fraction_of (since_last_report info self).0 (since_last_report info self).1
unfolding make_report_block set_cumulative_lost
fraction_lost-make_report_block info self =
    elim (Bool-cases (leb 8388608 info.cumulative_loss && ltb info.cumulative_loss 4286578688)) [
      | inl out_of_range ↦ rw (make_report_block, set_cumulative_lost, out_of_range) refl
      | inr in_range ↦ rw (make_report_block, set_cumulative_lost, in_range) refl
    ]

-- A sender that is not send-only sends its first RTCP packet before it has received RTP, and the
-- next one after: the report block of the latter takes all numbers from 0 to the highest one for
-- expected, and not those from the first one that was received.
pub first_fraction :
    (now : ℕ) (config : RtcpSenderConfig) (first second : Answers) (one two : SendRtcpInfo)
    → is_send_only config.direction ≡ false
    → first.has_received ≡ false
    → second.has_received ≡ true
    → IsU32 second.remote_sender.cumulative_loss
    → IsU32 second.remote_sender.extended_seq_num
    → let self = (send_rtcp first one (initialize now config).0).0 in
      (block : ReportBlock) × ((send_rtcp second two self).1
        ≡ make_report (block ∷ []) second.local_sender (ask second self)
          ∷ source_description (make_sdes config)
          ∷ extra_packets config two)
      × (block.fraction_lost
          ≡ fraction_of second.remote_sender.cumulative_loss second.remote_sender.extended_seq_num)
unfolding send_rtcp initialize ask since_last_report
first_fraction now config first second one two both before after loss high =
    let self = (send_rtcp first one (initialize now config).0).0 in
    let info = second.remote_sender in
    let hears : (ask second self).has_received_rtp ≡ true = rw (both, before, after) refl in
    let nothing_reported : self.last_report ≡ no_remote_sender = rw (both, before) refl in
    let all_losses : sub32 info.cumulative_loss 0 ≡ info.cumulative_loss = omega (arith, loss) in
    let all_numbers : sub32 info.extended_seq_num 0 ≡ info.extended_seq_num = omega (arith, high) in
    (
      make_report_block info (ask second self),
      ap
          (λ b.
            make_report (if b then make_report_block info (ask second self) ∷ [] else [])
              second.local_sender (ask second self)
            ∷ source_description (make_sdes config)
            ∷ extra_packets config two)
          hears,
      fraction_lost-make_report_block info (ask second self)
          ∙ ap
              (λ last.
                fraction_of (sub32 info.cumulative_loss last.cumulative_loss)
                  (sub32 info.extended_seq_num last.extended_seq_num))
              nothing_reported
          ∙ ap₂ fraction_of all_losses all_numbers,
    )
