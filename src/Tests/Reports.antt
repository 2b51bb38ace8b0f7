-- ===== src/Tests/Reports.antt =====
-- src/rtp_rtcp/receiver_report.cc at concrete inputs.
use qo_srtp.Common.{ℕ, ◌≡◌, refl, none, some, List, [], ◌∷◌, map, arith, drop, replicate}
use qo_srtp.Nack.Header.{CommonHeader, new_header, store_header, accepted}
use qo_srtp.Report.Defs.{
  ReportBlock, ReceiverReport, load_report, store_report, set_cumulative_lost,
}
use qo_srtp.Report.RoundTrip.{reread, store_report-load_report}

abbrev pub lossy : ReportBlock
lossy = record {
  source_ssrc = 5;
  fraction_lost = 12;
  cumulative_lost = 300;
  extended_high_seq_num = 65538;
  jitter = 3;
  last_sr = 0;
  delay_since_last_sr = 4294967295;
}

abbrev report : ReceiverReport
report = record { sender_ssrc = 7; report_blocks = lossy ∷ [] }

-- -1 is within the range, 2 ^ 23 is not.
lost_range :
    (set_cumulative_lost 4294967295 lossy ≡ some (record lossy { cumulative_lost = 4294967295 }))
    × (set_cumulative_lost 8388608 lossy ≡ none)
unfolding set_cumulative_lost
lost_range = (refl, refl)

store_report-load_report_example :
    (packet : List ℕ) × (load_report report (1 ∷ replicate 40 0) 1 41 ≡ some (packet, 33))
    × (parsed : CommonHeader) × (store_header (drop 1 packet) 40 new_header ≡ accepted parsed)
    × (store_report 0 parsed
        ≡ some (record { sender_ssrc = 7; report_blocks = map (reread 0) (lossy ∷ []) }))
store_report-load_report_example =
    store_report-load_report report (omega arith) (1 ∷ []) (replicate 40 0) 41 40 0 new_header
      (omega arith)
      (
        record {
          source = omega arith;
          fraction = omega arith;
          lost = omega arith;
          high = omega arith;
          stutter = omega arith;
          last = omega arith;
          delay = omega arith;
        },
        tt,
      )
      (omega arith) (omega arith) (omega arith)
