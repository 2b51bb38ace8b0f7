-- ===== src/Report.antt =====
-- src/rtp_rtcp/report_block.cc, src/rtp_rtcp/receiver_report.cc and
-- src/rtp_rtcp/sender_report.cc: the reports of RTCP.
pub mod Defs
pub mod RoundTrip
pub mod SenderReport
pub mod SenderRoundTrip
