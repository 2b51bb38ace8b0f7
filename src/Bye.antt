-- ===== src/Bye.antt =====
-- src/rtp_rtcp/bye.cc and src/rtp_rtcp/bye.h: the packet of RTCP that says goodbye.
pub mod Defs
pub mod Parts
pub mod RoundTrip
