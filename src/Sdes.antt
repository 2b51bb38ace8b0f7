-- ===== src/Sdes.antt =====
-- src/rtp_rtcp/sdes.cc and src/rtp_rtcp/sdes.h: the source descriptions of RTCP.
pub mod Defs
pub mod Chunks
pub mod RoundTrip
