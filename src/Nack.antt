-- ===== src/Nack.antt =====
-- src/rtp_rtcp/nack.cc, src/rtp_rtcp/rtpfb.cc, src/rtp_rtcp/common_header.cc and
-- src/rtp_rtcp/rtcp_packet.h: the generic NACK packet of RTCP.
pub mod Defs
pub mod Header
pub mod Packet
pub mod Packing
pub mod Items
pub mod RoundTrip
pub mod Written
