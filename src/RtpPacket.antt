-- ===== src/RtpPacket.antt =====
-- src/include/rtp_packet.h, src/rtp_rtcp/rtp_packet.cc and src/rtp_rtcp/rtp_packet_impl.cc and .h:
-- an RTP packet, its accessors and its copy. The parser and the writer are the children.
pub mod Defs
pub mod Store
pub mod Load
pub mod Written
pub mod Layout
pub mod Flags
pub mod Fields
pub mod RoundTrip
pub mod Copy
pub mod Copied
