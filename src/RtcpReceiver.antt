-- ===== src/RtcpReceiver.antt =====
-- src/rtp_rtcp/rtcp_receiver.cc: what a session does with the RTCP packets of its peer.
pub mod Defs
pub mod Compound
pub mod Ends
