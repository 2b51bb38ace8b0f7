-- ===== src/RtcpSender.antt =====
-- src/rtp_rtcp/rtcp_sender.cc, and `SendRtcp` of src/rtp_rtcp/rtp_rtcp_tranceiver_impl.cc: the
-- RTCP packets that a session sends.
pub mod Defs
pub mod Compound
pub mod Sent
pub mod Images
pub mod Heard
pub mod Conversation
pub mod Exchange
pub mod Fraction
