-- ===== src/Sender.antt =====
-- src/rtp_rtcp/rtp_sender.cc and .h: the sending side of a stream, its cache of packets for
-- retransmission and the RTX stream.
pub mod Defs
pub mod Cache
pub mod Rtx
pub mod Send
pub mod Stream
pub mod Repeat
