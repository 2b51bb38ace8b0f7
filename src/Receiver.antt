-- ===== src/Receiver.antt =====
-- src/rtp_rtcp/rtp_receiver.cc and .h: the receiving side of a stream around its packet cache.
pub mod Defs
pub mod Rtx
pub mod Receive
pub mod Deliver
pub mod Statistics
