-- ===== src/ReceiverCache.antt =====
-- RtpReceiverPacketCache of src/rtp_rtcp/rtp_receiver.h and src/rtp_rtcp/rtp_receiver.cc: packets
-- wait for the ones before them, and missing sequence numbers are kept for NACKs. `Defs` has the
-- state, `Put`, `Supplement` and `Get` the operations; the other children prove.
pub mod Defs
pub mod Supplement
pub mod Put
pub mod Get
pub mod Window
pub mod Insert
pub mod Deliver
pub mod History
pub mod Gaps
pub mod Losses
pub mod Wrap
pub mod Nack
pub mod Extended
