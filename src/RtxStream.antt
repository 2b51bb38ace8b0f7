-- ===== src/RtxStream.antt =====
-- The RTX stream between `RtpSender::ConstructRtx` of src/rtp_rtcp/rtp_sender.cc and
-- `RtpReceiver::ReconstructRtpFromRtx` of src/rtp_rtcp/rtp_receiver.cc.
pub mod Parts
pub mod RoundTrip
