-- ===== src/Lib.antt =====
-- QoSRTP: RTP sessions with retransmission and forward error correction. A model of its core.
--
-- The program. RTP packets (src/rtp_rtcp/rtp_packet_impl.cc) hold their fields and their payload
-- in byte buffers (src/utils/data_buffer_impl.cc), and are written and read in network order
-- (src/utils/byte_io.h). The receiver (src/rtp_rtcp/rtp_receiver.cc) keeps packets in a cache until
-- the ones before them are there or their time is over, hands them over in order, and asks for the
-- missing ones by NACKs. Sequence numbers are compared on a circle (src/utils/seq_comparison.h).
--
-- The files.
--   Common          shared names: Boolean tests, lists over the native numbers, fixed-width words.
--   Seq             src/utils/seq_comparison.h: IsSeqAfterInRange is is_seq_after_in_range, and so
--                   on. Seq/Circle proves what the comparisons mean.
--   ByteIo          src/utils/byte_io.h for unsigned types on a little-endian host.
--   DataBuffer      src/utils/data_buffer_impl.cc. The block is a list of bytes; what it held when
--                   it was allocated is the parameter `memory`. A write behind the block makes the
--                   list longer than the capacity, which DataBuffer/Bounds excludes.
--   RtpPacket       src/rtp_rtcp/rtp_packet_impl.cc and src/rtp_rtcp/rtp_packet.cc. Defs has the
--                   state and the accessors, Store the two forms of StorePacket, Load LoadPacket,
--                   Copy the copy of a packet. The other children prove.
--   ReceiverCache   class RtpReceiverPacketCache of src/rtp_rtcp/rtp_receiver.cc. Defs has its
--                   state, Put PutPacket, Supplement SupplementLossSeqs, Get GetPackets and
--                   GetLossPacketSeqsForNack, History the calls that RtpReceiver::OnRtpPacket makes
--                   of them. std::list iterators are a list cut in two. The other children prove.
--   Receiver        class RtpReceiver of src/rtp_rtcp/rtp_receiver.cc. Defs has its state and
--                   start, Rtx ReconstructRtpFromRtx, Receive OnRtpPacket with its filters, jitter
--                   and statistics. Deliver and Statistics prove.
--   Sender          src/rtp_rtcp/rtp_sender.cc. Defs has the state and Initialize, Cache the class
--                   RtpSenderPacketCache, Rtx ConstructRtx, Send SendRtp and SendRtx. A packet
--                   given to the transceiver is an element of the list that a call returns.
--   RtxStream       what ConstructRtx and ReconstructRtpFromRtx do one after the other.
--   Nack            src/rtp_rtcp/nack.cc, src/rtp_rtcp/rtpfb.cc, src/rtp_rtcp/common_header.cc and
--                   CreateHeader of src/rtp_rtcp/rtcp_packet.h. Defs has Pack and Unpack, Header
--                   the common header, Packet LoadPacket and StorePacket.
--   Report          src/rtp_rtcp/receiver_report.cc and src/rtp_rtcp/report_block.cc, with the
--                   reader of three signed bytes of src/utils/byte_io.h.
--                   SenderReport has src/rtp_rtcp/sender_report.cc.
--   Sdes            src/rtp_rtcp/sdes.cc. Pointers into the packet are the bytes from there on.
--   Bye             src/rtp_rtcp/bye.cc.
--   App             src/rtp_rtcp/app.cc.
--   RtcpReceiver    src/rtp_rtcp/rtcp_receiver.cc. Defs has Parse with the handlers, OnRtcpPacket
--                   and GetSrInfo; the calls of the callback are a list. The loop gets as many
--                   rounds as the packet has bytes, of which each round takes at least four.
--   RtcpSender      src/rtp_rtcp/rtcp_sender.cc, in Defs, and SendRtcp of
--                   src/rtp_rtcp/rtp_rtcp_tranceiver_impl.cc, in Compound. The other children
--                   prove what a receiver makes of what is sent.
--   Demuxer         src/rtp_rtcp/rtp_rtcp_demuxer.cc: RTP and RTCP from one socket.
--   Router          the destinations of src/rtp_rtcp/rtp_rtcp_router.cc. A destination is a number,
--                   and its virtual IsExpectedRemoteSsrc a parameter.
--   Fec             src/rtp_rtcp/ulp_fec.cc. Random and Bursty are the tables of masks, Masks looks
--                   them up and makes others, Unequal has the masks for important packets, Packet
--                   BuildFecPacket, Encoder Encode with its checks; Decoder has the cached packet,
--                   DecodeFecInfo and FecRecoverPacket, Decode the cache, RcoverPackets, Decode and
--                   Flush. The configurations of src/rtp_rtcp/forward_error_correction.cc are with
--                   them. The other children prove.
--   Bits            the bit operations on numbers.
--   Tests           runs at concrete inputs, and the theorems at concrete inputs.
--
-- The model. Numbers are native numbers, and every store into a variable of a fixed width keeps
-- the remainder. Reads of the clock, and random numbers, are arguments. Undefined behaviour is a
-- value of the outcome. An operation that changes an object returns the new state with its
-- result; an error is a value and leaves the state as the code leaves it. Loops are structural
-- recursions over the list or over the number of rounds. The loop over a NACK's mask has 16
-- rounds, after which a uint16_t has run out.
--
-- Not modelled: sockets, threads and locks, logging, floating point, the other signed readers of
-- src/utils/byte_io.h, and sessions. Where src/rtp_rtcp/rtp_receiver.cc calculates the jitter in
-- double, the model is exact.
pub mod Common
pub mod Seq
pub mod ByteIo
pub mod DataBuffer
pub mod RtpPacket
pub mod ReceiverCache
pub mod App
pub mod Bits
pub mod Bye
pub mod Nack
pub mod Report
pub mod Demuxer
pub mod Router
pub mod RtcpReceiver
pub mod RtcpSender
pub mod Sdes
pub mod Sender
pub mod Receiver
pub mod RtxStream
pub mod Tests
pub mod Fec
