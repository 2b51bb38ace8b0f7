-- ===== src/Fec.antt =====
-- Forward error correction: src/rtp_rtcp/ulp_fec.cc and the tables of masks.
pub mod Joined
pub mod Random
pub mod Bursty
pub mod Masks
pub mod Unequal
pub mod Packet
pub mod Encoder
pub mod Decoder
pub mod Decode
pub mod Folds
pub mod Group
pub mod Layout
pub mod Leftover
pub mod Carrier
pub mod Recovery
pub mod Recovered
pub mod Tables
pub mod Interleave
pub mod Important
pub mod Chosen
pub mod Rows
pub mod Encoding
pub mod Ends
pub mod Stalls
pub mod Cache
