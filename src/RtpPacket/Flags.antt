-- ===== src/RtpPacket/Flags.antt =====
-- The first byte that `LoadPacket` of src/rtp_rtcp/rtp_packet_impl.cc writes.
use qo_srtp.Common.{
  ℕ, ◌+◌, ◌/◌, ◌%◌, ◌<◌, bit_or, ◌≡◌, refl, Bool, true, false, arith, ltb, ◌==◌, ==_iff, length,
  passes, passes-at,
}
use qo_srtp.RtpPacket.Defs.{RtpPacket}
use qo_srtp.RtpPacket.Load.{has_extension, first_byte}

-- The flag, as the number that its bit counts for.
abbrev pub flag : ℕ → Bool → ℕ
flag weight true = weight
flag weight false = 0

or_table :
    (base cc : ℕ)
    → passes (λ c. bit_or base c == (base + c)) 16 ≡ true
    → cc < 16
    → bit_or base cc ≡ base + cc
or_table base cc table h = (==_iff _ _).0 (passes-at _ 16 cc h table)

or_base :
    (cc : ℕ)
    → cc < 16
    → (bit_or 0x80 cc ≡ 0x80 + cc)
      × (bit_or 0xa0 cc ≡ 0xa0 + cc)
      × (bit_or 0x90 cc ≡ 0x90 + cc)
      × (bit_or 0xb0 cc ≡ 0xb0 + cc)
unfolding passes
or_base cc h = (
  or_table 0x80 cc refl h,
  or_table 0xa0 cc refl h,
  or_table 0x90 cc refl h,
  or_table 0xb0 cc refl h,
)

first_byte_sum :
    (packet : RtpPacket)
    → length packet.csrcs < 16
    → first_byte packet
      ≡ 128
        + flag 32 (has_extension packet.extension)
        + flag 16 (ltb 0 packet.pad_size)
        + length packet.csrcs
unfolding first_byte
first_byte_sum packet h = ground (arith, or_base (length packet.csrcs) h)

-- With at most 15 CSRCs the first byte holds the version 2 and the number of CSRCs. The bit 0x20,
-- which RFC 3550 and the parser read as P, tells whether there is an extension, and the bit 0x10,
-- which they read as X, whether there is padding.
pub first_byte_flags :
    (packet : RtpPacket)
    → length packet.csrcs < 16
    → (first_byte packet
        ≡ 128
          + flag 32 (has_extension packet.extension)
          + flag 16 (ltb 0 packet.pad_size)
          + length packet.csrcs)
      × (first_byte packet / 64 ≡ 2)
      × (first_byte packet % 16 ≡ length packet.csrcs)
      × ((first_byte packet / 32 % 2 == 1) ≡ has_extension packet.extension)
      × ((first_byte packet / 16 % 2 == 1) ≡ ltb 0 packet.pad_size)
first_byte_flags packet h =
    let e = first_byte_sum packet h in
    (e, ground (arith, e), ground (arith, e), ground (arith, e), ground (arith, e))
