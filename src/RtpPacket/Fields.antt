-- ===== src/RtpPacket/Fields.antt =====
-- Where `StorePacket` of src/rtp_rtcp/rtp_packet_impl.cc finds the fields that `LoadPacket` wrote.
use mathlib.Core.List.{append_assoc}
use qo_srtp.Common.{
  ℕ, ◌+◌, ◌≡◌, refl, sym, ap, ap₂, ◌∙◌, List, [], ◌∷◌, ◌++◌, map, length, take, drop, drop-add,
  drop_front, take_front,
}
use qo_srtp.ByteIo.{of_host_bytes, write_big_endian, read_little_endian}
use qo_srtp.ByteIo.RoundTrip.{length-write_big_endian}
use qo_srtp.RtpPacket.Defs.{RtpPacket}
use qo_srtp.RtpPacket.Store.{read_csrcs}
use qo_srtp.RtpPacket.Written.{csrc_bytes, extension_image, payload_image, padding_image}
use qo_srtp.RtpPacket.Layout.{image, fixed_header}

-- The four bytes of a number in the opposite order.
pub byte_swap : ℕ → ℕ
byte_swap n = of_host_bytes (write_big_endian 4 n)

module _ (packet : RtpPacket) where
  -- What follows the CSRCs.
  abbrev pub behind_csrcs : List ℕ
  behind_csrcs =
      extension_image packet.extension
      ++ (payload_image packet.payload_buffer ++ padding_image packet.pad_size)

  pub drop_two :
      drop 2 (image packet)
      ≡ write_big_endian 2 packet.sequence_number
        ++ (write_big_endian 4 packet.timestamp
            ++ (write_big_endian 4 packet.ssrc ++ (csrc_bytes packet.csrcs ++ behind_csrcs)))
  unfolding image fixed_header
  drop_two = simp append_assoc

  pub drop_four :
      drop 4 (image packet)
      ≡ write_big_endian 4 packet.timestamp
        ++ (write_big_endian 4 packet.ssrc ++ (csrc_bytes packet.csrcs ++ behind_csrcs))
  drop_four =
      sym (drop-add 2 2 (image packet))
      ∙ ap (drop 2) drop_two
      ∙ drop_front _ _ 2 (length-write_big_endian 2 packet.sequence_number)

  pub drop_eight :
      drop 8 (image packet)
      ≡ write_big_endian 4 packet.ssrc ++ (csrc_bytes packet.csrcs ++ behind_csrcs)
  drop_eight =
      sym (drop-add 4 4 (image packet))
      ∙ ap (drop 4) drop_four
      ∙ drop_front _ _ 4 (length-write_big_endian 4 packet.timestamp)

  pub drop_twelve : drop 12 (image packet) ≡ csrc_bytes packet.csrcs ++ behind_csrcs
  drop_twelve =
      sym (drop-add 8 4 (image packet))
      ∙ ap (drop 4) drop_eight
      ∙ drop_front _ _ 4 (length-write_big_endian 4 packet.ssrc)

-- Written in network order and read in the order of the host, each CSRC is reversed.
pub read_csrcs-csrc_bytes :
    (memory : ℕ → ℕ) (bytes : List ℕ) (len : ℕ) (cs rest : List ℕ) (pos : ℕ)
    → drop pos bytes ≡ csrc_bytes cs ++ rest
    → read_csrcs memory bytes len (length cs) pos ≡ map byte_swap cs
unfolding read_csrcs csrc_bytes
read_csrcs-csrc_bytes memory bytes len [] rest pos e = refl
read_csrcs-csrc_bytes memory bytes len (c ∷ cs) rest pos e =
    ap₂ ◌∷◌ head (read_csrcs-csrc_bytes memory bytes len cs rest (pos + 4) tail)
  where
    e' : drop pos bytes ≡ write_big_endian 4 c ++ (csrc_bytes cs ++ rest)
    e' = e ∙ append_assoc (write_big_endian 4 c) (csrc_bytes cs) rest

    head : read_little_endian 4 (drop pos bytes) ≡ byte_swap c
    head =
        unfold read_little_endian byte_swap in
        ap of_host_bytes (ap (take 4) e' ∙ take_front _ _ 4 (length-write_big_endian 4 c))

    tail : drop (pos + 4) bytes ≡ csrc_bytes cs ++ rest
    tail =
        sym (drop-add pos 4 bytes) ∙ ap (drop 4) e' ∙ drop_front _ _ 4 (length-write_big_endian 4 c)
