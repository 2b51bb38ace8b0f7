-- ===== src/RtpPacket/Layout.antt =====
-- What `LoadPacket` of src/rtp_rtcp/rtp_packet_impl.cc writes, as one list of bytes.
use mathlib.Core.List.{append_assoc}
use qo_srtp.Common.{
  ℕ, ◌+◌, ◌-◌, ◌*◌, ◌<◌, ◌≡◌, refl, sym, ap, ◌∙◌, Option, none, some, List, [], ◌∷◌, ◌++◌, arith,
  length, take, replicate, length-append, length-take, length-replicate, take-all, u32,
}
use qo_srtp.ByteIo.{write_big_endian}
use qo_srtp.ByteIo.RoundTrip.{length-write_big_endian}
use qo_srtp.DataBuffer.{DataBuffer, create, set_size}
use qo_srtp.DataBuffer.Bounds.{length-block}
use qo_srtp.RtpPacket.Defs.{Extension, RtpPacket}
use qo_srtp.RtpPacket.Store.{extension_bytes, payload_bytes, buffer_length}
use qo_srtp.RtpPacket.Load.{Writer, put, put_number, first_byte, load_packet}
use qo_srtp.RtpPacket.Written.{
  Written, csrc_bytes, ExtensionFits, extension_image, PayloadFits, payload_image, padding_image,
  put-Written, put_number-Written, put_csrcs-Written, put_extension-Written, put_payload-Written,
  put_padding-Written,
}

-- A packet whose buffers are as long as their sizes say and that fits a `uint32_t` length.
pub record IsPacket (packet : RtpPacket) : Type 0 where
  pub extension_fits : ExtensionFits packet.extension
  pub payload_fits : PayloadFits packet.payload_buffer
  pub total : buffer_length packet < 4294967296

unfoldable pub fixed_header : RtpPacket → List ℕ
fixed_header packet =
    first_byte packet
    ∷ packet.octet_m_and_payload_type
    ∷ (write_big_endian 2 packet.sequence_number
        ++ (write_big_endian 4 packet.timestamp ++ write_big_endian 4 packet.ssrc))

unfoldable pub image : RtpPacket → List ℕ
image packet =
    fixed_header packet
    ++ (csrc_bytes packet.csrcs
        ++ (extension_image packet.extension
            ++ (payload_image packet.payload_buffer ++ padding_image packet.pad_size)))

pub length-fixed_header : (packet : RtpPacket) → length (fixed_header packet) ≡ 12
unfolding fixed_header
length-fixed_header packet = omega (
  arith,
  length-append (write_big_endian 2 packet.sequence_number)
      (write_big_endian 4 packet.timestamp ++ write_big_endian 4 packet.ssrc),
  length-append (write_big_endian 4 packet.timestamp) (write_big_endian 4 packet.ssrc),
  length-write_big_endian 2 packet.sequence_number,
  length-write_big_endian 4 packet.timestamp,
  length-write_big_endian 4 packet.ssrc,
)

pub length-csrc_bytes : (cs : List ℕ) → length (csrc_bytes cs) ≡ length cs * 4
unfolding csrc_bytes
length-csrc_bytes [] = refl
length-csrc_bytes (c ∷ cs) = omega (
  arith,
  length-append (write_big_endian 4 c) (csrc_bytes cs),
  length-write_big_endian 4 c,
  length-csrc_bytes cs,
)

pub length-extension_image :
    (e : Option Extension) → ExtensionFits e → length (extension_image e) ≡ extension_bytes e
unfolding extension_image extension_bytes
length-extension_image none f = refl
length-extension_image (some e) f = omega (
  arith,
  length-append (take 2 e.name)
      (write_big_endian 2 e.ext_length ++ take e.content.size e.content.buffer),
  length-append (write_big_endian 2 e.ext_length) (take e.content.size e.content.buffer),
  length-take 2 e.name,
  length-write_big_endian 2 e.ext_length,
  length-take e.content.size e.content.buffer,
  f.named,
  f.counted,
  f.content_size,
)

pub length-payload_image :
    (b : Option DataBuffer) → PayloadFits b → length (payload_image b) ≡ payload_bytes b
unfolding payload_image payload_bytes
length-payload_image none f = refl
length-payload_image (some b) f = omega (arith, length-take b.size b.buffer)

pub length-padding_image : (pad_size : ℕ) → length (padding_image pad_size) ≡ pad_size
unfolding padding_image
length-padding_image pad_size = ground (
  arith,
  length-append (replicate (pad_size - 1) 0) (pad_size ∷ []),
  length-replicate (pad_size - 1) (let z : ℕ = 0 in z),
)

module _ (memory : ℕ → ℕ) (packet : RtpPacket) (ok_packet : IsPacket packet) where
  abbrev total : ℕ
  total = buffer_length packet

  small : total < 4294967296
  small = ok_packet.total

  started :
      Written total
        (record { target = (set_size (create memory (u32 total)) (u32 total)).1; write_pos = 0 })
        []
  unfolding create set_size
  started = record {
    pos = refl;
    size = ground (arith, ok_packet.total);
    whole = omega (arith, length-block memory 0 (u32 (buffer_length packet)), ok_packet.total);
    front = refl;
  }

  -- The writer behind the fixed header, and behind the CSRCs.
  headed :
      Written total
        (put_number 4 packet.ssrc (
          put_number 4 packet.timestamp (
            put_number 2 packet.sequence_number (
              put
                (put
                  (record {
                    target = (set_size (create memory (u32 total)) (u32 total)).1;
                    write_pos = 0;
                  })
                  (first_byte packet ∷ [])
                  1)
                (packet.octet_m_and_payload_type ∷ [])
                1))))
        (fixed_header packet)
  unfolding fixed_header buffer_length
  headed =
      let v1 = put-Written total small _ [] (first_byte packet ∷ []) 1 started refl (omega arith) in
      let v2 =
        put-Written total small _ _ (packet.octet_m_and_payload_type ∷ []) 1 v1 refl
          (omega arith) in
      let v3 = put_number-Written total small 2 packet.sequence_number _ _ v2 (omega arith) in
      let v4 = put_number-Written total small 4 packet.timestamp _ _ v3 (omega (arith, l2)) in
      let v5 = put_number-Written total small 4 packet.ssrc _ _ v4 (omega (arith, l2, l4, a)) in
      simp append_assoc at v5
    where
      l2 : length (write_big_endian 2 packet.sequence_number) ≡ 2
      l2 = length-write_big_endian 2 packet.sequence_number

      l4 : length (write_big_endian 4 packet.timestamp) ≡ 4
      l4 = length-write_big_endian 4 packet.timestamp

      a :
          length (write_big_endian 2 packet.sequence_number ++ write_big_endian 4 packet.timestamp)
          ≡ 6
      a = omega (
        arith,
        l2,
        l4,
        length-append (write_big_endian 2 packet.sequence_number)
            (write_big_endian 4 packet.timestamp),
      )

  -- A full buffer holds exactly what was written.
  full :
      (w : Writer) (out : List ℕ) → Written total w out → length out ≡ total → w.target.buffer ≡ out
  full w out v e =
      sym (take-all w.target.buffer) ∙ ap (λ n. take n w.target.buffer) (v.whole ∙ sym e) ∙ v.front

  pub length-image : length (image packet) ≡ buffer_length packet
  unfolding image buffer_length
  length-image = simp length-append (
      omega (
        arith,
        length-fixed_header packet,
        length-csrc_bytes packet.csrcs,
        length-extension_image packet.extension ok_packet.extension_fits,
        length-payload_image packet.payload_buffer ok_packet.payload_fits,
        length-padding_image packet.pad_size,
      ))

  regroup :
      (w : Writer)
      → Written total w (
          (((fixed_header packet ++ csrc_bytes packet.csrcs) ++ extension_image packet.extension)
            ++ payload_image packet.payload_buffer)
          ++ padding_image packet.pad_size)
      → Written total w (image packet)
  unfolding image
  regroup w v = simp append_assoc at v

  sizes :
      total
      ≡ 12
        + length packet.csrcs * 4
        + extension_bytes packet.extension
        + payload_bytes packet.payload_buffer
        + packet.pad_size
  sizes = unfold buffer_length in refl

  -- Every byte of the buffer is written, and they are the fixed header of RFC 3550 with the flags
  -- of `first_byte`, the CSRCs in network order, the extension, the payload and the padding.
  pub load_packet-image :
      ((load_packet memory packet).size ≡ buffer_length packet)
      × ((load_packet memory packet).buffer ≡ image packet)
  unfolding load_packet
  load_packet-image =
      let rest = sizes in
      let h = length-fixed_header packet in
      let c = length-csrc_bytes packet.csrcs in
      let e = length-extension_image packet.extension ok_packet.extension_fits in
      let p = length-payload_image packet.payload_buffer ok_packet.payload_fits in
      let ac = length-append (fixed_header packet) (csrc_bytes packet.csrcs) in
      let ae =
        length-append (fixed_header packet ++ csrc_bytes packet.csrcs)
          (extension_image packet.extension) in
      let ap' =
        length-append
          ((fixed_header packet ++ csrc_bytes packet.csrcs) ++ extension_image packet.extension)
          (payload_image packet.payload_buffer) in
      let w6 = put_csrcs-Written total small packet.csrcs _ _ headed (omega (arith, h, rest)) in
      let w7 =
        put_extension-Written total small packet.extension _ _ w6 ok_packet.extension_fits
          (omega (arith, h, rest, c, ac)) in
      let w8 =
        put_payload-Written total small packet.payload_buffer _ _ w7 ok_packet.payload_fits
          (omega (arith, h, rest, c, ac, e, ae)) in
      let w9 =
        put_padding-Written total small packet.pad_size _ _ w8
          (omega (arith, h, rest, c, ac, e, ae, p, ap')) in
      let w = regroup _ w9 in (w.size, full _ (image packet) w length-image)
