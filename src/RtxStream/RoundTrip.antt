-- ===== src/RtxStream/RoundTrip.antt =====
-- `ReconstructRtpFromRtx` of what `ConstructRtx` made, in src/rtp_rtcp/rtp_receiver.cc and
-- src/rtp_rtcp/rtp_sender.cc.
use qo_srtp.Common.{
  ℕ, ◌+◌, ◌≤◌, ◌<◌, ◌≡◌, refl, ap, subst, ◌∙◌, true, false, some, ◌++◌, map, arith, leb, length,
  take, length-take, u8, IsU8, IsU16,
}
use qo_srtp.ByteIo.{write_big_endian}
use qo_srtp.ByteIo.RoundTrip.{read-write, length-write_big_endian}
use qo_srtp.DataBuffer.{DataBuffer}
use qo_srtp.RtpPacket.Defs.{RtpPacket, ok, empty_packet, count_csrcs, m, payload_type}
use qo_srtp.RtpPacket.Store.{buffer_length, payload_bytes}
use qo_srtp.RtpPacket.Written.{PayloadFits}
use qo_srtp.RtpPacket.Layout.{IsPacket}
use qo_srtp.RtpPacket.Copy.{octet_with_marker, copy_csrcs, copy_extension}
use qo_srtp.RtpPacket.Copied.{
  copy_csrcs-u8, octet_with_marker-octet, copy_extension-trimmed, trimmed_extension,
  trimmed_extension-bytes, length-map, store_fields-small, parts-small,
}
use qo_srtp.Sender.Defs.{RtpSenderConfig, RtxContext}
use qo_srtp.Sender.Rtx.{
  constructed, construct_rtx, repeat_packet, store_rtx, find_rtx_type, next_rtx_seq,
}
use qo_srtp.Receiver.Defs.{RtpReceiverConfig}
use qo_srtp.Receiver.Rtx.{
  reconstruct_rtp_from_rtx, reconstruct_payload, reconstruct_from, find_type,
}
use qo_srtp.RtxStream.Parts.{
  octet_with_marker-parts, u8-u8, trimmed_extension-twice, rtx_payload-image,
  original_payload-image, Ascending, found_above,
}

-- A packet that can be repeated: it has a payload, which leaves room for two more bytes, and the
-- numbers fit their variables.
pub record IsRepeatable (packet : RtpPacket) (payload : DataBuffer) : Type 0 where
  pub fits : IsPacket packet
  pub octet : IsU8 packet.octet_m_and_payload_type
  pub seq : IsU16 packet.sequence_number
  pub few_csrcs : length packet.csrcs < 256
  pub has_payload : packet.payload_buffer ≡ some payload
  pub not_empty : 0 < payload.size
  pub room : buffer_length packet + 2 < 4294967296

-- The RTX packet, and the packet that comes out in the end.
unfoldable pub rtx_image : ℕ → ℕ → ℕ → RtpPacket → DataBuffer → RtpPacket
rtx_image rtx_ssrc rtx_type rtx_seq packet payload = record {
  octet_m_and_payload_type = octet_with_marker rtx_type (m packet);
  sequence_number = rtx_seq;
  timestamp = packet.timestamp;
  ssrc = rtx_ssrc;
  csrcs = map u8 packet.csrcs;
  extension = trimmed_extension packet.extension;
  payload_buffer = some (record {
    size = payload.size + 2;
    capacity = payload.size + 2;
    buffer = write_big_endian 2 packet.sequence_number ++ take payload.size payload.buffer;
  });
  pad_size = packet.pad_size;
}

unfoldable pub repeated : ℕ → RtpPacket → DataBuffer → RtpPacket
repeated remote_ssrc packet payload = record packet {
  ssrc = remote_ssrc;
  csrcs = map u8 packet.csrcs;
  extension = trimmed_extension packet.extension;
  payload_buffer = some (record {
    size = payload.size;
    capacity = payload.size;
    buffer = take payload.size payload.buffer;
  });
  pad_size = 0;
}

module _ (packet : RtpPacket) (payload : DataBuffer) (v : IsRepeatable packet payload) where
  payload_fits : payload.size ≤ length payload.buffer
  payload_fits = subst PayloadFits v.has_payload v.fits.payload_fits

  payload_size : payload_bytes packet.payload_buffer ≡ payload.size
  unfolding payload_bytes
  payload_size = ap payload_bytes v.has_payload

  size-small : payload.size + 2 < 4294967296
  unfolding buffer_length
  size-small = omega (arith, v.room, payload_size)

  extension-trimmed :
      (memory : ℕ → ℕ) → copy_extension memory packet.extension ≡ trimmed_extension packet.extension
  extension-trimmed memory =
      copy_extension-trimmed memory packet.extension v.fits.extension_fits
        (parts-small packet v.fits.total).0

  rtx_image-length :
      (ssrc t seq : ℕ)
      → buffer_length (rtx_image ssrc t seq packet payload) ≡ buffer_length packet + 2
  unfolding buffer_length rtx_image payload_bytes
  rtx_image-length ssrc t seq =
      omega (arith, length-map packet.csrcs, trimmed_extension-bytes packet.extension, payload_size)

  store_rtx-image :
      (memory : ℕ → ℕ) (config : RtpSenderConfig) (t seq : ℕ)
      → store_rtx memory config t seq packet (map u8 packet.csrcs) payload
        ≡ (ok, rtx_image config.rtx_ssrc t seq packet payload)
  unfolding rtx_image store_rtx
  store_rtx-image memory config t seq =
      rw
        (
          store_rtx,
          extension-trimmed memory,
          rtx_payload-image memory packet.sequence_number payload payload_fits size-small,
        )
        (store_fields-small (rtx_image config.rtx_ssrc t seq packet payload) empty_packet
          (omega (arith, rtx_image-length config.rtx_ssrc t seq, v.room)))

  repeated_with :
      (memory : ℕ → ℕ) (random : ℕ) (config : RtpSenderConfig) (context : RtxContext) (t : ℕ)
      → repeat_packet memory random config packet context t (map u8 packet.csrcs) (some payload) ≡ (
        constructed (rtx_image config.rtx_ssrc t (next_rtx_seq random context) packet payload),
        record { last_rtx_seq = next_rtx_seq random context; has_sent_rtx = true },
      )
  unfolding repeat_packet
  repeated_with memory random config context t =
      let e = store_rtx-image memory config t (next_rtx_seq random context) in
      rw (repeat_packet, ap (λ r. r.0) e)
        (ap
          (λ r. (
            constructed r.1,
            record { last_rtx_seq = next_rtx_seq random context; has_sent_rtx = true },
          ))
          e)

  construct_rtx-image :
      (memory : ℕ → ℕ) (random : ℕ) (config : RtpSenderConfig) (context : RtxContext) (t : ℕ)
      → find_rtx_type (payload_type packet) config.map_rtx_payload_type ≡ some t
      → construct_rtx memory random config packet context ≡ (
        constructed (rtx_image config.rtx_ssrc t (next_rtx_seq random context) packet payload),
        record { last_rtx_seq = next_rtx_seq random context; has_sent_rtx = true },
      )
  unfolding construct_rtx
  construct_rtx-image memory random config context t found =
      let seq = next_rtx_seq random context in
      rw (construct_rtx, found, copy_csrcs-u8 packet 0 v.few_csrcs)
        (ap (repeat_packet memory random config packet context t (map u8 packet.csrcs))
            v.has_payload
          ∙ repeated_with memory random config context t)

  marker-small : m packet < 2
  unfolding m
  marker-small = omega (arith, v.octet)

  rtx_image-parts :
      (ssrc t seq : ℕ)
      → t < 128
      → (payload_type (rtx_image ssrc t seq packet payload) ≡ t)
        × (m (rtx_image ssrc t seq packet payload) ≡ m packet)
  unfolding rtx_image payload_type m
  rtx_image-parts ssrc t seq ht = octet_with_marker-parts t (m packet) ht marker-small

  rtx_image-csrcs :
      (ssrc t seq : ℕ)
      → copy_csrcs
          (rtx_image ssrc t seq packet payload)
          (count_csrcs (rtx_image ssrc t seq packet payload))
          0
          0
        ≡ some (map u8 packet.csrcs)
  unfolding rtx_image
  rtx_image-csrcs ssrc t seq =
      copy_csrcs-u8 (rtx_image ssrc t seq packet payload) 0
        (omega (arith, length-map packet.csrcs, v.few_csrcs))
      ∙ ap some (u8-u8 packet.csrcs)

  rtx_image-extension :
      (memory : ℕ → ℕ)
      → copy_extension memory (trimmed_extension packet.extension)
        ≡ trimmed_extension packet.extension
  rtx_image-extension memory =
      let twice = trimmed_extension-twice packet.extension v.fits.extension_fits in
      copy_extension-trimmed memory (trimmed_extension packet.extension) twice.0 (
        omega
          (arith, trimmed_extension-bytes packet.extension, (parts-small packet v.fits.total).0))
      ∙ twice.1

  repeated-length : (ssrc : ℕ) → buffer_length (repeated ssrc packet payload) ≤ buffer_length packet
  unfolding buffer_length repeated payload_bytes
  repeated-length ssrc =
      omega (arith, length-map packet.csrcs, trimmed_extension-bytes packet.extension, payload_size)

  abbrev numbered : DataBuffer
  numbered = record {
    size = payload.size + 2;
    capacity = payload.size + 2;
    buffer = write_big_endian 2 packet.sequence_number ++ take payload.size payload.buffer;
  }

  reconstruct_from-repeated :
      (memory : ℕ → ℕ) (config : RtpReceiverConfig) (ssrc t seq : ℕ)
      → t < 128
      → reconstruct_from memory config
          (rtx_image ssrc t seq packet payload)
          (payload_type packet)
          numbered
          (map u8 packet.csrcs)
        ≡ repeated config.remote_ssrc packet payload
  unfolding reconstruct_from rtx_image repeated
  reconstruct_from-repeated memory config ssrc t seq ht =
      let octet =
        ap (octet_with_marker (payload_type packet)) (rtx_image-parts ssrc t seq ht).1
        ∙ octet_with_marker-octet packet v.octet in
      let seq_read = read-write 2 packet.sequence_number (take payload.size payload.buffer) v.seq in
      let content =
        original_payload-image memory (write_big_endian 2 packet.sequence_number)
          (take payload.size payload.buffer) payload.size
          (length-write_big_endian 2 packet.sequence_number)
          (omega (arith, length-take payload.size payload.buffer, payload_fits)) size-small in
      rw (reconstruct_from, octet, seq_read.0, rtx_image-extension memory, content)
        (ap (λ r. r.1)
          (store_fields-small (repeated config.remote_ssrc packet payload) empty_packet
            (omega (arith, repeated-length config.remote_ssrc, v.fits.total))))

  -- What the sender makes of a packet for the RTX stream, the receiver turns into the packet again:
  -- its octet, sequence number, timestamp, extension and used payload bytes, with the receiver's
  -- `remote_ssrc`, without padding, and with the lowest eight bits of each CSRC. Both have the same
  -- map of payload types, whose keys ascend, and the RTX payload type has seven bits. The RTX
  -- packet itself has the RTX ssrc and the next number of the RTX stream.
  pub reconstruct-construct :
      (memory memory' : ℕ → ℕ) (random : ℕ) (sender : RtpSenderConfig)
      (receiver : RtpReceiverConfig) (context : RtxContext) (t : ℕ)
      → find_rtx_type (payload_type packet) sender.map_rtx_payload_type ≡ some t
      → t < 128
      → Ascending 0 sender.map_rtx_payload_type
      → receiver.map_rtx_payload_type ≡ sender.map_rtx_payload_type
      → (rtx : RtpPacket) × ((construct_rtx memory random sender packet context).0
          ≡ constructed rtx)
        × (rtx.ssrc ≡ sender.rtx_ssrc)
        × (rtx.sequence_number ≡ next_rtx_seq random context)
        × (reconstruct_rtp_from_rtx memory' receiver rtx
            ≡ some (repeated receiver.remote_ssrc packet payload))
  unfolding reconstruct_rtp_from_rtx reconstruct_payload rtx_image
  reconstruct-construct memory memory' random sender receiver context t found ht up same =
      let seq = next_rtx_seq random context in
      let rtx = rtx_image sender.rtx_ssrc t seq packet payload in
      let back =
        ap (find_type (payload_type rtx)) same
        ∙ ap (λ k. find_type k sender.map_rtx_payload_type)
            (rtx_image-parts sender.rtx_ssrc t seq ht).0
        ∙ (found_above (payload_type packet) 0 t sender.map_rtx_payload_type up found).1 in
      let big : leb (payload.size + 2) 2 ≡ false = ground (arith, v.not_empty) in
      (
        rtx,
        ap (λ r. r.0) (construct_rtx-image memory random sender context t found),
        refl,
        refl,
        rw (reconstruct_rtp_from_rtx, back, big, rtx_image-csrcs sender.rtx_ssrc t seq)
            (ap some (reconstruct_from-repeated memory' receiver sender.rtx_ssrc t seq ht)),
      )
