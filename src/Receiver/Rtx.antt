-- ===== src/Receiver/Rtx.antt =====
-- `ReconstructRtpFromRtx` of src/rtp_rtcp/rtp_receiver.cc.
use qo_srtp.Common.{ℕ, ◌-◌, Option, none, some, List, [], ◌∷◌, leb, ◌==◌, if◌then◌else◌, drop, u32}
use qo_srtp.ByteIo.{read_big_endian}
use qo_srtp.DataBuffer.{DataBuffer, create, set_size, modify_at}
use qo_srtp.RtpPacket.Defs.{RtpPacket, empty_packet, count_csrcs, m, payload_type}
use qo_srtp.RtpPacket.Store.{store_fields}
use qo_srtp.RtpPacket.Copy.{octet_with_marker, copy_csrcs, copy_extension}
use qo_srtp.Receiver.Defs.{RtpReceiverConfig}

-- `std::map::find`.
unfoldable pub find_type : ℕ → List (ℕ × ℕ) → Option ℕ
find_type key [] = none
find_type key ((rtx, original) ∷ rest) = if rtx == key then some original else find_type key rest

-- The payload without the number in front of it.
unfoldable pub original_payload : (ℕ → ℕ) → DataBuffer → DataBuffer
original_payload memory rtx_payload =
    let fresh = create memory (u32 (rtx_payload.size - 2)) in
    let sized = (set_size fresh fresh.capacity).1 in
    (modify_at sized 0 (drop 2 rtx_payload.buffer) sized.size).1

unfoldable pub reconstruct_from :
    (ℕ → ℕ) → RtpReceiverConfig → RtpPacket → ℕ → DataBuffer → List ℕ → RtpPacket
reconstruct_from memory config packet original_type rtx_payload csrcs =
    (store_fields
      (record {
        octet_m_and_payload_type = octet_with_marker original_type (m packet);
        sequence_number = read_big_endian 2 rtx_payload.buffer;
        timestamp = packet.timestamp;
        ssrc = config.remote_ssrc;
        csrcs = csrcs;
        extension = copy_extension memory packet.extension;
        payload_buffer = some (original_payload memory rtx_payload);
        pad_size = 0;
      })
      empty_packet).1

-- From the payload on; `none` is `nullptr`.
unfoldable pub reconstruct_payload :
    (ℕ → ℕ) → RtpReceiverConfig → RtpPacket → ℕ → Option DataBuffer → Option RtpPacket
reconstruct_payload memory config packet original_type none = none
reconstruct_payload memory config packet original_type (some rtx_payload) =
    if leb rtx_payload.size 2 then none else elim (copy_csrcs packet (count_csrcs packet) 0 0) [
      | none ↦ none
      | some csrcs ↦ some (reconstruct_from memory config packet original_type rtx_payload csrcs)
    ]

-- The result of `StorePacket` is not looked at.
unfoldable pub reconstruct_rtp_from_rtx : (ℕ → ℕ) → RtpReceiverConfig → RtpPacket → Option RtpPacket
reconstruct_rtp_from_rtx memory config packet =
    elim (find_type (payload_type packet) config.map_rtx_payload_type) [
      | none ↦ none
      | some original_type ↦
          reconstruct_payload memory config packet original_type packet.payload_buffer
    ]
