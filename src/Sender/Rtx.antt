-- ===== src/Sender/Rtx.antt =====
-- `ConstructRtx` of src/rtp_rtcp/rtp_sender.cc: a packet that repeats another on the RTX stream.
use qo_srtp.Common.{ℕ, ◌+◌, true, Option, none, some, List, [], ◌∷◌, ◌==◌, if◌then◌else◌, u32}
use qo_srtp.ByteIo.{write_big_endian}
use qo_srtp.DataBuffer.{DataBuffer, create, set_size, modify_at, write}
use qo_srtp.RtpPacket.Defs.{RtpPacket, Result, ok, err, empty_packet, count_csrcs, m, payload_type}
use qo_srtp.RtpPacket.Store.{store_fields}
use qo_srtp.RtpPacket.Copy.{octet_with_marker, copy_csrcs, copy_extension}
use qo_srtp.Sender.Defs.{RtpSenderConfig, RtxContext}

-- The RTX payload type of the first pair that repeats `octet`.
unfoldable pub find_rtx_type : ℕ → List (ℕ × ℕ) → Option ℕ
find_rtx_type octet [] = none
find_rtx_type octet ((rtx, original) ∷ rest) =
    if original == octet then some rtx else find_rtx_type octet rest

-- The payload behind the number of the repeated packet.
unfoldable pub rtx_payload : (ℕ → ℕ) → ℕ → DataBuffer → DataBuffer
rtx_payload memory sequence_number payload =
    let fresh = create memory (u32 (payload.size + 2)) in
    let sized = (set_size fresh fresh.capacity).1 in
    let numbered = record sized {
      buffer = write sized.buffer 0 (write_big_endian 2 sequence_number);
    } in
    (modify_at numbered 2 payload.buffer payload.size).1

-- The number behind the last one sent. The first one follows a random number.
unfoldable pub next_rtx_seq : ℕ → RtxContext → ℕ
next_rtx_seq random context =
    let last = if context.has_sent_rtx then context.last_rtx_seq else random in
    if 65535 == last then 0 else last + 1

-- What `ConstructRtx` does: a packet without a payload is read through a null pointer.
pub data Constructed : Type 0 where
  undefined no_packet : Constructed
  constructed : RtpPacket → Constructed

unfoldable pub store_rtx :
    (ℕ → ℕ) → RtpSenderConfig → ℕ → ℕ → RtpPacket → List ℕ → DataBuffer → Result × RtpPacket
store_rtx memory config rtx_type rtx_seq packet csrcs payload =
    store_fields
      (record {
        octet_m_and_payload_type = octet_with_marker rtx_type (m packet);
        sequence_number = rtx_seq;
        timestamp = packet.timestamp;
        ssrc = config.rtx_ssrc;
        csrcs = csrcs;
        extension = copy_extension memory packet.extension;
        payload_buffer = some (rtx_payload memory packet.sequence_number payload);
        pad_size = packet.pad_size;
      })
      empty_packet

-- From the payload on. The random number is drawn, and kept, before the packet is stored.
unfoldable pub repeat_packet :
    (ℕ → ℕ)
    → ℕ
    → RtpSenderConfig
    → RtpPacket
    → RtxContext
    → ℕ
    → List ℕ
    → Option DataBuffer
    → Constructed × RtxContext
repeat_packet memory random config packet context rtx_type csrcs none = (undefined, context)
repeat_packet memory random config packet context rtx_type csrcs (some payload) =
    let rtx_seq = next_rtx_seq random context in
    let drawn =
      if context.has_sent_rtx then context else record context { last_rtx_seq = random } in
    let (result, rtx) = store_rtx memory config rtx_type rtx_seq packet csrcs payload in
    elim result [
      | err e ↦ (no_packet, drawn)
      | ok ↦ (constructed rtx, record { last_rtx_seq = rtx_seq; has_sent_rtx = true })
    ]

unfoldable pub construct_rtx :
    (ℕ → ℕ) → ℕ → RtpSenderConfig → RtpPacket → RtxContext → Constructed × RtxContext
construct_rtx memory random config packet context =
    elim (find_rtx_type (payload_type packet) config.map_rtx_payload_type) [
      | none ↦ (no_packet, context)
      | some rtx_type ↦ elim (copy_csrcs packet (count_csrcs packet) 0 0) [
        | none ↦ (no_packet, context)
        | some csrcs ↦
            repeat_packet memory random config packet context rtx_type csrcs packet.payload_buffer
      ]
    ]
