-- ===== src/RtpPacket/Copy.antt =====
-- The copies of a packet's parts: `RtpPacket::Create(other)` of src/rtp_rtcp/rtp_packet.cc.
use qo_srtp.Common.{
  ℕ, zero, suc, ◌+◌, bit_or, Option, none, some, List, [], ◌∷◌, ◌==◌, if◌then◌else◌, take,
}
use qo_srtp.DataBuffer.{DataBuffer, create, set_size, modify_at}
use qo_srtp.RtpPacket.Defs.{
  Extension, RtpPacket, ok, err, empty_packet, new_extension, count_csrcs, m, payload_type, csrc,
}
use qo_srtp.RtpPacket.Store.{store_fields}

-- `payload_type() | (m() ? 0x80 : 0x00)`.
unfoldable pub octet_with_marker : ℕ → ℕ → ℕ
octet_with_marker octet marker = if marker == 0 then bit_or octet 0x00 else bit_or octet 0x80

-- The loop over the CSRCs from index `i` on, with the variable `csrc`. It is a `uint8_t`, and each
-- of the two failures makes the caller return `nullptr`; `none` stands for that.
unfoldable pub copy_csrcs : RtpPacket → ℕ → ℕ → ℕ → Option (List ℕ)
copy_csrcs other zero i var = some []
copy_csrcs other (suc n) i var = elim (csrc other var i) [
  | none ↦ none
  | some (err e, value) ↦ none
  | some (ok, value) ↦ elim (copy_csrcs other n (i + 1) value) [
    | none ↦ none
    | some rest ↦ some (value ∷ rest)
  ]
]

unfoldable pub copy_extension : (ℕ → ℕ) → Option Extension → Option Extension
copy_extension memory none = none
copy_extension memory (some src) =
    let fresh = new_extension memory src.ext_length in
    some (record fresh {
      name = take 2 src.name;
      content = (modify_at fresh.content 0 src.content.buffer fresh.content.size).1;
    })

unfoldable pub copy_payload : (ℕ → ℕ) → Option DataBuffer → Option DataBuffer
copy_payload memory none = none
copy_payload memory (some b) =
    let fresh = create memory b.size in
    let sized = (set_size fresh fresh.capacity).1 in some (modify_at sized 0 b.buffer b.size).1

-- The result of the last `StorePacket` is not looked at.
unfoldable pub create_copy : (ℕ → ℕ) → RtpPacket → Option RtpPacket
create_copy memory other = elim (copy_csrcs other (count_csrcs other) 0 0) [
  | none ↦ none
  | some csrcs ↦
      some
        (store_fields
          (record {
            octet_m_and_payload_type = octet_with_marker (payload_type other) (m other);
            sequence_number = other.sequence_number;
            timestamp = other.timestamp;
            ssrc = other.ssrc;
            csrcs = csrcs;
            extension = copy_extension memory other.extension;
            payload_buffer = copy_payload memory other.payload_buffer;
            pad_size = other.pad_size;
          })
          empty_packet).1
]
