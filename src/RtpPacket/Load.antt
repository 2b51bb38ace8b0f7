-- ===== src/RtpPacket/Load.antt =====
-- `LoadPacket` of src/rtp_rtcp/rtp_packet_impl.cc: the bytes of a packet.
use qo_srtp.Common.{
  ℕ, ◌+◌, ◌-◌, bit_or, Bool, true, false, Option, none, some, List, [], ◌∷◌, ltb, if◌then◌else◌,
  length, u8, u32,
}
use qo_srtp.ByteIo.{host_bytes}
use qo_srtp.DataBuffer.{DataBuffer, create, set_size, modify_at, mem_set}
use qo_srtp.RtpPacket.Defs.{Extension, RtpPacket}
use qo_srtp.RtpPacket.Store.{buffer_length}

-- The buffer that is filled, and `write_pos`.
pub record Writer : Type 0 where
  pub target : DataBuffer
  pub write_pos : ℕ

-- `buffer->ModifyAt(write_pos, from, n)` and `write_pos += n`.
unfoldable pub put : Writer → List ℕ → ℕ → Writer
put w from n = record {
  target = (modify_at w.target w.write_pos from n).1;
  write_pos = u32 (w.write_pos + n);
}

-- The bytes of a number in the memory of the host, from the last to the first, one by one.
unfoldable pub put_reversed : List ℕ → Writer → Writer
put_reversed [] w = w
put_reversed (b ∷ bs) w = put (put_reversed bs w) (b ∷ []) 1

unfoldable pub put_number : ℕ → ℕ → Writer → Writer
put_number size value w = put_reversed (host_bytes size value) w

unfoldable pub put_csrcs : List ℕ → Writer → Writer
put_csrcs [] w = w
put_csrcs (c ∷ cs) w = put_csrcs cs (put_number 4 c w)

unfoldable pub put_extension : Option Extension → Writer → Writer
put_extension none w = w
put_extension (some e) w =
    put (put_number 2 e.ext_length (put w e.name 2)) e.content.buffer e.content.size

unfoldable pub put_payload : Option DataBuffer → Writer → Writer
put_payload none w = w
put_payload (some b) w = put w b.buffer b.size

-- `pad_size_ - 1` zeros and the number of padding bytes.
unfoldable pub put_padding : ℕ → Writer → Writer
put_padding pad_size w =
    let zeros : Writer = record {
      target = (mem_set w.target w.write_pos 0 (pad_size - 1)).1;
      write_pos = u32 (w.write_pos + (pad_size - 1));
    } in
    let last : Writer = record {
      target = (mem_set zeros.target zeros.write_pos pad_size 1).1;
      write_pos = u32 (zeros.write_pos + 1);
    } in
    if ltb 0 pad_size then last else w

abbrev pub has_extension : Option Extension → Bool
has_extension none = false
has_extension (some e) = true

-- The first byte. The extension sets 0x20 and the padding 0x10.
unfoldable pub first_byte : RtpPacket → ℕ
first_byte packet =
    let start : ℕ = 0x80 in
    let with_extension = if has_extension packet.extension then bit_or start 0x20 else start in
    let with_padding =
      if ltb 0 packet.pad_size then bit_or with_extension 0x10 else with_extension in
    bit_or with_padding (u8 (length packet.csrcs))

unfoldable pub load_packet : (ℕ → ℕ) → RtpPacket → DataBuffer
load_packet memory packet =
    let len = buffer_length packet in
    let w0 : Writer = record {
      target = (set_size (create memory (u32 len)) (u32 len)).1;
      write_pos = 0;
    } in
    let w1 = put w0 (first_byte packet ∷ []) 1 in
    let w2 = put w1 (packet.octet_m_and_payload_type ∷ []) 1 in
    let w3 = put_number 2 packet.sequence_number w2 in
    let w4 = put_number 4 packet.timestamp w3 in
    let w5 = put_number 4 packet.ssrc w4 in
    let w6 = put_csrcs packet.csrcs w5 in
    let w7 = put_extension packet.extension w6 in
    let w8 = put_payload packet.payload_buffer w7 in (put_padding packet.pad_size w8).target
