-- ===== src/RtpPacket/Defs.antt =====
-- The state of src/rtp_rtcp/rtp_packet_impl.h, the extension of src/include/rtp_packet.h, and the
-- accessors of src/rtp_rtcp/rtp_packet_impl.cc.
use qo_srtp.Common.{
  ℕ, ◌*◌, ◌/◌, bit_and, Bool, true, false, Option, none, some, List, [], ◌∷◌, ltb, ◌==◌,
  if◌then◌else◌, length, get_or, u8,
}
use qo_srtp.DataBuffer.{DataBuffer, create, set_size}

-- `ext_length` counts words of four bytes.
pub record Extension : Type 0 where
  pub name : List ℕ
  pub ext_length : ℕ
  pub content : DataBuffer

pub record RtpPacket : Type 0 where
  pub octet_m_and_payload_type : ℕ
  pub sequence_number : ℕ
  pub timestamp : ℕ
  pub ssrc : ℕ
  pub csrcs : List ℕ
  pub extension : Option Extension
  pub payload_buffer : Option DataBuffer
  pub pad_size : ℕ

-- One constructor for each error text.
pub data Error : Type 0 where
  length_less_than_fixed_head version_not_2 cc_beyond_length : Error
  x_beyond_length extension_beyond_length p_beyond_length : Error
  p_does_not_match_pad_size pad_size_beyond_length length_exceeds_uint32 : Error
  subscript_exceeds_vector : Error

pub data Result : Type 0 where
  ok : Result
  err : Error → Result

abbrev pub fixed_buffer_length : ℕ
fixed_buffer_length = 12

abbrev pub empty_packet : RtpPacket
empty_packet = record {
  octet_m_and_payload_type = 0;
  sequence_number = 0;
  timestamp = 0;
  ssrc = 0;
  csrcs = [];
  extension = none;
  payload_buffer = none;
  pad_size = 0;
}

-- `Extension(length_content_dw)`.
unfoldable pub new_extension : (ℕ → ℕ) → ℕ → Extension
new_extension memory length_content_dw =
    let content = create memory (4 * length_content_dw) in
    record {
      name = 0 ∷ 0 ∷ [];
      ext_length = length_content_dw;
      content = (set_size content content.capacity).1;
    }

unfoldable pub p : RtpPacket → Bool
p packet = ltb 0 packet.pad_size

abbrev pub is_some {ℓ} : {A : Type ℓ} → Option A → Bool
is_some none = false
is_some (some a) = true

unfoldable pub x : RtpPacket → Bool
x packet = is_some packet.extension

unfoldable pub count_csrcs : RtpPacket → ℕ
count_csrcs packet = u8 (length packet.csrcs)

unfoldable pub m : RtpPacket → ℕ
m packet = packet.octet_m_and_payload_type / 128

-- `(0xff >> 1) & octet`.
unfoldable pub payload_type : RtpPacket → ℕ
payload_type packet = bit_and 127 packet.octet_m_and_payload_type

-- The outcome of `csrc(csrc, index)` with the value of its `uint8_t&`. `none` is a read behind the
-- vector, which is undefined: the guard lets the index one past the end through.
unfoldable pub csrc : RtpPacket → ℕ → ℕ → Option (Result × ℕ)
csrc packet out index =
    if ltb (length packet.csrcs) index
    then some (err subscript_exceeds_vector, out)
    else if index == length packet.csrcs
    then none
    else some (ok, u8 (get_or packet.csrcs index 0))
