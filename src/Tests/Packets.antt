-- ===== src/Tests/Packets.antt =====
-- src/rtp_rtcp/rtp_packet_impl.cc at concrete inputs.
use qo_srtp.Common.{ℕ, ◌≡◌, refl, none, some, [], ◌∷◌, arith, ltb, if◌then◌else◌}
use qo_srtp.ByteIo.{host_bytes}
use qo_srtp.DataBuffer.{DataBuffer, block, create, set_size, write, modify_at}
use qo_srtp.RtpPacket.Defs.{RtpPacket, ok, empty_packet}
use qo_srtp.RtpPacket.Store.{extension_bytes, payload_bytes, buffer_length, store_packet}
use qo_srtp.RtpPacket.Load.{
  put, put_reversed, put_number, put_csrcs, put_extension, put_payload, put_padding, first_byte,
  load_packet,
}
use qo_srtp.RtpPacket.Layout.{IsPacket, image, load_packet-image}
use qo_srtp.RtpPacket.Fields.{byte_swap}
use qo_srtp.RtpPacket.RoundTrip.{InRange, trimmed, store_packet-load_packet}

abbrev pub payload : DataBuffer
payload = record { size = 2; capacity = 4; buffer = 5 ∷ 6 ∷ 0 ∷ 0 ∷ [] }

abbrev pub plain : RtpPacket
plain = record {
  octet_m_and_payload_type = 0xe0;
  sequence_number = 0x0102;
  timestamp = 0x03040506;
  ssrc = 0x0708090a;
  csrcs = 0x0b0c0d0e ∷ [];
  extension = none;
  payload_buffer = some payload;
  pad_size = 0;
}

abbrev pub stale : ℕ → ℕ
stale _ = 0xcc

loaded_bytes :
    (load_packet stale plain).buffer
    ≡ 0x81 ∷ 0xe0 ∷ 1 ∷ 2 ∷ 3 ∷ 4 ∷ 5 ∷ 6 ∷ 7 ∷ 8 ∷ 9 ∷ 10 ∷ 11 ∷ 12 ∷ 13 ∷ 14 ∷ 5 ∷ 6 ∷ []
unfolding load_packet first_byte put put_reversed put_number put_csrcs put_extension put_payload
    put_padding buffer_length extension_bytes payload_bytes host_bytes block create set_size write
    modify_at
loaded_bytes = refl

pub plain-IsPacket : IsPacket plain
unfolding buffer_length extension_bytes payload_bytes
plain-IsPacket = record { extension_fits = tt; payload_fits = omega arith; total = omega arith }

pub plain-InRange : InRange plain
plain-InRange = record {
  octet = omega arith;
  seq = omega arith;
  stamp = omega arith;
  source = omega arith;
  few_csrcs = omega arith;
}

load_packet-image_example :
    ((load_packet stale plain).size ≡ buffer_length plain)
    × ((load_packet stale plain).buffer ≡ image plain)
load_packet-image_example = load_packet-image stale plain plain-IsPacket

-- With an extension of no words and no padding.
abbrev extended : RtpPacket
extended = record plain {
  extension = some (record {
    name = 0 ∷ 1 ∷ [];
    ext_length = 0;
    content = record { size = 0; capacity = 0; buffer = [] };
  });
}

store_packet-load_packet_example :
    let loaded = load_packet stale plain in
    let out = store_packet stale loaded.buffer loaded.size empty_packet in
    (out.0 ≡ ok)
    × (out.1.octet_m_and_payload_type ≡ 0xe0)
    × (out.1.sequence_number ≡ 0x0102)
    × (out.1.timestamp ≡ 0x03040506)
    × (out.1.ssrc ≡ 0x0708090a)
    × (out.1.csrcs ≡ byte_swap 0x0b0c0d0e ∷ [])
    × (out.1.extension ≡ none)
    × (out.1.payload_buffer ≡ trimmed (some payload))
    × (out.1.pad_size ≡ (if ltb 0 (payload_bytes (some payload)) then 0 else 0))
store_packet-load_packet_example =
    store_packet-load_packet stale plain plain-IsPacket plain-InRange refl refl stale empty_packet
