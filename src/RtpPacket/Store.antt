-- ===== src/RtpPacket/Store.antt =====
-- `StorePacket` of src/rtp_rtcp/rtp_packet_impl.cc: from bytes, and from fields.
use qo_srtp.Common.{
  ℕ, zero, suc, ◌+◌, ◌-◌, ◌*◌, ◌/◌, ◌%◌, Bool, true, false, not, Option, none, some, List, [], ◌∷◌,
  ltb, ◌==◌, if◌then◌else◌, length, get_or, take, drop,
}
use qo_srtp.ByteIo.{read_big_endian, read_little_endian}
use qo_srtp.DataBuffer.{DataBuffer, create, set_size, modify_at}
use qo_srtp.RtpPacket.Defs.{
  Extension, RtpPacket, Error, Result, ok, err, length_less_than_fixed_head, version_not_2,
  cc_beyond_length, x_beyond_length, extension_beyond_length, p_beyond_length,
  p_does_not_match_pad_size, pad_size_beyond_length, length_exceeds_uint32, fixed_buffer_length,
  new_extension,
}

-- A step of the parser: its value, or the error that `StorePacket` returns there.
pub data Parsed {ℓ} (A : Type ℓ) : Type ℓ where
  got : A → Parsed A
  failed : Error → Parsed A

infixl 5 ◌>>=◌ ◌>>◌
abbrev pub ◌>>=◌ {ℓ κ} : {A : Type ℓ} {B : Type κ} → Parsed A → (A → Parsed B) → Parsed B
got a >>= f = f a
failed e >>= f = failed e

abbrev pub ◌>>◌ {ℓ} : {B : Type ℓ} → Parsed (Unit {0}) → Parsed B → Parsed B
m >> k = m >>= λ _. k

abbrev pub reject_if : Bool → Error → Parsed (Unit {0})
reject_if true e = failed e
reject_if false e = got tt

module _ (memory : ℕ → ℕ) (packet : List ℕ) (len : ℕ) where
  -- `packet[i]`.
  abbrev pub byte : ℕ → ℕ
  byte i = get_or packet i 0

  -- The length behind the CSRCs. None of the sums below reaches 2 ^ 32.
  unfoldable pub parse_csrcs : ℕ → Parsed ℕ
  parse_csrcs cc =
      if ltb 0 cc
      then (if ltb len (fixed_buffer_length + cc * 4)
          then failed cc_beyond_length
          else got (fixed_buffer_length + cc * 4))
      else got fixed_buffer_length

  -- The extension at `start`, and the length behind it.
  unfoldable pub parse_extension : Bool → ℕ → Parsed (Option Extension × ℕ)
  parse_extension false start = got (none, start)
  parse_extension true start = do
    reject_if (ltb len (start + 4)) x_beyond_length
    let length_dw = read_big_endian 2 (drop (start + 2) packet)
    reject_if (ltb len (start + 4 + length_dw * 4)) extension_beyond_length
    let fresh = new_extension memory length_dw
    let filled = modify_at fresh.content 0 (drop (start + 4) packet) (length_dw * 4)
    got (
      some (record {
        name = take 2 (drop start packet);
        ext_length = length_dw;
        content = filled.1;
      }),
      start + (4 + length_dw * 4),
    )

  -- The number of padding bytes of a packet that is parsed up to `start`.
  unfoldable pub parse_padding : Bool → ℕ → Parsed ℕ
  parse_padding false start = got 0
  parse_padding true start = do
    reject_if (ltb len (start + 1)) p_beyond_length
    let pad_size = byte (len - 1)
    reject_if (pad_size == 0) p_does_not_match_pad_size
    reject_if (ltb len (start + pad_size)) pad_size_beyond_length
    got pad_size

  -- CSRCs are read in the order of the host.
  unfoldable pub read_csrcs : ℕ → ℕ → List ℕ
  read_csrcs zero pos = []
  read_csrcs (suc n) pos = read_little_endian 4 (drop pos packet) ∷ read_csrcs n (pos + 4)

  unfoldable pub parse : Parsed (ℕ × Option Extension × ℕ × ℕ)
  parse = do
    reject_if (ltb len fixed_buffer_length) length_less_than_fixed_head
    reject_if (not (byte 0 / 64 == 2)) version_not_2
    let cc = byte 0 % 16
    start ← parse_csrcs cc
    (extension, start') ← parse_extension (byte 0 / 16 % 2 == 1) start
    pad_size ← parse_padding (byte 0 / 32 % 2 == 1) start'
    got (cc, extension, start', pad_size)

  -- The assignments once nothing can fail. `pad_size_` is one of them only if there is a payload.
  unfoldable pub assign : RtpPacket → ℕ × Option Extension × ℕ × ℕ → RtpPacket
  assign self (cc, extension, start, pad_size) =
      let length_payload = len - (start + pad_size) in
      let self' : RtpPacket = record self {
        octet_m_and_payload_type = byte 1;
        sequence_number = read_big_endian 2 (drop 2 packet);
        timestamp = read_big_endian 4 (drop 4 packet);
        ssrc = read_big_endian 4 (drop 8 packet);
        csrcs = read_csrcs cc fixed_buffer_length;
        extension = extension;
        payload_buffer = none;
      } in
      let fresh = (set_size (create memory length_payload) length_payload).1 in
      if ltb 0 length_payload
      then record self' {
        payload_buffer = some (modify_at fresh 0 (drop start packet) length_payload).1;
        pad_size = pad_size;
      }
      else self'

  -- `StorePacket(packet, length)`. An error leaves the object as it was.
  unfoldable pub store_packet : RtpPacket → Result × RtpPacket
  store_packet self = elim parse [ got r ↦ (ok, assign self r) | failed e ↦ (err e, self) ]

-- The size of the packet in bytes, a `uint64_t`.
unfoldable pub extension_bytes : Option Extension → ℕ
extension_bytes none = 0
extension_bytes (some e) = 4 + e.ext_length * 4

unfoldable pub payload_bytes : Option DataBuffer → ℕ
payload_bytes none = 0
payload_bytes (some b) = b.size

unfoldable pub buffer_length : RtpPacket → ℕ
buffer_length packet =
    fixed_buffer_length
    + length packet.csrcs * 4
    + extension_bytes packet.extension
    + payload_bytes packet.payload_buffer
    + packet.pad_size

-- `StorePacket` from fields: `fields` are the arguments, which replace the object's.
unfoldable pub store_fields : RtpPacket → RtpPacket → Result × RtpPacket
store_fields fields self =
    if ltb 4294967295 (buffer_length fields)
    then (err length_exceeds_uint32, self)
    else (ok, fields)
