-- ===== src/Fec/Decoder.antt =====
-- The cached packets of `UlpFecDecoder` in src/rtp_rtcp/ulp_fec.cc, what they say of other packets,
-- and the recovery of a packet.
use qo_srtp.Common.{
  ℕ, zero, suc, ◌+◌, ◌-◌, ◌*◌, ◌/◌, ◌%◌, min, bit_and, bit_or, bit_xor, Bool, true, false, not,
  Option, none, some, List, [], ◌∷◌, ◌++◌, ltb, leb, ◌==◌, if◌then◌else◌, get_or, take, drop, u16,
  sub32,
}
use qo_srtp.ByteIo.{write_big_endian, read_big_endian}
use qo_srtp.DataBuffer.{DataBuffer}
use qo_srtp.RtpPacket.Defs.{RtpPacket, ok, err, empty_packet, payload_type}
use qo_srtp.RtpPacket.Store.{store_packet}
use qo_srtp.Fec.Masks.{mask_size_l_bit_clear, mask_size_l_bit_set, has_bit}
use qo_srtp.Fec.Packet.{xor_into}

pub record FecDecoderConfig : Type 0 where
  pub max_cache_seq_difference : ℕ
  pub ssrc : ℕ
  pub payload_type : ℕ

-- `map_protected_seq_received` has its keys in ascending order. The pointers `media_packets` are
-- the buffers of the packets they point to, which do not change.
pub record CachedPacket : Type 0 where
  pub rtp_struct : RtpPacket
  pub rtp_buffer : DataBuffer
  pub is_fec : Bool
  pub protected_seqs : List (ℕ × Bool)
  pub media_packets : List DataBuffer
  pub invalid_fec : Bool

-- `emplace(seq, false)`: a key that is there stays as it is.
unfoldable pub emplace : ℕ → List (ℕ × Bool) → List (ℕ × Bool)
emplace seq [] = (seq, false) ∷ []
emplace seq ((k, received) ∷ entries) =
    if seq == k
    then (k, received) ∷ entries
    else if ltb seq k
    then (seq, false) ∷ (k, received) ∷ entries
    else (k, received) ∷ emplace seq entries

-- The loops over the bits of the mask, from bit i on.
unfoldable pub protected_by : List ℕ → ℕ → ℕ → ℕ → List (ℕ × Bool) → List (ℕ × Bool)
protected_by fec_mask seq_base zero i entries = entries
protected_by fec_mask seq_base (suc rounds) i entries =
    protected_by fec_mask seq_base rounds (i + 1)
      (if has_bit fec_mask i then emplace (u16 (seq_base + i)) entries else entries)

unfoldable pub l_bit : List ℕ → Bool
l_bit fec_header = not (bit_and (get_or fec_header 0 0) 0x40 == 0)

unfoldable pub mask_length : List ℕ → ℕ
mask_length fec_header = if l_bit fec_header then mask_size_l_bit_set else mask_size_l_bit_clear

-- `DecodeFecInfo`. A FEC packet that is shorter than its header and mask is read past its end.
unfoldable pub decode_fec_info : ℕ → CachedPacket → CachedPacket
decode_fec_info fec_pt self =
    let fec_header = drop 12 self.rtp_buffer.buffer in
    let seq_base = read_big_endian 2 (drop 2 fec_header) in
    if not (payload_type self.rtp_struct == fec_pt)
    then record self { is_fec = false }
    else record self {
      is_fec = true;
      protected_seqs =
          protected_by (drop 12 fec_header) seq_base (mask_length fec_header * 8) 0
            self.protected_seqs;
    }

-- What the loop over the media packets changes: bytes 0, 1 and 4 to 7 of the header, the payload and
-- the two bytes of the length.
pub record Recovering : Type 0 where
  pub octet_0 : ℕ
  pub octet_1 : ℕ
  pub timestamp : List ℕ
  pub payload : List ℕ
  pub recovery_length : List ℕ

-- One round. The length is read from the memory of the host, high byte first.
unfoldable pub remove_packet : ℕ → DataBuffer → Recovering → Recovering
remove_packet protection_length media state =
    let payload_size = u16 (sub32 media.size 12) in
    let header_done : Recovering = record state {
      octet_0 = bit_xor state.octet_0 (get_or media.buffer 0 0);
      octet_1 = bit_xor state.octet_1 (get_or media.buffer 1 0);
      timestamp = xor_into state.timestamp (take 4 (drop 4 media.buffer));
    } in
    if payload_size == 0 then header_done else record header_done {
      recovery_length =
          xor_into state.recovery_length (payload_size / 256 ∷ payload_size % 256 ∷ []);
      payload =
          xor_into state.payload (take (min payload_size protection_length) (drop 12 media.buffer));
    }

unfoldable pub remove_packets : ℕ → List DataBuffer → Recovering → Recovering
remove_packets protection_length [] state = state
remove_packets protection_length (media ∷ rest) state =
    remove_packets protection_length rest (remove_packet protection_length media state)

-- The start of the loop. `beyond` is what the memory holds behind the buffer of the FEC packet:
-- `protection_length` bytes are copied, also where fewer are left.
unfoldable pub start_recovering : List ℕ → ℕ → List ℕ → Recovering
start_recovering fec_header protection_length beyond = record {
  octet_0 = get_or fec_header 0 0;
  octet_1 = get_or fec_header 1 0;
  timestamp = take 4 (drop 4 fec_header);
  payload = take protection_length (drop (12 + mask_length fec_header) fec_header ++ beyond);
  recovery_length = take 2 (drop 8 fec_header);
}

-- The bytes of the recovered packet, with its number and ssrc and the first two bits of its header.
unfoldable pub recovered_bytes : ℕ → ℕ → Recovering → List ℕ
recovered_bytes ssrc recovered_seq state =
    bit_or (bit_and state.octet_0 0x3f) 0x80
    ∷ (state.octet_1
        ∷ (write_big_endian 2 recovered_seq
            ++ (state.timestamp ++ (write_big_endian 4 ssrc ++ state.payload))))

unfoldable pub has_payload : RtpPacket → Bool
has_payload packet = elim packet.payload_buffer [ none ↦ false | some b ↦ true ]

-- From the recovered buffer on; `none` is a nullptr.
unfoldable pub store_recovered : (ℕ → ℕ) → FecDecoderConfig → DataBuffer → Option CachedPacket
store_recovered memory config buffer =
    let stored = store_packet memory buffer.buffer buffer.size empty_packet in
    let packet : CachedPacket = record {
      rtp_struct = stored.1;
      rtp_buffer = buffer;
      is_fec = false;
      protected_seqs = [];
      media_packets = [];
      invalid_fec = false;
    } in
    elim stored.0 [
      | err e ↦ none
      | ok ↦
          if has_payload stored.1 then some (decode_fec_info config.payload_type packet) else none
    ]

-- `FecRecoverPacket`. `SetSize` cuts the size at the capacity.
unfoldable pub fec_recover_packet :
    (ℕ → ℕ) → List ℕ → FecDecoderConfig → DataBuffer → ℕ → List DataBuffer → Option CachedPacket
fec_recover_packet memory beyond config fec_buffer recovered_seq media_packets =
    let fec_header = take (fec_buffer.size - 12) (drop 12 fec_buffer.buffer) in
    let payload_length = u16 (sub32 fec_buffer.size 12) in
    let behind = 12 + mask_length fec_header in
    let protection_length = read_big_endian 2 (drop 10 fec_header) in
    let state =
      remove_packets protection_length media_packets
        (start_recovering fec_header protection_length beyond) in
    let capacity = protection_length + 12 in
    let size = read_big_endian 2 state.recovery_length + 12 in
    if leb payload_length behind
    then none
    else if ltb protection_length (payload_length - behind)
    then none
    else store_recovered memory config (record {
      size = if ltb capacity size then capacity else size;
      capacity = capacity;
      buffer = recovered_bytes config.ssrc recovered_seq state;
    })
