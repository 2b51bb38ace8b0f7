-- ===== src/Nack/Packet.antt =====
-- `LoadPacket` and `StorePacket` of src/rtp_rtcp/nack.cc, with the common feedback of
-- src/rtp_rtcp/rtpfb.cc.
use qo_srtp.Common.{
  ℕ, zero, suc, ◌+◌, ◌-◌, ◌*◌, ◌/◌, not, ◌||◌, Option, none, some, List, [], ◌∷◌, ltb, ◌==◌,
  if◌then◌else◌, length, drop, u16, u32,
}
use qo_srtp.ByteIo.{write_big_endian, read_big_endian}
use qo_srtp.DataBuffer.{write}
use qo_srtp.Nack.Defs.{PackedNack, Nack, unpack}
use qo_srtp.Nack.Header.{CommonHeader, create_header}

-- A `uint32_t`.
unfoldable pub block_length : Nack → ℕ
block_length self = u32 (4 + 8 + length self.packed * 4)

pub data Loaded : Type 0 where
  loaded no_items no_space : Loaded

unfoldable pub load_common_feedback : Nack → List ℕ → ℕ → List ℕ
load_common_feedback self packet pos =
    write (write packet pos (write_big_endian 4 self.sender_ssrc)) (pos + 4)
      (write_big_endian 4 self.media_ssrc)

-- The loop over the items, with `*pos`.
unfoldable pub load_items : List PackedNack → List ℕ → ℕ → List ℕ × ℕ
load_items [] packet pos = (packet, pos)
load_items (item ∷ items) packet pos =
    let first = write packet (pos + 0) (write_big_endian 2 item.first_pid) in
    let second = write first (pos + 2) (write_big_endian 2 item.bitmask) in
    load_items items second (pos + 4)

-- The buffer and `*pos` afterwards. The format of a NACK is 1 and its packet type 205.
unfoldable pub load_nack : Nack → List ℕ → ℕ → ℕ → Loaded × List ℕ × ℕ
load_nack self packet pos max_length =
    if length self.packed == 0
    then (no_items, packet, pos)
    else if ltb max_length (u32 (pos + block_length self))
    then (no_space, packet, pos)
    else let (headed, pos1) = create_header 1 205 (u16 ((block_length self - 4) / 4)) packet pos in
      let fed = load_common_feedback self headed pos1 in
      let (filled, end) = load_items self.packed fed (pos1 + 8) in (loaded, filled, end)

unfoldable pub read_items : ℕ → List ℕ → List PackedNack
read_items zero next_nack = []
read_items (suc n) next_nack =
    record {
      first_pid = read_big_endian 2 next_nack;
      bitmask = read_big_endian 2 (drop 2 next_nack);
    }
    ∷ read_items n (drop 4 next_nack)

-- `unread` is a payload read through a null pointer.
pub data StoredNack : Type 0 where
  wrong_type too_short unread : StoredNack
  stored : Nack → StoredNack

unfoldable pub store_payload : ℕ → Option (List ℕ) → StoredNack
store_payload payload_size none = unread
store_payload payload_size (some payload) =
    let items = read_items ((payload_size - 8) / 4) (drop 8 payload) in
    stored (record {
      sender_ssrc = read_big_endian 4 payload;
      media_ssrc = read_big_endian 4 (drop 4 payload);
      packed = items;
      packet_ids = unpack items;
    })

-- Every field of the object is replaced, so the object itself is not an argument.
unfoldable pub store_nack : CommonHeader → StoredNack
store_nack header =
    if not (header.packet_type == 205) || not (header.count_or_format == 1)
    then wrong_type
    else if ltb header.payload_size 12
    then too_short
    else store_payload header.payload_size header.payload
