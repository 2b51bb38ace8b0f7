-- ===== src/Nack/Defs.antt =====
-- `Pack` and `Unpack` of src/rtp_rtcp/nack.cc.
use qo_srtp.Common.{
  ℕ, zero, suc, ◌+◌, ◌-◌, ◌/◌, ◌%◌, ◌^◌, bit_or, true, false, ◌||◌, List, [], ◌∷◌, ◌++◌, ltb, ◌==◌,
  if◌then◌else◌, u16,
}

pub record PackedNack : Type 0 where
  pub first_pid : ℕ
  pub bitmask : ℕ

pub record Nack : Type 0 where
  pub sender_ssrc : ℕ
  pub media_ssrc : ℕ
  pub packed : List PackedNack
  pub packet_ids : List ℕ

abbrev pub new_nack : Nack
new_nack = record { sender_ssrc = 0; media_ssrc = 0; packed = []; packet_ids = [] }

-- The place of a number in the mask, a `uint16_t`.
unfoldable pub shift_of : ℕ → ℕ → ℕ
shift_of first_pid id = u16 (id + 65535 - first_pid)

-- Both loops, with an item that is begun.
unfoldable pub pack_from : PackedNack → List ℕ → List PackedNack
pack_from item [] = item ∷ []
pack_from item (id ∷ ids) = elim (ltb id item.first_pid || ltb 15 (shift_of item.first_pid id)) [
  | true ↦ item ∷ pack_from (record { first_pid = id; bitmask = 0 }) ids
  | false ↦
      pack_from (record item { bitmask = bit_or item.bitmask (2 ^ shift_of item.first_pid id) }) ids
]

unfoldable pub pack : List ℕ → List PackedNack
pack [] = []
pack (id ∷ ids) = pack_from (record { first_pid = id; bitmask = 0 }) ids

-- `Pack` adds to the items that are there.
unfoldable pub set_packet_ids : List ℕ → Nack → Nack
set_packet_ids nack_list self = record self {
  packet_ids = nack_list;
  packed = self.packed ++ pack nack_list;
}

-- The loop over a mask, for a number of rounds; a `uint16_t` has run out after 16.
unfoldable pub unpack_mask : ℕ → ℕ → ℕ → List ℕ
unpack_mask zero bitmask pid = []
unpack_mask (suc rounds) bitmask pid =
    let rest = unpack_mask rounds (bitmask / 2) (u16 (pid + 1)) in
    if bitmask == 0 then [] else if bitmask % 2 == 1 then pid ∷ rest else rest

unfoldable pub unpack_item : PackedNack → List ℕ
unpack_item item = item.first_pid ∷ unpack_mask 16 item.bitmask (u16 (item.first_pid + 1))

unfoldable pub unpack : List PackedNack → List ℕ
unpack [] = []
unpack (item ∷ items) = unpack_item item ++ unpack items
