-- ===== src/Tests/Feedback.antt =====
-- src/rtp_rtcp/nack.cc and src/rtp_rtcp/common_header.cc at concrete inputs.
use qo_srtp.Common.{ℕ, ◌+◌, ◌*◌, ◌≡◌, refl, List, [], ◌∷◌, arith, length, drop, replicate}
use qo_srtp.Seq.{is_seq_after, is_seq_after_in_range}
use qo_srtp.Nack.Defs.{Nack, new_nack, shift_of, pack, pack_from, set_packet_ids}
use qo_srtp.Nack.Header.{CommonHeader, new_header, store_header, accepted}
use qo_srtp.Nack.Packing.{AreIncreasing}
use qo_srtp.Nack.Packet.{load_nack, loaded, store_nack, stored}
use qo_srtp.Nack.RoundTrip.{store_nack-load_nack}

-- Three items: the second begins at the wrap, the third where the mask of the second ends.
abbrev ids : List ℕ
ids = 65530 ∷ 65533 ∷ 1 ∷ 2 ∷ 40 ∷ []

packed_ids :
    pack ids
    ≡ record { first_pid = 65530; bitmask = 4 }
      ∷ record { first_pid = 1; bitmask = 1 }
      ∷ record { first_pid = 40; bitmask = 0 }
      ∷ []
unfolding pack pack_from shift_of
packed_ids = refl

ids-AreIncreasing : AreIncreasing ids
unfolding is_seq_after is_seq_after_in_range
ids-AreIncreasing = (
  omega arith,
  ((omega arith, refl, ((omega arith, refl, ((omega arith, refl, ((omega arith, refl, tt)))))))),
)

abbrev lost_ids : Nack
lost_ids = set_packet_ids ids (record new_nack { sender_ssrc = 7; media_ssrc = 8 })

store_nack-load_nack_example :
    let out = load_nack lost_ids (1 ∷ 2 ∷ replicate 30 0) 2 32 in
    (out.0 ≡ loaded)
    × (out.2 ≡ 2 + (12 + length (pack ids) * 4))
    × (parsed : CommonHeader) × (store_header (drop 2 out.1) 30 new_header ≡ accepted parsed)
    × (store_nack parsed ≡ stored lost_ids)
unfolding pack pack_from shift_of
store_nack-load_nack_example =
    store_nack-load_nack ids 7 8 (1 ∷ 2 ∷ []) (replicate 30 0) 32 30 new_header ids-AreIncreasing
      (omega arith) (omega arith) (omega arith) (omega arith) (omega arith) (omega arith)
      (omega arith)
