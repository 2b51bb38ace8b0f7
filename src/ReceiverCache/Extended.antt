-- ===== src/ReceiverCache/Extended.antt =====
-- The extended sequence numbers of `PutPacket` in src/rtp_rtcp/rtp_receiver.cc.
use qo_srtp.Common.{
  ℕ, ◌+◌, ◌%◌, ◌≤◌, ◌<◌, max, ◌≡◌, inl, inr, true, false, arith, Bool-cases, IsU32,
}
use qo_srtp.Seq.{is_seq_after}
use qo_srtp.Seq.Circle.{is_seq_after_iff}
use qo_srtp.ReceiverCache.Defs.{PacketCache}
use qo_srtp.ReceiverCache.Put.{update_extended}

module _ (h t : ℕ) (up : t < h + 32768) (down : h < t + 32768) where
  newer : h < t → is_seq_after (h % 65536) (t % 65536) ≡ true
  newer lt = (is_seq_after_iff (h % 65536) (t % 65536) (omega arith) (omega arith)).1 (omega arith)

  not_newer : t ≤ h → is_seq_after (h % 65536) (t % 65536) ≡ false
  not_newer le = elim (Bool-cases (is_seq_after (h % 65536) (t % 65536))) [
    | inl e ↦
        let d = (is_seq_after_iff (h % 65536) (t % 65536) (omega arith) (omega arith)).0 e in
        absurd (omega (arith, d.0, d.1))
    | inr e ↦ e
  ]

-- Sixteen bits suffice to follow the stream: if the true number `t` of a packet, counted without
-- wrapping, is less than 32768 away from the highest one, then the highest one becomes the greater
-- of the two, as long as it fits 32 bits.
pub update_extended-max :
    (t : ℕ) (cache : PacketCache)
    → cache.has_cached_packet ≡ true
    → IsU32 cache.extended_highest_seq
    → IsU32 t
    → t < cache.extended_highest_seq + 32768
    → cache.extended_highest_seq < t + 32768
    → (update_extended (t % 65536) cache).extended_highest_seq ≡ max cache.extended_highest_seq t
unfolding update_extended
update_extended-max t cache has hh ht up down = ground (
  arith,
  newer cache.extended_highest_seq t up down,
  not_newer cache.extended_highest_seq t up down,
)
