-- ===== src/ReceiverCache/Wrap.antt =====
-- `SupplementLossSeqs` of src/rtp_rtcp/rtp_receiver.cc where the sequence numbers wrap round.
use qo_srtp.Common.{
  ℕ, ◌≡◌, refl, ◌≢◌, inl, inr, true, false, List, [], ◌∷◌, arith, Bool-cases, IsU16,
}
use qo_srtp.Seq.{is_next_seq, is_seq_after}
use qo_srtp.Seq.Circle.{is_next_seq_iff}
use qo_srtp.ReceiverCache.Defs.{CachedRtpPacket, PacketCache, seq_of}
use qo_srtp.ReceiverCache.Supplement.{supplement_loss_seqs}
use qo_srtp.ReceiverCache.Gaps.{lost, in_gaps, AllWords, lost-supplement_loss_seqs}

in_gaps-zero : (last_seq : ℕ) (ps : List CachedRtpPacket) → in_gaps last_seq ps 0 ≡ false
in_gaps-zero last_seq [] = refl
in_gaps-zero last_seq (p ∷ ps) = ground (arith, in_gaps-zero (seq_of p) ps)

-- The loops stop above 0, so the number 0 never becomes a loss: it is one afterwards only if it was
-- one before, also when it lies in a gap.
pub zero_never_lost :
    (cache : PacketCache) (p : CachedRtpPacket) (ps : List CachedRtpPacket)
    → cache.cached_packets ≡ p ∷ ps
    → IsU16 cache.latest_callback_seq
    → AllWords (p ∷ ps)
    → lost 0 (supplement_loss_seqs cache).loss_seqs ≡ true
    → lost 0 cache.loss_seqs ≡ true
zero_never_lost cache p ps e hl hp h =
    ground (arith, lost-supplement_loss_seqs 0 cache p ps e hl hp, in_gaps-zero (seq_of p) ps)

-- If packet 0 is the only one that is cached and there is a gap before it, then every number but 0
-- that is after the latest one handed over becomes a loss, and so also the numbers after 0, which
-- were not sent yet: `last_seq - 1` wraps to 65535.
pub future_losses :
    (s : ℕ) (cache : PacketCache) (p : CachedRtpPacket)
    → cache.cached_packets ≡ p ∷ []
    → seq_of p ≡ 0
    → cache.has_callback_packet ≡ true
    → IsU16 cache.latest_callback_seq
    → cache.latest_callback_seq ≢ 65535
    → IsU16 s
    → s ≢ 0
    → is_seq_after cache.latest_callback_seq s ≡ true
    → lost s (supplement_loss_seqs cache).loss_seqs ≡ true
future_losses s cache p e zero_seq called hl gap hs nz after =
    ground (arith, lost-supplement_loss_seqs s cache p [] e hl (omega arith, tt), not_next)
  where
    not_next : is_next_seq cache.latest_callback_seq (seq_of p) ≡ false
    not_next = elim (Bool-cases (is_next_seq cache.latest_callback_seq (seq_of p))) [
      | inl next ↦
          let d = (is_next_seq_iff cache.latest_callback_seq (seq_of p) hl (omega arith)).0 next in
          absurd (omega (arith, d))
      | inr no_next ↦ no_next
    ]
