-- ===== src/ReceiverCache/Losses.antt =====
-- Which missing packets `SupplementLossSeqs` of src/rtp_rtcp/rtp_receiver.cc finds.
use qo_srtp.Common.{
  ℕ, ◌≤◌, ◌<◌, ◌≡◌, sym, ap, subst, ◌∙◌, ◌≢◌, inl, inr, true, false, ◌||◌, List, [], ◌∷◌, arith,
  Bool-cases, IsU16,
}
use qo_srtp.Seq.{is_next_seq}
use qo_srtp.Seq.Circle.{dist, is_next_seq_iff}
use qo_srtp.ReceiverCache.Defs.{CachedRtpPacket, PacketCache, seq_of}
use qo_srtp.ReceiverCache.Supplement.{supplement_loss_seqs}
use qo_srtp.ReceiverCache.Window.{
  InWindow, Descends, IsOrdered, dist-injective, InWindow-shift, InWindow-after,
}
use qo_srtp.ReceiverCache.Insert.{holds}
use qo_srtp.ReceiverCache.Gaps.{lost, in_gap, in_gaps, oldest, AllWords, lost-supplement_loss_seqs}

-- A gap's loops reach every number strictly inside it but 0.
in_gap_inside :
    (last_seq this_seq s : ℕ)
    → IsU16 last_seq
    → IsU16 this_seq
    → IsU16 s
    → s ≢ 0
    → 1 ≤ dist this_seq s
    → dist this_seq s < dist this_seq last_seq
    → in_gap last_seq this_seq s ≡ true
in_gap_inside last_seq this_seq s hl ht hs nz low high =
    elim (Bool-cases (is_next_seq this_seq last_seq)) [
      | inl next ↦
          let e = (is_next_seq_iff this_seq last_seq ht hl).0 next in absurd (omega (arith, e))
      | inr gap ↦ rw gap (ground arith)
    ]

module _ (base : ℕ) (hb : IsU16 base) (s : ℕ) (w : InWindow base s) (nz : s ≢ 0) where
  in_gaps_inside :
      (bound : ℕ) (p : CachedRtpPacket) (ps : List CachedRtpPacket)
      → Descends base bound (p ∷ ps)
      → dist base s < dist base (seq_of p)
      → holds s (p ∷ ps) ≡ false
      → (in_gaps (seq_of p) ps s || in_gap (oldest (seq_of p) ps) base s) ≡ true
  unfolding holds
  in_gaps_inside bound p [] d lt absent =
      in_gap_inside (seq_of p) base s d.0.word hb w.word nz w.low lt
  in_gaps_inside bound p (q ∷ qs) d lt absent =
      let wq = d.2.0 in
      let rest = in_gaps_inside (dist base (seq_of p)) q qs d.2 in
      let same = dist-injective base (seq_of q) s hb wq w in
      let to_s = InWindow-shift base (seq_of q) s hb wq w in
      let to_p = InWindow-shift base (seq_of q) (seq_of p) hb wq d.0 d.2.1 in
      ground (
        arith,
        rest,
        same,
        to_s,
        to_p,
        in_gap_inside (seq_of p) (seq_of q) s d.0.word wq.word w.word nz,
      )

Descends-AllWords :
    (base bound : ℕ) (ps : List CachedRtpPacket) → Descends base bound ps → AllWords ps
Descends-AllWords base bound [] d = tt
Descends-AllWords base bound (p ∷ ps) d =
    (d.0.word, Descends-AllWords base (dist base (seq_of p)) ps d.2)

-- Once a packet was handed over: every number between that and the newest cached packet, except 0,
-- is cached or becomes a loss.
pub supplement_loss_seqs_finds :
    (s : ℕ) (cache : PacketCache) (p : CachedRtpPacket) (ps : List CachedRtpPacket)
    → IsOrdered cache.latest_callback_seq cache
    → cache.has_callback_packet ≡ true
    → cache.cached_packets ≡ p ∷ ps
    → InWindow cache.latest_callback_seq s
    → dist cache.latest_callback_seq s < dist cache.latest_callback_seq (seq_of p)
    → s ≢ 0
    → holds s cache.cached_packets ≡ false
    → lost s (supplement_loss_seqs cache).loss_seqs ≡ true
supplement_loss_seqs_finds s cache p ps v called e w lt nz absent =
    let d : Descends cache.latest_callback_seq 32768 (p ∷ ps) =
      subst (Descends cache.latest_callback_seq 32768) e v.descends in
    let absent' : holds s (p ∷ ps) ≡ false = sym (ap (holds s) e) ∙ absent in
    ground (
      arith,
      lost-supplement_loss_seqs s cache p ps e v.word
          (Descends-AllWords cache.latest_callback_seq 32768 (p ∷ ps) d),
      in_gaps_inside cache.latest_callback_seq v.word s w nz 32768 p ps d lt absent',
      InWindow-after cache.latest_callback_seq s v.word w,
    )
