-- ===== src/Fec/Stalls.antt =====
-- When `UlpFecDecoder` of src/rtp_rtcp/ulp_fec.cc hands nothing over, or recovers nothing.
use qo_srtp.Common.{
  ℕ, ◌≤◌, ◌<◌, ◌≡◌, refl, ap, ◌∙◌, inl, inr, true, false, not, ◌&&◌, List, [], ◌∷◌, arith,
  Option-cases, All,
}
use qo_srtp.Seq.{is_seq_after_in_range, is_seq_after, is_seq_before}
use qo_srtp.RtpPacket.Defs.{RtpPacket}
use qo_srtp.Fec.Decoder.{CachedPacket}
use qo_srtp.Fec.Decode.{UlpFecDecoder, last_cached_seq, is_wanted, recover_missing}

not_wanted :
    (self : UlpFecDecoder) (seq : ℕ)
    → self.seq_last_output ≡ 0
    → 32769 ≤ seq
    → seq < 65536
    → is_wanted self seq ≡ false
unfolding is_wanted is_seq_before is_seq_after is_seq_after_in_range
not_wanted self seq e lo hi = elim (Option-cases (last_cached_seq self.cached_packets)) [
  | inl none_cached ↦ rw (is_wanted, none_cached) refl
  | inr (last, cached) ↦
      let before : is_seq_before seq 0 ≡ true = ground arith in
      let rest = not (is_seq_after last seq) in
      rw (is_wanted, cached) (ap (λ s. not (is_seq_before seq s) && rest) e ∙ rw before refl)
]

-- Before the first packet is handed over seq_last_output_ is 0, but RcoverPackets compares with it:
-- no missing packet with a number from 32769 to 65535 is recovered then, whatever FEC packet there
-- is.
pub recover_missing_before_output :
    (memory : ℕ → ℕ) (beyond : List ℕ) (self : UlpFecDecoder) (fec : CachedPacket) (seqs : List ℕ)
    → self.seq_last_output ≡ 0
    → All (λ seq. (32769 ≤ seq) × (seq < 65536)) seqs
    → recover_missing memory beyond self fec seqs ≡ self.cached_packets
unfolding recover_missing
recover_missing_before_output memory beyond self fec [] e h = refl
recover_missing_before_output memory beyond self fec (seq ∷ []) e ((lo, hi), _) =
    rw (recover_missing, not_wanted self seq e lo hi) refl
recover_missing_before_output memory beyond self fec (seq ∷ seq' ∷ seqs) e h = refl
