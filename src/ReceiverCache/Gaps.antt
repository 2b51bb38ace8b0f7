-- ===== src/ReceiverCache/Gaps.antt =====
-- Which numbers `SupplementLossSeqs` of src/rtp_rtcp/rtp_receiver.cc adds to the losses.
use mathlib.Core.List.{append_assoc, reverse-cons}
use qo_srtp.Common.{
  ℕ, zero, suc, ◌+◌, ◌-◌, ◌≡◌, refl, ap, ◌∙◌, inl, inr, Bool, true, false, not, ◌&&◌, ◌||◌, List,
  [], ◌∷◌, ◌++◌, reverse, arith, ltb, leb, ◌==◌, if◌then◌else◌, ==_iff, Bool-cases, All, IsU16,
  sub16,
}
use qo_srtp.Seq.{is_seq_before, is_seq_after, is_next_seq}
use qo_srtp.ReceiverCache.Defs.{
  CachedRtpPacket, LossPacketSequenceNumber, PacketCache, seq_of, new_loss,
}
use qo_srtp.ReceiverCache.Supplement.{
  Cursor, seek, supplement_one, supplement_down, get_loss_seqs, supplement_gap, supplement_gaps,
  erase_old, walk_gaps, whole, supplement_loss_seqs,
}

-- The number `s` is among the losses.
unfoldable pub lost : ℕ → List LossPacketSequenceNumber → Bool
lost s [] = false
lost s (l ∷ ls) = l.seq == s || lost s ls

lost-append :
    (s : ℕ) (xs ys : List LossPacketSequenceNumber) → lost s (xs ++ ys) ≡ (lost s xs || lost s ys)
unfolding lost
lost-append s [] ys = refl
lost-append s (x ∷ xs) ys = ground (arith, lost-append s xs ys)

-- The inner loop only moves the iterator; it stops before the number itself if it finds that.
seek_keeps :
    (v : ℕ) (passed ahead : List LossPacketSequenceNumber)
    → let (need, passed', ahead') = seek v passed ahead in
      (reverse passed' ++ ahead' ≡ reverse passed ++ ahead) × (need ≡ false → lost v ahead' ≡ true)
unfolding seek lost
seek_keeps v passed [] = (refl, λ h. cc)
seek_keeps v passed (l ∷ ls) = ground (
  arith,
  seek_keeps v (l ∷ passed) ls,
  ap (λ x. x ++ ls) (reverse-cons l passed) ∙ append_assoc (reverse passed) (l ∷ []) ls,
)

inserted :
    (s v : ℕ) (passed ahead w : List LossPacketSequenceNumber)
    → reverse passed ++ ahead ≡ w
    → lost s (reverse (new_loss v ∷ passed) ++ ahead) ≡ (lost s w || v == s)
unfolding lost
inserted s v passed ahead w e = ground (
  arith,
  ap (λ x. x ++ ahead) (reverse-cons (new_loss v) passed)
      ∙ append_assoc (reverse passed) (new_loss v ∷ []) ahead,
  lost-append s (reverse passed) (new_loss v ∷ ahead),
  lost-append s (reverse passed) ahead,
)

kept :
    (s v : ℕ) (passed ahead w : List LossPacketSequenceNumber)
    → reverse passed ++ ahead ≡ w
    → lost v ahead ≡ true
    → lost s (reverse passed ++ ahead) ≡ (lost s w || v == s)
kept s v passed ahead w e h = elim (Bool-cases (v == s)) [
  | inl same ↦
      let e' : v ≡ s = (==_iff v s).0 same in
      ground (arith, lost-append s (reverse passed) ahead, ap (λ t. lost t ahead) e')
  | inr other ↦ ground arith
]

lost-supplement_one :
    (s v : ℕ) (c : Cursor) → lost s (whole (supplement_one v c)) ≡ (lost s (whole c) || v == s)
unfolding supplement_one whole
lost-supplement_one s v c =
    let (need, passed, ahead) = seek v c.passed c.ahead in
    let (same, found) = seek_keeps v c.passed c.ahead in
    elim (Bool-cases need) [
      | inl new ↦ rw new (inserted s v passed ahead _ same)
      | inr old ↦ rw old (kept s v passed ahead _ same (found old))
    ]

-- A round for each number above `bound`, down from the start.
lost-supplement_down :
    (s bound n : ℕ) (c : Cursor)
    → lost s (whole (supplement_down bound n c))
      ≡ (lost s (whole c) || (ltb bound s && leb s (bound + n)))
unfolding supplement_down
lost-supplement_down s bound zero c = ground arith
lost-supplement_down s bound (suc n) c = ground (
  arith,
  lost-supplement_down s bound n (supplement_one (bound + suc n) c),
  lost-supplement_one s (bound + suc n) c,
)

-- The numbers that `func_get_loss_seqs` goes through. Where the numbers have wrapped round between
-- the two packets, its loops run from `last_seq - 1` down to 1, and from 65535 down.
abbrev pub walked : ℕ → ℕ → ℕ → Bool
walked last_seq this_seq s =
    if ltb this_seq last_seq
    then ltb this_seq s && ltb s last_seq
    else ltb 0 s && leb s (sub16 last_seq 1) || ltb this_seq s && leb s 65535

lost-get_loss_seqs :
    (s last_seq this_seq : ℕ) (c : Cursor)
    → IsU16 last_seq
    → IsU16 this_seq
    → lost s (whole (get_loss_seqs last_seq this_seq c))
      ≡ (lost s (whole c) || walked last_seq this_seq s)
unfolding get_loss_seqs
lost-get_loss_seqs s last_seq this_seq c hl ht = ground (
  arith,
  lost-supplement_down s this_seq (sub16 last_seq 1 - this_seq) c,
  lost-supplement_down s this_seq (65535 - this_seq) (supplement_down 0 (sub16 last_seq 1) c),
  lost-supplement_down s 0 (sub16 last_seq 1) c,
)

abbrev pub in_gap : ℕ → ℕ → ℕ → Bool
in_gap last_seq this_seq s = not (is_next_seq this_seq last_seq) && walked last_seq this_seq s

lost-supplement_gap :
    (s last_seq this_seq : ℕ) (c : Cursor)
    → IsU16 last_seq
    → IsU16 this_seq
    → lost s (whole (supplement_gap last_seq this_seq c))
      ≡ (lost s (whole c) || in_gap last_seq this_seq s)
unfolding supplement_gap
lost-supplement_gap s last_seq this_seq c hl ht =
    ground (arith, lost-get_loss_seqs s last_seq this_seq c hl ht)

abbrev pub in_gaps : ℕ → List CachedRtpPacket → ℕ → Bool
in_gaps last_seq [] s = false
in_gaps last_seq (p ∷ ps) s = in_gap last_seq (seq_of p) s || in_gaps (seq_of p) ps s

abbrev pub oldest : ℕ → List CachedRtpPacket → ℕ
oldest last_seq [] = last_seq
oldest last_seq (p ∷ ps) = oldest (seq_of p) ps

abbrev pub AllWords : List CachedRtpPacket → Type 0
AllWords ps = All (λ p. IsU16 (seq_of p)) ps

lost-supplement_gaps :
    (s last_seq : ℕ) (ps : List CachedRtpPacket) (c : Cursor)
    → IsU16 last_seq
    → AllWords ps
    → ((supplement_gaps last_seq ps c).0 ≡ oldest last_seq ps)
      × (lost s (whole (supplement_gaps last_seq ps c).1)
          ≡ (lost s (whole c) || in_gaps last_seq ps s))
unfolding supplement_gaps
lost-supplement_gaps s last_seq [] c hl hp = (refl, ground arith)
lost-supplement_gaps s last_seq (p ∷ ps) c hl hp =
    let (end, rest) =
      lost-supplement_gaps s (seq_of p) ps (supplement_gap last_seq (seq_of p) c) hp.0 hp.1 in
    (end, ground (arith, rest, lost-supplement_gap s last_seq (seq_of p) c hl hp.0))

lost-erase_old :
    (s latest : ℕ) (ls : List LossPacketSequenceNumber)
    → lost s (erase_old latest ls) ≡ (lost s ls && is_seq_after latest s)
unfolding erase_old lost is_seq_before
lost-erase_old s latest [] = refl
lost-erase_old s latest (l ∷ ls) = elim (Bool-cases (l.seq == s)) [
  | inl same ↦
      let e = ap (is_seq_after latest) ((==_iff l.seq s).0 same) in
      ground (arith, lost-erase_old s latest ls, e)
  | inr other ↦ ground (arith, lost-erase_old s latest ls)
]

-- The numbers in the gaps of the cache, from its newest packet down to the latest one handed over.
abbrev pub in_cache_gaps : PacketCache → CachedRtpPacket → List CachedRtpPacket → ℕ → Bool
in_cache_gaps cache p ps s =
    in_gaps (seq_of p) ps s
    || cache.has_callback_packet && in_gap (oldest (seq_of p) ps) cache.latest_callback_seq s

oldest-IsU16 :
    (last_seq : ℕ) (ps : List CachedRtpPacket)
    → IsU16 last_seq
    → AllWords ps
    → IsU16 (oldest last_seq ps)
oldest-IsU16 last_seq [] hl hp = hl
oldest-IsU16 last_seq (p ∷ ps) hl hp = oldest-IsU16 (seq_of p) ps hp.0 hp.1

lost-walk_gaps :
    (s : ℕ) (cache : PacketCache) (p : CachedRtpPacket) (ps : List CachedRtpPacket)
    → cache.cached_packets ≡ p ∷ ps
    → IsU16 cache.latest_callback_seq
    → AllWords (p ∷ ps)
    → lost s (whole (walk_gaps cache)) ≡ (lost s cache.loss_seqs || in_cache_gaps cache p ps s)
unfolding walk_gaps
lost-walk_gaps s cache p ps e hl hp =
    let start : Cursor = record {
      passed = [];
      ahead = cache.loss_seqs;
      count = cache.cumulative_packets_loss;
    } in
    let (end, rest) = lost-supplement_gaps s (seq_of p) ps start hp.0 hp.1 in
    let begin : whole start ≡ cache.loss_seqs = unfold whole in refl in
    let gap =
      lost-supplement_gap s (oldest (seq_of p) ps) cache.latest_callback_seq
        (supplement_gaps (seq_of p) ps start).1 (oldest-IsU16 (seq_of p) ps hp.0 hp.1) hl in
    rw e (ground (arith, end, rest, ap (lost s) begin, gap))

-- What `SupplementLossSeqs` leaves among the losses: what was there and what lies in a gap of the
-- cache, and of these, once a packet was handed over, only what is after that.
pub lost-supplement_loss_seqs :
    (s : ℕ) (cache : PacketCache) (p : CachedRtpPacket) (ps : List CachedRtpPacket)
    → cache.cached_packets ≡ p ∷ ps
    → IsU16 cache.latest_callback_seq
    → AllWords (p ∷ ps)
    → lost s (supplement_loss_seqs cache).loss_seqs ≡ (
        (lost s cache.loss_seqs || in_cache_gaps cache p ps s)
        && (not cache.has_callback_packet || is_seq_after cache.latest_callback_seq s))
unfolding supplement_loss_seqs
lost-supplement_loss_seqs s cache p ps e hl hp = ground (
  arith,
  lost-walk_gaps s cache p ps e hl hp,
  lost-erase_old s cache.latest_callback_seq (whole (walk_gaps cache)),
)
