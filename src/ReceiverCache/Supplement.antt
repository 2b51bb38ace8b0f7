-- ===== src/ReceiverCache/Supplement.antt =====
-- `SupplementLossSeqs` of src/rtp_rtcp/rtp_receiver.cc: the sequence numbers between the cached
-- packets join the list of losses.
use qo_srtp.Common.{
  ℕ, zero, suc, ◌+◌, ◌-◌, Bool, true, false, not, List, [], ◌∷◌, ◌++◌, reverse, ltb, ◌==◌,
  if◌then◌else◌, u32, sub16,
}
use qo_srtp.Seq.{is_seq_before, is_next_seq}
use qo_srtp.ReceiverCache.Defs.{
  CachedRtpPacket, LossPacketSequenceNumber, PacketCache, seq_of, new_loss,
}

-- `loss_seqs_` cut at `iter_insert_pos`: what the iterator has passed, last first, and what it has
-- not; and the counter of losses.
pub record Cursor : Type 0 where
  pub passed : List LossPacketSequenceNumber
  pub ahead : List LossPacketSequenceNumber
  pub count : ℕ

-- The inner loop: whether `loss_seq` needs to be inserted, and where the iterator stops.
unfoldable pub seek :
    ℕ
    → List LossPacketSequenceNumber
    → List LossPacketSequenceNumber
    → Bool × List LossPacketSequenceNumber × List LossPacketSequenceNumber
seek loss_seq passed [] = (true, passed, [])
seek loss_seq passed (l ∷ ls) =
    let next = seek loss_seq (l ∷ passed) ls in
    if loss_seq == l.seq
    then (false, passed, l ∷ ls)
    else if not (is_seq_before loss_seq l.seq)
    then (true, passed, l ∷ ls)
    else next

-- One round of a loop over `loss_seq`.
unfoldable pub supplement_one : ℕ → Cursor → Cursor
supplement_one loss_seq c =
    let (need_insert, passed, ahead) = seek loss_seq c.passed c.ahead in
    if need_insert
    then record { passed = new_loss loss_seq ∷ passed; ahead = ahead; count = u32 (c.count + 1) }
    else record { passed = passed; ahead = ahead; count = c.count }

-- `for (loss_seq = bound + rounds; loss_seq > bound; --loss_seq)`.
unfoldable pub supplement_down : ℕ → ℕ → Cursor → Cursor
supplement_down bound zero c = c
supplement_down bound (suc n) c = supplement_down bound n (supplement_one (bound + suc n) c)

-- `func_get_loss_seqs`. Where the start of a loop is not above its bound, it makes no round.
unfoldable pub get_loss_seqs : ℕ → ℕ → Cursor → Cursor
get_loss_seqs last_seq this_seq c =
    if ltb this_seq last_seq
    then supplement_down this_seq (sub16 last_seq 1 - this_seq) c
    else supplement_down this_seq (65535 - this_seq) (supplement_down 0 (sub16 last_seq 1) c)

unfoldable pub supplement_gap : ℕ → ℕ → Cursor → Cursor
supplement_gap last_seq this_seq c =
    if not (is_next_seq this_seq last_seq) then get_loss_seqs last_seq this_seq c else c

-- The loop over the cached packets behind the one with `last_seq`; also the last one's number.
unfoldable pub supplement_gaps : ℕ → List CachedRtpPacket → Cursor → ℕ × Cursor
supplement_gaps last_seq [] c = (last_seq, c)
supplement_gaps last_seq (p ∷ ps) c =
    supplement_gaps (seq_of p) ps (supplement_gap last_seq (seq_of p) c)

-- Losses that are not after the latest packet handed over are forgotten.
unfoldable pub erase_old : ℕ → List LossPacketSequenceNumber → List LossPacketSequenceNumber
erase_old latest [] = []
erase_old latest (l ∷ ls) =
    if not (is_seq_before latest l.seq) then erase_old latest ls else l ∷ erase_old latest ls

-- The losses and their counter, once every gap is walked.
unfoldable pub walk_gaps : PacketCache → Cursor
walk_gaps cache = elim cache.cached_packets [
  | [] ↦ record { passed = []; ahead = cache.loss_seqs; count = cache.cumulative_packets_loss }
  | p ∷ ps ↦
      let start : Cursor = record {
        passed = [];
        ahead = cache.loss_seqs;
        count = cache.cumulative_packets_loss;
      } in
      let (last_seq, c) = supplement_gaps (seq_of p) ps start in
      if cache.has_callback_packet then supplement_gap last_seq cache.latest_callback_seq c else c
]

-- The list that a cursor cuts.
unfoldable pub whole : Cursor → List LossPacketSequenceNumber
whole c = reverse c.passed ++ c.ahead

-- The code reads the first cached packet without a test; its one caller has just put one there.
unfoldable pub supplement_loss_seqs : PacketCache → PacketCache
supplement_loss_seqs cache =
    let c = walk_gaps cache in
    record cache {
      loss_seqs =
          if cache.has_callback_packet
          then erase_old cache.latest_callback_seq (whole c)
          else whole c;
      cumulative_packets_loss = c.count;
    }
