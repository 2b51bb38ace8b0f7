-- ===== src/ReceiverCache/Nack.antt =====
-- `GetLossPacketSeqsForNack` of src/rtp_rtcp/rtp_receiver.cc: which losses are reported, and when.
use qo_srtp.Common.{ℕ, ◌+◌, ◌<◌, ◌≡◌, true, List, [], ◌∷◌, ◌++◌, if◌then◌else◌, All}
use qo_srtp.ReceiverCache.Defs.{LossPacketSequenceNumber, nack_interval_ms}
use qo_srtp.ReceiverCache.Get.{is_due}

-- The numbers that are due at a time, the last in the list first: the smallest one first.
pub due_seqs : ℕ → List LossPacketSequenceNumber → List ℕ
due_seqs now [] = []
due_seqs now (l ∷ ls) = due_seqs now ls ++ (if is_due now l then l.seq ∷ [] else [])

-- Behind the call at `now` every loss is notified, and none is due before its interval is over.
abbrev pub IsQuiet : ℕ → List LossPacketSequenceNumber → Type 0
IsQuiet now ls =
    All (λ l. (l.notified ≡ true) × (now < l.last_notify_time_utc_ms + nack_interval_ms)) ls
