-- ===== src/ReceiverCache/Get.antt =====
-- `GetPackets` and `GetLossPacketSeqsForNack` of src/rtp_rtcp/rtp_receiver.cc.
use qo_srtp.Common.{
  ℕ, ◌+◌, Bool, true, not, ◌||◌, List, [], ◌∷◌, ◌++◌, reverse, leb, ◌==◌, if◌then◌else◌, length,
}
use qo_srtp.Seq.{is_next_seq}
use qo_srtp.RtpPacket.Defs.{RtpPacket}
use qo_srtp.ReceiverCache.Defs.{
  CachedRtpPacket, LossPacketSequenceNumber, PacketCache, nack_interval_ms, seq_of,
}

-- The first loop, over the packets from the oldest on: how many follow the latest one handed over
-- without a gap.
unfoldable pub count_ready : ℕ → List CachedRtpPacket → ℕ
count_ready latest_ready_seq [] = 0
count_ready latest_ready_seq (c ∷ cs) =
    let rest = count_ready (seq_of c) cs in
    if not (is_next_seq latest_ready_seq (seq_of c)) then 0 else rest + 1

unfoldable pub nb_ready_packet : PacketCache → ℕ
nb_ready_packet cache =
    if cache.has_callback_packet
    then count_ready cache.latest_callback_seq (reverse cache.cached_packets)
    else 0

-- The second loop, from the newest packet on: what it keeps, and what it takes from the first one
-- that is the newest ready packet (with `nb_ready` packets from there on) or has timed out.
unfoldable pub split_ready :
    ℕ → ℕ → List CachedRtpPacket → List CachedRtpPacket × List CachedRtpPacket
split_ready nb_ready utc_ms_now [] = ([], [])
split_ready nb_ready utc_ms_now (c ∷ cs) =
    let (kept, taken) = split_ready nb_ready utc_ms_now cs in
    if length (c ∷ cs) == nb_ready || leb c.packet_timeout_time_utc_ms utc_ms_now
    then ([], c ∷ cs)
    else (c ∷ kept, taken)

-- Each packet that is taken is put in front of `packets`.
unfoldable pub push_all : List CachedRtpPacket → List RtpPacket → List RtpPacket
push_all [] packets = packets
push_all (c ∷ cs) packets = push_all cs (c.packet ∷ packets)

unfoldable pub take_packets :
    PacketCache → List CachedRtpPacket × List CachedRtpPacket → PacketCache
take_packets cache (kept, []) = cache
take_packets cache (kept, c ∷ cs) = record cache {
  cached_packets = kept;
  latest_callback_seq = seq_of c;
  has_callback_packet = true;
}

unfoldable pub get_packets : ℕ → List RtpPacket → PacketCache → PacketCache × List RtpPacket
get_packets utc_ms_now packets cache =
    let parts = split_ready (nb_ready_packet cache) utc_ms_now cache.cached_packets in
    (take_packets cache parts, push_all parts.1 packets)

-- Whether a loss is reported now.
unfoldable pub is_due : ℕ → LossPacketSequenceNumber → Bool
is_due utc_ms_now l =
    not l.notified || leb (l.last_notify_time_utc_ms + nack_interval_ms) utc_ms_now

unfoldable pub notify : ℕ → LossPacketSequenceNumber → LossPacketSequenceNumber
notify utc_ms_now l =
    if is_due utc_ms_now l
    then record l { notified = true; last_notify_time_utc_ms = utc_ms_now }
    else l

-- The loop runs from the back of the list, so the numbers behind come first.
unfoldable pub notify_all :
    ℕ → List LossPacketSequenceNumber → List ℕ → List LossPacketSequenceNumber × List ℕ
notify_all utc_ms_now [] out = ([], out)
notify_all utc_ms_now (l ∷ ls) out =
    let (ls', out') = notify_all utc_ms_now ls out in
    (notify utc_ms_now l ∷ ls', if is_due utc_ms_now l then out' ++ (l.seq ∷ []) else out')

unfoldable pub get_loss_packet_seqs_for_nack : ℕ → List ℕ → PacketCache → PacketCache × List ℕ
get_loss_packet_seqs_for_nack utc_ms_now loss_packet_seqs cache =
    let (losses, out) = notify_all utc_ms_now cache.loss_seqs loss_packet_seqs in
    (record cache { loss_seqs = losses }, out)
