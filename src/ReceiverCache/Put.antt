-- ===== src/ReceiverCache/Put.antt =====
-- `PutPacket` of src/rtp_rtcp/rtp_receiver.cc.
use qo_srtp.Common.{
  ℕ, ◌+◌, ◌*◌, ◌/◌, ◌%◌, Bool, true, not, ◌&&◌, ◌||◌, List, [], ◌∷◌, ◌++◌, ltb, ◌==◌, if◌then◌else◌,
  u16,
}
use qo_srtp.Seq.{is_seq_after}
use qo_srtp.RtpPacket.Defs.{RtpPacket}
use qo_srtp.ReceiverCache.Defs.{CachedRtpPacket, LossPacketSequenceNumber, PacketCache, seq_of}
use qo_srtp.ReceiverCache.Supplement.{supplement_loss_seqs}

-- `extended_highest_seq_` and `extended_first_seq_`. The upper half counts the wraps.
unfoldable pub update_extended : ℕ → PacketCache → PacketCache
update_extended packet_seq cache =
    let latest_cached_seq = cache.extended_highest_seq % 65536 in
    let old_num = cache.extended_highest_seq / 65536 in
    let is_newer = is_seq_after latest_cached_seq packet_seq in
    let num_extended =
      if is_newer && ltb packet_seq latest_cached_seq then u16 (old_num + 1) else old_num in
    if cache.has_cached_packet
    then record cache {
      extended_highest_seq =
          if is_newer then num_extended * 65536 + packet_seq else cache.extended_highest_seq;
      extended_first_seq =
          if num_extended == 0 && ltb packet_seq cache.extended_first_seq
          then packet_seq
          else cache.extended_first_seq;
    }
    else record cache { extended_highest_seq = packet_seq; extended_first_seq = packet_seq }

-- The sequence number of `cached_packets_.back()`.
unfoldable pub back_seq : CachedRtpPacket → List CachedRtpPacket → ℕ
back_seq c [] = seq_of c
back_seq c (d ∷ ds) = back_seq d ds

-- The loop that looks for the place of a new packet. One with a number that is there already is
-- dropped, and so is one for which the loop finds no place.
unfoldable pub insert_before : CachedRtpPacket → List CachedRtpPacket → List CachedRtpPacket
insert_before new [] = []
insert_before new (c ∷ cs) =
    if seq_of c == seq_of new
    then c ∷ cs
    else if is_seq_after (seq_of c) (seq_of new)
    then new ∷ (c ∷ cs)
    else c ∷ insert_before new cs

unfoldable pub insert_packet : CachedRtpPacket → List CachedRtpPacket → List CachedRtpPacket
insert_packet new [] = new ∷ []
insert_packet new (c ∷ cs) =
    if is_seq_after (seq_of new) (back_seq c cs)
    then (c ∷ cs) ++ (new ∷ [])
    else insert_before new (c ∷ cs)

-- The first loss with the number of the packet is erased.
unfoldable pub erase_loss : ℕ → List LossPacketSequenceNumber → List LossPacketSequenceNumber
erase_loss packet_seq [] = []
erase_loss packet_seq (l ∷ ls) = if l.seq == packet_seq then ls else l ∷ erase_loss packet_seq ls

-- Whether `PutPacket` goes on behind its first test.
unfoldable pub accepts : PacketCache → ℕ → Bool
accepts cache packet_seq =
    not cache.has_callback_packet || is_seq_after cache.latest_callback_seq packet_seq

-- The state before `SupplementLossSeqs` runs. `utc_ms_now` is the clock's answer, a `uint64_t`.
unfoldable pub store : RtpPacket → ℕ → PacketCache → PacketCache
store packet utc_ms_now cache =
    let packet_seq = packet.sequence_number in
    let extended = update_extended packet_seq cache in
    let new : CachedRtpPacket = record {
      packet = packet;
      packet_timeout_time_utc_ms =
          (cache.max_cache_duration_ms + utc_ms_now) % 18446744073709551616;
    } in
    record extended {
      cached_packets = insert_packet new cache.cached_packets;
      loss_seqs = erase_loss packet_seq cache.loss_seqs;
    }

unfoldable pub put_packet : RtpPacket → ℕ → PacketCache → PacketCache
put_packet packet utc_ms_now cache =
    let supplemented = supplement_loss_seqs (store packet utc_ms_now cache) in
    if accepts cache packet.sequence_number
    then record supplemented { has_cached_packet = true }
    else cache
