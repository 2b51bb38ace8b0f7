-- ===== src/Tests/Receiving.antt =====
-- src/rtp_rtcp/rtp_receiver.cc at concrete inputs.
use qo_srtp.Common.{
  ℕ, ◌%◌, ◌≤◌, ◌<◌, max, ◌≡◌, refl, ◌∙◌, true, false, not, ◌&&◌, ◌||◌, [], ◌∷◌, map, arith, ◌==◌,
  IsU16,
}
use qo_srtp.Seq.{is_seq_after_in_range, is_next_seq, is_seq_after, is_seq_before}
use qo_srtp.Seq.Circle.{dist}
use qo_srtp.RtpPacket.Defs.{RtpPacket, empty_packet}
use qo_srtp.ReceiverCache.Defs.{CachedRtpPacket, PacketCache, new_cache, new_loss}
use qo_srtp.ReceiverCache.Supplement.{walk_gaps, supplement_loss_seqs}
use qo_srtp.ReceiverCache.Put.{
  update_extended, back_seq, insert_before, insert_packet, accepts, store, put_packet,
}
use qo_srtp.ReceiverCache.Get.{
  count_ready, nb_ready_packet, split_ready, push_all, take_packets, get_packets,
}
use qo_srtp.ReceiverCache.Window.{InWindow, IsOrdered}
use qo_srtp.ReceiverCache.Insert.{holds, put_packet-IsOrdered}
use qo_srtp.ReceiverCache.Deliver.{IsDelivered, get_packets-IsDelivered}
use qo_srtp.ReceiverCache.History.{Arrival}
use qo_srtp.ReceiverCache.Gaps.{lost, in_cache_gaps, lost-supplement_loss_seqs}
use qo_srtp.ReceiverCache.Losses.{supplement_loss_seqs_finds}
use qo_srtp.ReceiverCache.Wrap.{future_losses}
use qo_srtp.ReceiverCache.Extended.{update_extended-max}

abbrev pub numbered : ℕ → RtpPacket
numbered n = record empty_packet { sequence_number = n }

abbrev pub cached : ℕ → CachedRtpPacket
cached n = record { packet = numbered n; packet_timeout_time_utc_ms = 500 }

-- Packet 65533 was handed over, and 2 and 65535 wait.
abbrev pub waiting : PacketCache
waiting = record (new_cache 500) {
  cached_packets = cached 2 ∷ cached 65535 ∷ [];
  latest_callback_seq = 65533;
  has_callback_packet = true;
  extended_highest_seq = 65538;
  extended_first_seq = 65533;
  has_cached_packet = true;
}

in_window : (s : ℕ) → IsU16 s → 1 ≤ dist 65533 s → dist 65533 s < 32768 → InWindow 65533 s
in_window s word low high = record { word = word; low = low; high = high }

pub waiting-IsOrdered : IsOrdered 65533 waiting
waiting-IsOrdered = record {
  word = omega arith;
  latest = λ h. refl;
  descends = (
    in_window 2 (omega arith) (omega arith) (omega arith),
    omega arith,
    (in_window 65535 (omega arith) (omega arith) (omega arith), omega arith, tt),
  );
}

-- Packet 65534 arrives: it and 65535 are handed over; then 1 is still missing.
gap_closes :
    map (λ p. p.sequence_number) (get_packets 100 [] (put_packet (numbered 65534) 100 waiting)).1
    ≡ 65534 ∷ 65535 ∷ []
unfolding get_packets put_packet store insert_packet insert_before back_seq accepts update_extended
    supplement_loss_seqs nb_ready_packet count_ready split_ready push_all take_packets is_next_seq
    is_seq_after is_seq_after_in_range is_seq_before walk_gaps
gap_closes = refl

put_packet-IsOrdered_example :
    IsOrdered 65533 (put_packet (numbered 65534) 100 waiting)
    × ((s : ℕ)
        → holds s (put_packet (numbered 65534) 100 waiting).cached_packets
          ≡ (holds s waiting.cached_packets || (accepts waiting 65534 && 65534 == s)))
    × (accepts waiting 65534 ≡ false → put_packet (numbered 65534) 100 waiting ≡ waiting)
put_packet-IsOrdered_example =
    put_packet-IsOrdered 65533 (numbered 65534) 100 waiting waiting-IsOrdered (omega arith)
      (λ fresh. absurd (cc))

get_packets-IsDelivered_example :
    IsDelivered 65533 600 waiting (get_packets 600 [] waiting).0 (get_packets 600 [] waiting).1
get_packets-IsDelivered_example = get_packets-IsDelivered 65533 600 waiting waiting-IsOrdered

abbrev arrival : ℕ → ℕ → Arrival
arrival seq now = record { packet = numbered seq; put_time = now; nack_time = now; get_time = now }

lost-supplement_loss_seqs_example : lost 1 (supplement_loss_seqs waiting).loss_seqs ≡ (
    (lost 1 waiting.loss_seqs || in_cache_gaps waiting (cached 2) (cached 65535 ∷ []) 1)
    && (not true || is_seq_after 65533 1))
lost-supplement_loss_seqs_example =
    lost-supplement_loss_seqs 1 waiting (cached 2) (cached 65535 ∷ []) refl (omega arith)
      (omega arith)

supplement_loss_seqs_finds_example : lost 1 (supplement_loss_seqs waiting).loss_seqs ≡ true
supplement_loss_seqs_finds_example =
    supplement_loss_seqs_finds 1 waiting (cached 2) (cached 65535 ∷ []) waiting-IsOrdered refl refl
      (in_window 1 (omega arith) (omega arith) (omega arith)) (omega arith) (omega arith)
      (unfold holds in refl)

abbrev one_lost : PacketCache
one_lost = record waiting { loss_seqs = new_loss 0 ∷ [] }

zero_still_lost : lost 0 (supplement_loss_seqs one_lost).loss_seqs ≡ true
unfolding is_next_seq is_seq_after is_seq_after_in_range
zero_still_lost =
    lost-supplement_loss_seqs 0 one_lost (cached 2) (cached 65535 ∷ []) refl (omega arith)
      (omega arith)
    ∙ (unfold lost in refl)

after_ten : is_seq_after 65533 10 ≡ true
unfolding is_seq_after is_seq_after_in_range
after_ten = refl

future_losses_example :
    lost 10 (supplement_loss_seqs (record waiting { cached_packets = cached 0 ∷ [] })).loss_seqs
    ≡ true
future_losses_example =
    future_losses 10 (record waiting { cached_packets = cached 0 ∷ [] }) (cached 0) refl refl refl
      (omega arith) (omega arith) (omega arith) (omega arith) after_ten

update_extended-max_example :
    (update_extended (65540 % 65536) waiting).extended_highest_seq ≡ max 65538 65540
update_extended-max_example =
    update_extended-max 65540 waiting refl (omega arith) (omega arith) (omega arith) (omega arith)
