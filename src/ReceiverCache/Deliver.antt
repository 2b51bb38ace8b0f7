-- ===== src/ReceiverCache/Deliver.antt =====
-- `GetPackets` of src/rtp_rtcp/rtp_receiver.cc hands packets over in order.
use mathlib.Core.List.{append-nil}
use qo_srtp.Common.{
  ℕ, ◌+◌, ◌≤◌, ◌<◌, ◌≡◌, refl, sym, subst, ◌∙◌, true, List, [], ◌∷◌, ◌++◌, reverse, arith, length,
  All, length-reverse, IsU16,
}
use qo_srtp.Seq.{is_seq_after}
use qo_srtp.Seq.Circle.{dist}
use qo_srtp.RtpPacket.Defs.{RtpPacket}
use qo_srtp.ReceiverCache.Defs.{CachedRtpPacket, PacketCache, seq_of}
use qo_srtp.ReceiverCache.Get.{
  count_ready, nb_ready_packet, split_ready, push_all, take_packets, get_packets,
}
use qo_srtp.ReceiverCache.Window.{
  InWindow, Descends, IsOrdered, lt-after, InWindow-after, InWindow-shift,
}

-- Each packet is after the one in front of it, and the first one is after `s`.
abbrev pub Follows : ℕ → List RtpPacket → Type 0
Follows s [] = Unit {0}
Follows s (p ∷ ps) = (is_seq_after s p.sequence_number ≡ true) × Follows p.sequence_number ps

-- The number of the last packet, or `s` if there is none.
abbrev pub last_seq : ℕ → List RtpPacket → ℕ
last_seq s [] = s
last_seq s (p ∷ ps) = last_seq p.sequence_number ps

pub Follows-append :
    (s : ℕ) (xs ys : List RtpPacket)
    → Follows s xs
    → Follows (last_seq s xs) ys
    → Follows s (xs ++ ys)
Follows-append s [] ys f g = g
Follows-append s (x ∷ xs) ys f g = (f.0, Follows-append x.sequence_number xs ys f.1 g)

pub split_ready-append :
    (nb now : ℕ) (cs : List CachedRtpPacket)
    → (split_ready nb now cs).0 ++ (split_ready nb now cs).1 ≡ cs
unfolding split_ready
split_ready-append nb now [] = refl
split_ready-append nb now (c ∷ cs) = ground (arith, split_ready-append nb now cs)

abbrev pub InTime : ℕ → CachedRtpPacket → Type 0
InTime now c = now < c.packet_timeout_time_utc_ms

pub split_ready-InTime :
    (nb now : ℕ) (cs : List CachedRtpPacket) → All (InTime now) (split_ready nb now cs).0
unfolding split_ready
split_ready-InTime nb now [] = tt
split_ready-InTime nb now (c ∷ cs) = ground (arith, split_ready-InTime nb now cs)

module _ (base : ℕ) (hb : IsU16 base) where
  suffix-lower :
      (bound : ℕ) (ks : List CachedRtpPacket) (c : CachedRtpPacket) (cs : List CachedRtpPacket)
      → Descends base bound (ks ++ (c ∷ cs))
      → InWindow base (seq_of c) × (dist base (seq_of c) < bound) × Descends base bound (c ∷ cs)
  suffix-lower bound [] c cs d = (d.0, d.1, d)
  suffix-lower bound (k ∷ ks) c cs d =
      let rest = suffix-lower (dist base (seq_of k)) ks c cs d.2 in
      (rest.0, omega (arith, rest.1, d.1), (rest.0, omega (arith, rest.1, d.1), rest.2.2))

  -- Seen from a packet of the list, those in front of it are in order too.
  rebase :
      (bound bound' : ℕ) (ks : List CachedRtpPacket) (c : CachedRtpPacket)
      (cs : List CachedRtpPacket)
      → Descends base bound (ks ++ (c ∷ cs))
      → bound ≤ bound' + dist base (seq_of c)
      → Descends (seq_of c) bound' ks
  rebase bound bound' [] c cs d h = tt
  rebase bound bound' (k ∷ ks) c cs d h =
      let low = suffix-lower (dist base (seq_of k)) ks c cs d.2 in
      let shift = InWindow-shift base (seq_of c) (seq_of k) hb low.0 d.0 low.1 in
      (
        shift.0,
        omega (arith, shift.1, d.1, h),
        rebase (dist base (seq_of k)) (dist (seq_of c) (seq_of k)) ks c cs d.2
            (omega (arith, shift.1)),
      )

  push_all-Follows :
      (bound : ℕ) (cs : List CachedRtpPacket) (acc : List RtpPacket)
      → Descends base bound cs
      → ((s : ℕ) → InWindow base s → dist base s < bound → Follows s acc)
      → Follows base acc
      → Follows base (push_all cs acc)
  unfolding push_all
  push_all-Follows bound [] acc d above f = f
  push_all-Follows bound (c ∷ cs) acc d above f =
      push_all-Follows (dist base (seq_of c)) cs (c.packet ∷ acc) d.2
        (λ s w h. (lt-after base s (seq_of c) hb w d.0 h, above (seq_of c) d.0 d.1))
        (InWindow-after base (seq_of c) hb d.0, above (seq_of c) d.0 d.1)

last_seq-push_all :
    (s : ℕ) (cs : List CachedRtpPacket) (p : RtpPacket) (acc : List RtpPacket)
    → last_seq s (push_all cs (p ∷ acc)) ≡ last_seq p.sequence_number acc
unfolding push_all
last_seq-push_all s [] p acc = refl
last_seq-push_all s (c ∷ cs) p acc = last_seq-push_all s cs c.packet (p ∷ acc)

-- What `GetPackets` does to an ordered cache: the packets handed over are the old end of the
-- cache, oldest first; each is after the one before it and the first one after `base`. The cache
-- keeps the rest, in order as seen from the last packet handed over, and none of these has timed
-- out.
pub record IsDelivered (base now : ℕ) (cache after : PacketCache) (out : List RtpPacket)
    : Type 0 where
  pub taken : List CachedRtpPacket
  pub split : after.cached_packets ++ taken ≡ cache.cached_packets
  pub handed : out ≡ push_all taken []
  pub follows : Follows base out
  pub ordered : IsOrdered (last_seq base out) after
  pub in_time : All (InTime now) after.cached_packets

take_packets-IsDelivered :
    (base now : ℕ) (cache : PacketCache) (kept taken : List CachedRtpPacket)
    → IsOrdered base cache
    → kept ++ taken ≡ cache.cached_packets
    → All (InTime now) kept
    → IsDelivered base now cache (take_packets cache (kept, taken)) (push_all taken [])
unfolding take_packets push_all
take_packets-IsDelivered base now cache kept [] v e t = record {
  taken = [];
  split = append-nil cache.cached_packets;
  handed = refl;
  follows = tt;
  ordered = v;
  in_time = subst (All (InTime now)) (sym (append-nil kept) ∙ e) t;
}
take_packets-IsDelivered base now cache kept (c ∷ cs) v e t =
    let d : Descends base 32768 (kept ++ (c ∷ cs)) = rw e v.descends in
    let low = suffix-lower base v.word 32768 kept c cs d in
    let last = last_seq-push_all base cs c.packet [] in
    record {
      taken = c ∷ cs;
      split = e;
      handed = refl;
      follows = push_all-Follows base v.word 32768 (c ∷ cs) [] low.2 (λ s w h. tt) tt;
      ordered = rw last (record {
        word = low.0.word;
        latest = λ h. refl;
        descends = rebase base v.word 32768 32768 kept c cs d (omega arith);
      });
      in_time = t;
    }

-- Once a packet was handed over, that stays so.
pub get_packets-called :
    (now : ℕ) (cache : PacketCache)
    → cache.has_callback_packet ≡ true
    → (get_packets now [] cache).0.has_callback_packet ≡ true
unfolding get_packets
get_packets-called now cache h =
    take_called (split_ready (nb_ready_packet cache) now cache.cached_packets)
  where
    take_called :
        (parts : List CachedRtpPacket × List CachedRtpPacket)
        → (take_packets cache parts).has_callback_packet ≡ true
    take_called (kept, []) = unfold take_packets in h
    take_called (kept, c ∷ cs) = unfold take_packets in refl

pub get_packets-IsDelivered :
    (base now : ℕ) (cache : PacketCache)
    → IsOrdered base cache
    → IsDelivered base now cache (get_packets now [] cache).0 (get_packets now [] cache).1
unfolding get_packets
get_packets-IsDelivered base now cache v =
    let nb = nb_ready_packet cache in
    take_packets-IsDelivered base now cache (split_ready nb now cache.cached_packets).0
      (split_ready nb now cache.cached_packets).1 v (split_ready-append nb now cache.cached_packets)
      (split_ready-InTime nb now cache.cached_packets)

length-push_all :
    (cs : List CachedRtpPacket) (acc : List RtpPacket)
    → length (push_all cs acc) ≡ length cs + length acc
unfolding push_all
length-push_all [] acc = omega arith
length-push_all (c ∷ cs) acc = omega (arith, length-push_all cs (c.packet ∷ acc))

count_ready-le : (s : ℕ) (cs : List CachedRtpPacket) → count_ready s cs ≤ length cs
unfolding count_ready
count_ready-le s [] = omega arith
count_ready-le s (c ∷ cs) = ground (arith, count_ready-le (seq_of c) cs)

split_ready-takes :
    (nb now : ℕ) (cs : List CachedRtpPacket)
    → nb ≤ length cs
    → nb ≤ length (split_ready nb now cs).1
unfolding split_ready
split_ready-takes nb now [] h = h
split_ready-takes nb now (c ∷ cs) h = ground (arith, split_ready-takes nb now cs)

-- Nothing that is ready waits: as many packets are handed over as follow the latest one without a
-- gap, at least.
pub nb_ready_packet-le-length :
    (now : ℕ) (cache : PacketCache) → nb_ready_packet cache ≤ length (get_packets now [] cache).1
unfolding get_packets
nb_ready_packet-le-length now cache = omega (
  arith,
  length-push_all (split_ready (nb_ready_packet cache) now cache.cached_packets).1 [],
  split_ready-takes (nb_ready_packet cache) now cache.cached_packets few,
)
  where
    few : nb_ready_packet cache ≤ length cache.cached_packets
    few =
        unfold nb_ready_packet in
        ground (
          arith,
          count_ready-le cache.latest_callback_seq (reverse cache.cached_packets),
          length-reverse cache.cached_packets,
        )
