-- ===== src/ReceiverCache/Insert.antt =====
-- `PutPacket` of src/rtp_rtcp/rtp_receiver.cc keeps the cached packets in order and loses none.
use qo_srtp.Common.{
  ℕ, ◌+◌, ◌%◌, ◌≤◌, ◌<◌, ◌≡◌, refl, sym, ap, subst, ◌∙◌, inl, inr, Bool, true, false, ◌&&◌, ◌||◌,
  List, [], ◌∷◌, ◌++◌, arith, ◌==◌, ==_iff, Bool-cases, IsU16,
}
use qo_srtp.Seq.{is_seq_after}
use qo_srtp.Seq.Circle.{dist}
use qo_srtp.RtpPacket.Defs.{RtpPacket}
use qo_srtp.ReceiverCache.Defs.{CachedRtpPacket, PacketCache, seq_of}
use qo_srtp.ReceiverCache.Supplement.{supplement_loss_seqs}
use qo_srtp.ReceiverCache.Put.{
  update_extended, back_seq, insert_before, insert_packet, accepts, store, put_packet,
}
use qo_srtp.ReceiverCache.Window.{
  InWindow, Descends, IsOrdered, after-lt, lt-after, dist-injective, after-InWindow,
}

-- A packet with the sequence number `s` is cached.
unfoldable pub holds : ℕ → List CachedRtpPacket → Bool
holds s [] = false
holds s (c ∷ cs) = seq_of c == s || holds s cs

clash : {b : Bool} → b ≡ true → b ≡ false → ⊥
clash p q = cc

module _ (base : ℕ) (hb : IsU16 base) (new : CachedRtpPacket) (w : InWindow base (seq_of new)) where
  back-lowest :
      (bound : ℕ) (c : CachedRtpPacket) (cs : List CachedRtpPacket)
      → Descends base bound (c ∷ cs)
      → InWindow base (back_seq c cs) × (dist base (back_seq c cs) ≤ dist base (seq_of c))
  unfolding back_seq
  back-lowest bound c [] d = (d.0, omega arith)
  back-lowest bound c (x ∷ xs) d =
      let rest = back-lowest (dist base (seq_of c)) x xs d.2 in
      (rest.0, omega (arith, rest.1, d.2.1))

  -- A packet older than all others goes to the end.
  push_back-Descends :
      (bound : ℕ) (c : CachedRtpPacket) (cs : List CachedRtpPacket)
      → Descends base bound (c ∷ cs)
      → dist base (seq_of new) < dist base (back_seq c cs)
      → Descends base bound (c ∷ (cs ++ (new ∷ [])))
  unfolding back_seq
  push_back-Descends bound c [] d h = (d.0, d.1, (w, h, tt))
  push_back-Descends bound c (x ∷ xs) d h =
      (d.0, d.1, push_back-Descends (dist base (seq_of c)) x xs d.2 h)

  -- A different number that is not after that of `c` is further down.
  below :
      (c : CachedRtpPacket)
      → InWindow base (seq_of c)
      → (seq_of c == seq_of new) ≡ false
      → is_seq_after (seq_of c) (seq_of new) ≡ false
      → dist base (seq_of new) < dist base (seq_of c)
  below c wc ne na = omega (
    arith,
    λ (h : dist base (seq_of c) < dist base (seq_of new)).
        clash (lt-after base (seq_of c) (seq_of new) hb wc w h) na,
    λ (h : dist base (seq_of c) ≡ dist base (seq_of new)).
        clash
          ((==_iff (seq_of c) (seq_of new)).1
            (dist-injective base (seq_of c) (seq_of new) hb wc w h))
          ne,
  )

  insert_before-Descends :
      (bound : ℕ) (cs : List CachedRtpPacket)
      → dist base (seq_of new) < bound
      → Descends base bound cs
      → Descends base bound (insert_before new cs)
  unfolding insert_before
  insert_before-Descends bound [] h d = tt
  insert_before-Descends bound (c ∷ cs) h d = elim (Bool-cases (seq_of c == seq_of new)) [
    | inl e ↦ rw e d
    | inr ne ↦ elim (Bool-cases (is_seq_after (seq_of c) (seq_of new))) [
      | inl after ↦
          rw (ne, after) (w, h, (d.0, after-lt base (seq_of c) (seq_of new) hb d.0 w after, d.2))
      | inr na ↦
          rw (ne, na)
            (d.0, d.1, insert_before-Descends (dist base (seq_of c)) cs (below c d.0 ne na) d.2)
    ]
  ]

  insert_packet-Descends :
      (cs : List CachedRtpPacket)
      → Descends base 32768 cs
      → Descends base 32768 (insert_packet new cs)
  unfolding insert_packet
  insert_packet-Descends [] d = (w, w.high, tt)
  insert_packet-Descends (c ∷ cs) d =
      let low = back-lowest 32768 c cs d in
      elim (Bool-cases (is_seq_after (seq_of new) (back_seq c cs))) [
        | inl oldest ↦ rw oldest (
            push_back-Descends 32768 c cs d
              (after-lt base (seq_of new) (back_seq c cs) hb w low.0 oldest))
        | inr other ↦ rw other (insert_before-Descends 32768 (c ∷ cs) w.high d)
      ]

  holds-push_back :
      (s : ℕ) (cs : List CachedRtpPacket)
      → holds s (cs ++ (new ∷ [])) ≡ (holds s cs || seq_of new == s)
  unfolding holds
  holds-push_back s [] = ground arith
  holds-push_back s (c ∷ cs) = ground (arith, holds-push_back s cs)

  -- Where the last packet is not newer than the new one, the loop finds a place for it.
  holds-insert_before :
      (s bound : ℕ) (c : CachedRtpPacket) (cs : List CachedRtpPacket)
      → Descends base bound (c ∷ cs)
      → dist base (back_seq c cs) ≤ dist base (seq_of new)
      → holds s (insert_before new (c ∷ cs)) ≡ (holds s (c ∷ cs) || seq_of new == s)
  unfolding holds insert_before back_seq
  holds-insert_before s bound c [] d h = ground (arith, below c d.0)
  holds-insert_before s bound c (x ∷ xs) d h =
      ground (arith, holds-insert_before s (dist base (seq_of c)) x xs d.2 h)

  -- The numbers that are cached are those from before and the new one.
  holds-insert_packet :
      (s : ℕ) (cs : List CachedRtpPacket)
      → Descends base 32768 cs
      → holds s (insert_packet new cs) ≡ (holds s cs || seq_of new == s)
  unfolding insert_packet
  holds-insert_packet s [] d = unfold holds in ground arith
  holds-insert_packet s (c ∷ cs) d =
      let low = back-lowest 32768 c cs d in
      elim (Bool-cases (is_seq_after (seq_of new) (back_seq c cs))) [
        | inl oldest ↦ rw oldest (holds-push_back s (c ∷ cs))
        | inr other ↦ rw other (
            holds-insert_before s 32768 c cs d (
              omega (
                arith,
                λ (h : dist base (seq_of new) < dist base (back_seq c cs)).
                    clash (lt-after base (seq_of new) (back_seq c cs) hb w low.0 h) other,
              )))
      ]

-- The packet goes through the first test exactly if it is in the window of `base`.
accepted-InWindow :
    (base : ℕ) (packet : RtpPacket) (cache : PacketCache)
    → IsOrdered base cache
    → IsU16 packet.sequence_number
    → (cache.has_callback_packet ≡ false → InWindow base packet.sequence_number)
    → accepts cache packet.sequence_number ≡ true
    → InWindow base packet.sequence_number
unfolding accepts
accepted-InWindow base packet cache v hs first h = elim (Bool-cases cache.has_callback_packet) [
  | inr fresh ↦ first fresh
  | inl called ↦
      after-InWindow base packet.sequence_number v.word hs (rw (v.latest called) (rw called at h))
]

-- `PutPacket` touches neither what was handed over nor the list of packets but for the insertion.
put_packet_fields :
    (packet : RtpPacket) (utc_ms_now : ℕ) (cache : PacketCache)
    → accepts cache packet.sequence_number ≡ true
    → let after = put_packet packet utc_ms_now cache in
      (after.has_callback_packet ≡ cache.has_callback_packet)
      × (after.latest_callback_seq ≡ cache.latest_callback_seq)
      × ((new : CachedRtpPacket) × (seq_of new ≡ packet.sequence_number)
          × (after.cached_packets ≡ insert_packet new cache.cached_packets))
unfolding put_packet store supplement_loss_seqs update_extended
put_packet_fields packet utc_ms_now cache h = rw h (
  ground arith,
  ground arith,
  (
    record {
      packet = packet;
      packet_timeout_time_utc_ms =
          (cache.max_cache_duration_ms + utc_ms_now) % 18446744073709551616;
    },
    refl,
    refl,
  ),
)

-- From an ordered cache, and until a packet was handed over for a packet in the window of `base`,
-- `PutPacket` gives an ordered cache. Its sequence numbers are those from before together with the
-- packet's own, if that is after the latest number handed over (or none was); otherwise the cache
-- is left as it was. So a late or repeated packet adds nothing and no packet is lost.
pub put_packet-IsOrdered :
    (base : ℕ) (packet : RtpPacket) (utc_ms_now : ℕ) (cache : PacketCache)
    → IsOrdered base cache
    → IsU16 packet.sequence_number
    → (cache.has_callback_packet ≡ false → InWindow base packet.sequence_number)
    → IsOrdered base (put_packet packet utc_ms_now cache)
      × ((s : ℕ)
          → holds s (put_packet packet utc_ms_now cache).cached_packets ≡ (
              holds s cache.cached_packets
              || (accepts cache packet.sequence_number && packet.sequence_number == s)))
      × (accepts cache packet.sequence_number ≡ false → put_packet packet utc_ms_now cache ≡ cache)
put_packet-IsOrdered base packet utc_ms_now cache v hs first =
    elim (Bool-cases (accepts cache packet.sequence_number)) [
      | inl yes_put ↦
          let (called, latest, (new, same, cached)) =
            put_packet_fields packet utc_ms_now cache yes_put in
          let w : InWindow base (seq_of new) =
            subst (InWindow base) (sym same)
              (accepted-InWindow base packet cache v hs first yes_put) in
          let all =
            λ (s : ℕ). holds-insert_packet base v.word new w s cache.cached_packets v.descends in
          (
            record {
              word = v.word;
              latest = λ h. v.latest (sym called ∙ h) ∙ sym latest;
              descends =
                  rw cached
                    (insert_packet-Descends base v.word new w cache.cached_packets v.descends);
            },
            λ s. ap (holds s) cached ∙ ground (arith, all s),
            λ h. absurd (clash yes_put h),
          )
      | inr refused ↦
          let e : put_packet packet utc_ms_now cache ≡ cache = unfold put_packet in rw refused in
          (rw e v, λ s. ap (λ c. holds s c.cached_packets) e ∙ ground arith, λ h. e)
    ]

pub put_packet_called :
    (packet : RtpPacket) (utc_ms_now : ℕ) (cache : PacketCache)
    → (put_packet packet utc_ms_now cache).has_callback_packet ≡ cache.has_callback_packet
put_packet_called packet utc_ms_now cache =
    elim (Bool-cases (accepts cache packet.sequence_number)) [
      | inl taken ↦ (put_packet_fields packet utc_ms_now cache taken).0
      | inr refused ↦ unfold put_packet in rw refused
    ]
