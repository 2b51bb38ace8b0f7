-- ===== src/Sender/Cache.antt =====
-- `RtpSenderPacketCache` of src/rtp_rtcp/rtp_sender.cc: what it keeps of the packets sent.
use mathlib.Core.List.{append_assoc, append-nil}
use qo_srtp.Common.{
  ℕ, zero, suc, ◌+◌, ◌-◌, ◌≤◌, ◌<◌, ◌≡◌, refl, sym, ap, subst, ◌∙◌, inl, inr, Option, none, some,
  List, [], ◌∷◌, ◌++◌, arith, leb, ◌==◌, if◌then◌else◌, leb→le, Bool-cases, length, drop,
  length-append, length-drop, drop-nil, drop-add, u16, IsU16, inc16,
}
use qo_srtp.Seq.{is_seq_before_in_range, is_seq_after_in_range}
use qo_srtp.RtpPacket.Defs.{RtpPacket}
use qo_srtp.RtpPacket.Copy.{create_copy}
use qo_srtp.Sender.Defs.{RtpSenderPacketCache}

-- Packets are erased from the front on, up to the first one in range.
unfoldable pub erase_out_of_range : ℕ → ℕ → List RtpPacket → List RtpPacket
erase_out_of_range packet_seq range [] = []
erase_out_of_range packet_seq range (c ∷ cs) =
    let rest = erase_out_of_range packet_seq range cs in
    if is_seq_before_in_range c.sequence_number packet_seq range then c ∷ cs else rest

unfoldable pub put_packet : RtpPacket → RtpSenderPacketCache → RtpSenderPacketCache
put_packet packet cache = record cache {
  cached_rtp_packets =
      erase_out_of_range packet.sequence_number cache.max_difference cache.cached_rtp_packets
      ++ (packet ∷ []);
}

-- The first packet with a number.
unfoldable pub find_packet : ℕ → List RtpPacket → Option RtpPacket
find_packet seq [] = none
find_packet seq (c ∷ cs) = if c.sequence_number == seq then some c else find_packet seq cs

-- The packets that `GetPackets` appends; a copy is `nullptr` where `none` stands.
unfoldable pub get_packets : (ℕ → ℕ) → List ℕ → RtpSenderPacketCache → List (Option RtpPacket)
get_packets memory [] cache = []
get_packets memory (seq ∷ seqs) cache =
    let rest = get_packets memory seqs cache in
    elim (find_packet seq cache.cached_rtp_packets) [
      | none ↦ rest
      | some c ↦ create_copy memory c ∷ rest
    ]

-- Packets whose numbers follow each other on the circle, from `first` on.
abbrev pub Consecutive : ℕ → List RtpPacket → Type 0
Consecutive first [] = Unit {0}
Consecutive first (c ∷ cs) = (c.sequence_number ≡ first) × Consecutive (inc16 first) cs

-- The last `n` elements of a list.
abbrev pub last_of {ℓ} : {A : Type ℓ} → ℕ → List A → List A
last_of n xs = drop (length xs - n) xs

in_range-leb :
    (first k range : ℕ)
    → IsU16 first
    → range < 65536
    → 1 ≤ k
    → k ≤ 65536
    → is_seq_before_in_range first (u16 (first + k)) range ≡ leb k range
unfolding is_seq_before_in_range is_seq_after_in_range
in_range-leb first k range hf hr hk hl = ground arith

erase_out_of_range-full :
    (first n range : ℕ) (cs : List RtpPacket)
    → IsU16 first
    → range < 65536
    → length cs ≡ n
    → n ≤ range
    → Consecutive first cs
    → erase_out_of_range (u16 (first + n)) range cs ≡ cs
unfolding erase_out_of_range
erase_out_of_range-full first n range [] hf hr hn hl hc = refl
erase_out_of_range-full first n range (c ∷ cs) hf hr hn hl hc =
    rw (hc.0, in_range-leb first n range hf hr (omega arith) (omega arith)) (ground arith)

-- A run of packets keeps all but the first if it is one longer than the range.
erase_out_of_range-last :
    (first n range : ℕ) (cs : List RtpPacket)
    → IsU16 first
    → range < 65536
    → length cs ≡ n
    → n ≤ suc range
    → Consecutive first cs
    → erase_out_of_range (u16 (first + n)) range cs ≡ drop (n - range) cs
unfolding erase_out_of_range
erase_out_of_range-last first n range [] hf hr hn hl hc = sym (drop-nil (n - range))
erase_out_of_range-last first n range (c ∷ cs) hf hr hn hl hc = elim (Bool-cases (leb n range)) [
  | inl h ↦
      let none_dropped : n - range ≡ 0 = omega (arith, leb→le n range h) in
      rw (none_dropped)
        (erase_out_of_range-full first n range (c ∷ cs) hf hr hn (leb→le n range h) hc)
  | inr h ↦
      let one_dropped : n - range ≡ 1 = ground arith in
      let moved : u16 (first + n) ≡ u16 (inc16 first + length cs) = omega arith in
      let kept =
        erase_out_of_range-full (inc16 first) (length cs) range cs (omega arith) hr refl
          (omega arith) hc.1 in
      rw (hc.0, in_range-leb first n range hf hr (omega arith) (omega arith), h, one_dropped)
        (ap (λ s. erase_out_of_range s range cs) moved ∙ kept)
]

drop-Consecutive :
    (first k : ℕ) (cs : List RtpPacket)
    → Consecutive first cs
    → IsU16 first
    → Consecutive (u16 (first + k)) (drop k cs)
drop-Consecutive first zero cs h hf = subst (λ s. Consecutive s cs) (omega arith) h
drop-Consecutive first (suc k) [] h hf = tt
drop-Consecutive first (suc k) (c ∷ cs) h hf =
    subst (λ s. Consecutive s (drop k cs)) (omega arith)
      (drop-Consecutive (inc16 first) k cs h.1 (omega arith))

Consecutive-append :
    (first : ℕ) (xs ys : List RtpPacket)
    → IsU16 first
    → Consecutive first (xs ++ ys)
    → Consecutive first xs × Consecutive (u16 (first + length xs)) ys
Consecutive-append first [] ys hf h = (tt, subst (λ s. Consecutive s ys) (omega arith) h)
Consecutive-append first (x ∷ xs) ys hf h =
    let rest = Consecutive-append (inc16 first) xs ys (omega arith) h.1 in
    ((h.0, rest.0), subst (λ s. Consecutive s ys) (omega arith) rest.1)

drop-append : (k : ℕ) (xs ys : List RtpPacket) → k ≤ length xs → drop k (xs ++ ys) ≡ drop k xs ++ ys
drop-append zero xs ys h = refl
drop-append (suc k) [] ys h = absurd (omega arith)
drop-append (suc k) (x ∷ xs) ys h = drop-append k xs ys (omega arith)

put_packet-last_of :
    (first range : ℕ) (sent : List RtpPacket) (packet : RtpPacket)
    → IsU16 first
    → range < 65536
    → Consecutive first (sent ++ (packet ∷ []))
    → (put_packet packet (record {
      cached_rtp_packets = last_of (suc range) sent;
      max_difference = range;
    })).cached_rtp_packets
      ≡ last_of (suc range) (sent ++ (packet ∷ []))
unfolding put_packet
put_packet-last_of first range sent packet hf hr hc =
    let parts = Consecutive-append first sent (packet ∷ []) hf hc in
    let k = length sent - suc range in
    let n = length sent - k in
    let moved : packet.sequence_number ≡ u16 (u16 (first + k) + n) = parts.1.0 ∙ omega arith in
    let erased =
      erase_out_of_range-last (u16 (first + k)) n range (drop k sent) (omega arith) hr
        (length-drop k sent) (omega arith) (drop-Consecutive first k sent parts.0 hf) in
    let total = length-append sent (packet ∷ []) in
    let cut : length (sent ++ (packet ∷ [])) - suc range ≡ length sent - range =
      omega (arith, total) in
    let both : k + (n - range) ≡ length sent - range = omega arith in
    ap (λ s. erase_out_of_range s range (drop k sent) ++ (packet ∷ [])) moved
    ∙ ap (λ r. r ++ (packet ∷ []))
        (erased ∙ drop-add k (n - range) sent ∙ ap (λ j. drop j sent) both)
    ∙ sym (drop-append (length sent - range) sent (packet ∷ []) (omega arith))
    ∙ ap (λ j. drop j (sent ++ (packet ∷ []))) (sym cut)

-- `PutPacket` of one packet after the other.
abbrev pub put_all : List RtpPacket → RtpSenderPacketCache → RtpSenderPacketCache
put_all [] cache = cache
put_all (p ∷ ps) cache = put_all ps (put_packet p cache)

put_all-from :
    (first range : ℕ) (sent ps : List RtpPacket)
    → IsU16 first
    → range < 65536
    → Consecutive first (sent ++ ps)
    → (put_all ps (record {
      cached_rtp_packets = last_of (suc range) sent;
      max_difference = range;
    })).cached_rtp_packets
      ≡ last_of (suc range) (sent ++ ps)
unfolding put_packet
put_all-from first range sent [] hf hr hc = ap (last_of (suc range)) (sym (append-nil sent))
put_all-from first range sent (p ∷ ps) hf hr hc =
    let whole : sent ++ (p ∷ ps) ≡ (sent ++ (p ∷ [])) ++ ps = sym (append_assoc sent (p ∷ []) ps) in
    let hc' = subst (Consecutive first) whole hc in
    let before = (Consecutive-append first (sent ++ (p ∷ [])) ps hf hc').0 in
    ap
      (λ cs.
        (put_all ps
          (record { cached_rtp_packets = cs; max_difference = range })).cached_rtp_packets)
      (put_packet-last_of first range sent p hf hr before)
    ∙ put_all-from first range (sent ++ (p ∷ [])) ps hf hr hc'
    ∙ ap (last_of (suc range)) (sym whole)

-- Of packets whose numbers follow each other, an empty cache keeps exactly the last ones, one more
-- than `max_cache_seq_difference` allows as a difference.
pub put_all-last_of :
    (first range : ℕ) (ps : List RtpPacket)
    → IsU16 first
    → range < 65536
    → Consecutive first ps
    → (put_all ps (record { cached_rtp_packets = []; max_difference = range })).cached_rtp_packets
      ≡ last_of (suc range) ps
put_all-last_of first range ps hf hr hc =
    ap
      (λ cs.
        (put_all ps
          (record { cached_rtp_packets = cs; max_difference = range })).cached_rtp_packets)
      (sym (drop-nil (0 - suc range)))
    ∙ put_all-from first range [] ps hf hr hc
