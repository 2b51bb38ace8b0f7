-- ===== src/Fec/Cache.antt =====
-- The order of the cache of `UlpFecDecoder`, in src/rtp_rtcp/ulp_fec.cc: distances upwards from one
-- number that is before all of them.
use qo_srtp.Common.{
  ℕ, ◌<◌, ◌≡◌, refl, sym, subst, ◌∙◌, ◌↔◌, ◌⊎◌, inl, inr, Bool, true, false, List, [], ◌∷◌, arith,
  ltb, ◌==◌, ltb→lt, ==_iff, Bool-cases, All, IsU16,
}
use qo_srtp.Seq.{is_seq_before}
use qo_srtp.Seq.Circle.{dist}
use qo_srtp.ReceiverCache.Window.{InWindow, after-lt, lt-after, dist-injective}
use qo_srtp.RtpPacket.Defs.{RtpPacket}
use qo_srtp.Fec.Decoder.{CachedPacket, decode_fec_info}
use qo_srtp.Fec.Decode.{
  UlpFecDecoder, seq_of_cached, insert_cached, new_cached, is_taken, cache_packets,
}

-- The distances rise along the list, from above `low` on.
abbrev pub Ascends : ℕ → ℕ → List CachedPacket → Type 0
Ascends base low [] = Unit {0}
Ascends base low (c ∷ cs) =
    InWindow base (seq_of_cached c)
    × (low < dist base (seq_of_cached c))
    × Ascends base (dist base (seq_of_cached c)) cs

-- A packet of the list has the number.
abbrev pub IsCached : ℕ → List CachedPacket → Type 0
IsCached n [] = ⊥
IsCached n (c ∷ cs) = (n ≡ seq_of_cached c) ⊎ IsCached n cs

-- A packet of the list that is taken has the number.
abbrev pub IsReceived : (RtpPacket → Bool) → ℕ → List RtpPacket → Type 0
IsReceived taken n [] = ⊥
IsReceived taken n (p ∷ ps) = ((taken p ≡ true) × (n ≡ p.sequence_number)) ⊎ IsReceived taken n ps

module _ (base : ℕ) (word : IsU16 base) (new : CachedPacket)
    (wn : InWindow base (seq_of_cached new)) where
  -- The three branches of the search, for a packet of the list.
  abbrev before : CachedPacket → Bool
  before c = is_seq_before (seq_of_cached new) (seq_of_cached c)

  before-lt :
      (c : CachedPacket)
      → InWindow base (seq_of_cached c)
      → before c ≡ true
      → dist base (seq_of_cached new) < dist base (seq_of_cached c)
  unfolding is_seq_before
  before-lt c wc h = after-lt base (seq_of_cached new) (seq_of_cached c) word wn wc h

  not_before-lt :
      (c : CachedPacket)
      → InWindow base (seq_of_cached c)
      → (seq_of_cached c == seq_of_cached new) ≡ false
      → before c ≡ false
      → dist base (seq_of_cached c) < dist base (seq_of_cached new)
  unfolding is_seq_before
  not_before-lt c wc differ h =
      let unequal = λ (e : dist base (seq_of_cached c) ≡ dist base (seq_of_cached new)).
        dist-injective base (seq_of_cached c) (seq_of_cached new) word wc wn e in
      elim (Bool-cases (ltb (dist base (seq_of_cached new)) (dist base (seq_of_cached c)))) [
        | inl lt ↦
            let e =
              lt-after base (seq_of_cached new) (seq_of_cached c) word wn wc (ltb→lt _ _ lt) in
            absurd (cc (h, e))
        | inr ge ↦
            elim (Bool-cases (dist base (seq_of_cached c) == dist base (seq_of_cached new))) [
              | inl same ↦
                  let e = unequal ((==_iff _ _).0 same) in absurd (ground (arith, differ, e))
              | inr other ↦ ground (arith, ge, other)
            ]
      ]

  insert_cached-Ascends :
      (low : ℕ) (cs : List CachedPacket)
      → low < dist base (seq_of_cached new)
      → Ascends base low cs
      → Ascends base low (insert_cached new cs)
  unfolding insert_cached
  insert_cached-Ascends low [] h a = (wn, h, tt)
  insert_cached-Ascends low (c ∷ cs) h (wc, hc, a) =
      elim (Bool-cases (seq_of_cached c == seq_of_cached new)) [
        | inl same ↦ rw (insert_cached, same) (wc, hc, a)
        | inr differ ↦ elim (Bool-cases (before c)) [
          | inl lt ↦ rw (insert_cached, differ, lt) (wn, h, (wc, before-lt c wc lt, a))
          | inr ge ↦
              rw (insert_cached, differ, ge)
                (
                  wc,
                  hc,
                  insert_cached-Ascends (dist base (seq_of_cached c)) cs
                      (not_before-lt c wc differ ge) a,
                )
        ]
      ]

  insert_cached-IsCached :
      (n : ℕ) (cs : List CachedPacket)
      → IsCached n (insert_cached new cs) ↔ ((n ≡ seq_of_cached new) ⊎ IsCached n cs)
  unfolding insert_cached
  insert_cached-IsCached n [] = (λ h. h, λ h. h)
  insert_cached-IsCached n (c ∷ cs) = elim (Bool-cases (seq_of_cached c == seq_of_cached new)) [
    | inl same ↦
        let e = (==_iff (seq_of_cached c) (seq_of_cached new)).0 same in
        rw (insert_cached, same)
          (λ h. inr h, λ h. elim h [ inl here ↦ inl (here ∙ sym e) | inr there ↦ there ])
    | inr differ ↦ elim (Bool-cases (before c)) [
      | inl lt ↦ rw (insert_cached, differ, lt) (λ h. h, λ h. h)
      | inr ge ↦
          let later = insert_cached-IsCached n cs in
          rw (insert_cached, differ, ge)
            (
              λ h. elim h [
                | inl here ↦ inr (inl here)
                | inr there ↦ elim (later.0 there) [
                  | inl is_new ↦ inl is_new
                  | inr old ↦ inr (inr old)
                ]
              ],
              λ h. elim h [
                | inl is_new ↦ inr (later.1 (inl is_new))
                | inr old ↦ elim old [ inl here ↦ inl here | inr there ↦ inr (later.1 (inr there)) ]
              ],
            )
    ]
  ]

new_cached-seq :
    (memory : ℕ → ℕ) (pt : ℕ) (p : RtpPacket)
    → seq_of_cached (new_cached memory pt p) ≡ p.sequence_number
unfolding seq_of_cached new_cached decode_fec_info
new_cached-seq memory pt p = ground arith

-- Received packets of which those that are looked at are in the window of `base`, like the cached
-- ones, which are in order: afterwards the cache is in order, with no number twice, and its numbers
-- are those from before and those of the packets that were looked at.
pub cache_packets-Ascends :
    (memory : ℕ → ℕ) (base : ℕ) (received : List RtpPacket) (self : UlpFecDecoder)
    → IsU16 base
    → All (λ p. is_taken self p ≡ true → InWindow base p.sequence_number) received
    → Ascends base 0 self.cached_packets
    → let out = cache_packets memory received self in
      Ascends base 0 out.cached_packets
      × ((n : ℕ)
          → IsCached n out.cached_packets
            ↔ (IsCached n self.cached_packets ⊎ IsReceived (is_taken self) n received))
unfolding cache_packets is_taken
cache_packets-Ascends memory base [] self word h a =
    (a, λ n. (λ c. inl c, λ c. elim c [ inl old ↦ old | inr never ↦ absurd never ]))
cache_packets-Ascends memory base (p ∷ ps) self word (h, hs) a =
    elim (Bool-cases (is_taken self p)) [
      | inr refused ↦
          let (ordered, same) = cache_packets-Ascends memory base ps self word hs a in
          rw (cache_packets, refused)
            (
              ordered,
              λ n. (
                λ c. elim ((same n).0 c) [ inl old ↦ inl old | inr later ↦ inr (inr later) ],
                λ c. elim c [
                  | inl old ↦ (same n).1 (inl old)
                  | inr new ↦ elim new [
                    | inl here ↦ absurd (cc here.0)
                    | inr later ↦ (same n).1 (inr later)
                  ]
                ],
              ),
            )
      | inl looked_at ↦
          let new = new_cached memory self.config.payload_type p in
          let e = new_cached-seq memory self.config.payload_type p in
          let wn : InWindow base (seq_of_cached new) =
            subst (InWindow base) (sym e) (h looked_at) in
          let self' : UlpFecDecoder = record self {
            cached_packets = insert_cached new self.cached_packets;
          } in
          let a' = insert_cached-Ascends base word new wn 0 self.cached_packets (wn.low) a in
          let (ordered, same) = cache_packets-Ascends memory base ps self' word hs a' in
          let put = λ (n : ℕ). insert_cached-IsCached base word new wn n self.cached_packets in
          rw (cache_packets, looked_at)
            (
              ordered,
              λ n. (
                λ c. elim ((same n).0 c) [
                  | inr later ↦ inr (inr later)
                  | inl cached ↦ elim ((put n).0 cached) [
                    | inl is_new ↦ inr (inl (refl, is_new ∙ e))
                    | inr old ↦ inl old
                  ]
                ],
                λ c. elim c [
                  | inl old ↦ (same n).1 (inl ((put n).1 (inr old)))
                  | inr new ↦ elim new [
                    | inl here ↦ (same n).1 (inl ((put n).1 (inl (here.1 ∙ sym e))))
                    | inr later ↦ (same n).1 (inr later)
                  ]
                ],
              ),
            )
    ]
