-- ===== src/ReceiverCache/Window.antt =====
-- The order of the cached packets of src/rtp_rtcp/rtp_receiver.cc: distances from one number that
-- is before all of them, which is the latest one handed over once there is one.
use qo_srtp.Common.{
  ℕ, ◌+◌, ◌≤◌, ◌<◌, ◌≡◌, inl, inr, true, false, List, [], ◌∷◌, arith, Bool-cases, IsU16,
}
use qo_srtp.Seq.{is_seq_after}
use qo_srtp.Seq.Circle.{dist, is_seq_after_iff}
use qo_srtp.ReceiverCache.Defs.{CachedRtpPacket, PacketCache, seq_of}

-- `s` is a number after `base`.
pub record InWindow (base s : ℕ) : Type 0 where
  pub word : IsU16 s
  pub low : 1 ≤ dist base s
  pub high : dist base s < 32768

-- The distances fall along the list, from below `bound` on.
abbrev pub Descends : ℕ → ℕ → List CachedRtpPacket → Type 0
Descends base bound [] = Unit {0}
Descends base bound (c ∷ cs) =
    InWindow base (seq_of c)
    × (dist base (seq_of c) < bound)
    × Descends base (dist base (seq_of c)) cs

-- The cached packets, newest first, are after `base`, each once, and none is out of order. Once a
-- packet was handed over, `base` is its number.
pub record IsOrdered (base : ℕ) (cache : PacketCache) : Type 0 where
  pub word : IsU16 base
  pub latest : cache.has_callback_packet ≡ true → base ≡ cache.latest_callback_seq
  pub descends : Descends base 32768 cache.cached_packets

pub Descends-mono :
    (base m n : ℕ) (cs : List CachedRtpPacket) → m ≤ n → Descends base m cs → Descends base n cs
Descends-mono base m n [] h d = tt
Descends-mono base m n (c ∷ cs) h d = (d.0, omega arith, d.2)

-- Within the window the order of the circle is the order of the distances.
module _ (base a b : ℕ) (hb : IsU16 base) (wa : InWindow base a) (wb : InWindow base b) where
  pub after-lt : is_seq_after a b ≡ true → dist base a < dist base b
  after-lt h =
      let e = (is_seq_after_iff a b wa.word wb.word).0 h in
      omega (arith, e.0, e.1, wa.word, wa.low, wa.high, wb.word, wb.low, wb.high)

  pub lt-after : dist base a < dist base b → is_seq_after a b ≡ true
  lt-after h =
      (is_seq_after_iff a b wa.word wb.word).1
        (omega (arith, wa.word, wa.low, wa.high, wb.word, wb.low, wb.high))

  pub ge-after : dist base b ≤ dist base a → is_seq_after a b ≡ false
  ge-after h = elim (Bool-cases (is_seq_after a b)) [
    | inl e ↦ absurd (omega (arith, after-lt e))
    | inr e ↦ e
  ]

  pub dist-injective : dist base a ≡ dist base b → a ≡ b
  dist-injective h = omega (arith, wa.word, wb.word)

-- The window is what the first test of `PutPacket` lets through.
pub after-InWindow :
    (base s : ℕ) → IsU16 base → IsU16 s → is_seq_after base s ≡ true → InWindow base s
after-InWindow base s hb hs h =
    let e = (is_seq_after_iff base s hb hs).0 h in
    record { word = hs; low = e.0; high = omega arith }

pub InWindow-after : (base s : ℕ) → IsU16 base → InWindow base s → is_seq_after base s ≡ true
InWindow-after base s hb w = (is_seq_after_iff base s hb w.word).1 (omega (arith, w.low, w.high))

-- A number after `base` moves the window on.
pub InWindow-shift :
    (base a b : ℕ)
    → IsU16 base
    → InWindow base a
    → InWindow base b
    → dist base a < dist base b
    → InWindow a b × (dist a b + dist base a ≡ dist base b)
InWindow-shift base a b hb wa wb h = (
  record {
    word = wb.word;
    low = omega (arith, wa.word, wa.low, wa.high, wb.word, wb.low, wb.high);
    high = omega (arith, wa.word, wa.low, wa.high, wb.word, wb.low, wb.high);
  },
  omega (arith, wa.word, wa.low, wa.high, wb.word, wb.low, wb.high),
)
