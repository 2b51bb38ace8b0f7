-- ===== src/RtxStream/Parts.antt =====
-- The octet, the CSRCs, the extension and the payload on their way through an RTX packet of
-- src/rtp_rtcp/rtp_sender.cc and src/rtp_rtcp/rtp_receiver.cc.
use mathlib.Core.List.{append-nil}
use qo_srtp.Common.{
  ℕ, zero, suc, ◌+◌, ◌-◌, ◌*◌, ◌/◌, ◌≤◌, ◌<◌, bit_and, ◌≡◌, refl, ap, ap₂, subst, ◌∙◌, true, Option,
  none, some, List, [], ◌∷◌, ◌++◌, map, arith, ◌==◌, ==_iff, length, take, drop, length-append,
  length-take, length-drop, take-all, drop-all, drop_front, take_front, take-take, passes,
  passes-at, u8, u32,
}
use qo_srtp.ByteIo.{write_big_endian}
use qo_srtp.ByteIo.RoundTrip.{length-write_big_endian}
use qo_srtp.DataBuffer.{DataBuffer, create, set_size, modify_at, write, block}
use qo_srtp.DataBuffer.Bounds.{length-block, modify_at_capacity, set_size-capacity}
use qo_srtp.RtpPacket.Defs.{Extension}
use qo_srtp.RtpPacket.Written.{ExtensionFits}
use qo_srtp.RtpPacket.Copy.{octet_with_marker}
use qo_srtp.RtpPacket.Copied.{trimmed_extension}
use qo_srtp.Sender.Rtx.{rtx_payload, find_rtx_type}
use qo_srtp.Receiver.Rtx.{original_payload, find_type}

-- The type and the marker of an octet are those that it was made of.
octet_table :
    (passes (λ t. bit_and 127 (octet_with_marker t 0) == t) 128 ≡ true)
    × (passes (λ t. octet_with_marker t 0 / 128 == 0) 128 ≡ true)
    × (passes (λ t. bit_and 127 (octet_with_marker t 1) == t) 128 ≡ true)
    × (passes (λ t. octet_with_marker t 1 / 128 == 1) 128 ≡ true)
unfolding passes octet_with_marker
octet_table = (refl, refl, refl, refl)

pub octet_with_marker-parts :
    (t marker : ℕ)
    → t < 128
    → marker < 2
    → (bit_and 127 (octet_with_marker t marker) ≡ t) × (octet_with_marker t marker / 128 ≡ marker)
octet_with_marker-parts t zero ht hm = (
  (==_iff _ _).0 (passes-at _ 128 t ht octet_table.0),
  (==_iff _ _).0 (passes-at _ 128 t ht octet_table.1),
)
octet_with_marker-parts t (suc zero) ht hm = (
  (==_iff _ _).0 (passes-at _ 128 t ht octet_table.2),
  (==_iff _ _).0 (passes-at _ 128 t ht octet_table.3),
)
octet_with_marker-parts t (suc (suc marker)) ht hm = absurd (omega arith)

pub u8-u8 : (cs : List ℕ) → map u8 (map u8 cs) ≡ map u8 cs
u8-u8 [] = refl
u8-u8 (c ∷ cs) = ap₂ ◌∷◌ (omega arith) (u8-u8 cs)

pub trimmed_extension-twice :
    (e : Option Extension)
    → ExtensionFits e
    → ExtensionFits (trimmed_extension e)
      × (trimmed_extension (trimmed_extension e) ≡ trimmed_extension e)
unfolding trimmed_extension
trimmed_extension-twice none f = (tt, refl)
trimmed_extension-twice (some e) f = (
  record {
    named = omega (arith, length-take 2 e.name, f.named);
    counted = omega arith;
    content_size =
        omega (arith, length-take (4 * e.ext_length) e.content.buffer, f.counted, f.content_size);
  },
  rw (take-take 2 e.name, take-take (4 * e.ext_length) e.content.buffer) refl,
)

write-behind :
    (blk front from : List ℕ) (n : ℕ)
    → length front ≡ n
    → length blk ≡ n + length from
    → write (write blk 0 front) n from ≡ front ++ from
unfolding write
write-behind blk front from n hf hb =
    let emptied : drop (n + length from) (front ++ drop (0 + length front) blk) ≡ [] =
      drop-all (n + length from) (front ++ drop (0 + length front) blk) (
        omega (
          arith,
          length-append front (drop (0 + length front) blk),
          length-drop (0 + length front) blk,
        )) in
    rw (take_front front (drop (0 + length front) blk) n hf, emptied, append-nil from) refl

pub rtx_payload-image :
    (memory : ℕ → ℕ) (sequence_number : ℕ) (b : DataBuffer)
    → b.size ≤ length b.buffer
    → b.size + 2 < 4294967296
    → rtx_payload memory sequence_number b ≡ record {
      size = b.size + 2;
      capacity = b.size + 2;
      buffer = write_big_endian 2 sequence_number ++ take b.size b.buffer;
    }
unfolding rtx_payload create set_size modify_at
rtx_payload-image memory sequence_number b f h =
    let cap : u32 (b.size + 2) ≡ b.size + 2 = omega arith in
    let filled =
      write-behind (block memory 0 (b.size + 2)) (write_big_endian 2 sequence_number)
        (take b.size b.buffer) 2 (length-write_big_endian 2 sequence_number)
        (omega (arith, length-block memory 0 (b.size + 2), length-take b.size b.buffer)) in
    rw (rtx_payload, cap) (ground (arith, filled))

pub original_payload-image :
    (memory : ℕ → ℕ) (front rest : List ℕ) (n : ℕ)
    → length front ≡ 2
    → length rest ≡ n
    → n + 2 < 4294967296
    → original_payload memory (record { size = n + 2; capacity = n + 2; buffer = front ++ rest })
      ≡ record { size = n; capacity = n; buffer = rest }
unfolding original_payload
original_payload-image memory front rest n hf hn h =
    let e : u32 (n + 2 - 2) ≡ n = omega arith in
    let bytes = drop 2 (front ++ rest) in
    let back : bytes ≡ rest = drop_front front rest 2 hf in
    let whole : take n bytes ≡ rest =
      ap (take n) back ∙ subst (λ k. take k rest ≡ rest) hn (take-all rest) in
    let sized : ℕ → DataBuffer = λ k. (set_size (create memory k) (create memory k).capacity).1 in
    ap (λ k. (modify_at (sized k) 0 bytes (sized k).size).1) e
    ∙ ap (λ s. (modify_at (sized n) 0 bytes s).1) (set_size-capacity memory n)
    ∙ modify_at_capacity memory n bytes (omega arith) (omega (arith, ap length back))
    ∙ ap (λ b. record { size = n; capacity = n; buffer = b }) whole

-- In a map with ascending keys, a key found by its value leads to that value.
abbrev pub Ascending : ℕ → List (ℕ × ℕ) → Type 0
Ascending bound [] = Unit {0}
Ascending bound ((k, v) ∷ rest) = (bound ≤ k) × Ascending (suc k) rest

pub found_above :
    (octet bound t : ℕ) (pairs : List (ℕ × ℕ))
    → Ascending bound pairs
    → find_rtx_type octet pairs ≡ some t
    → (bound ≤ t) × (find_type t pairs ≡ some octet)
unfolding find_rtx_type find_type
found_above octet bound t [] a h = absurd (cc)
found_above octet bound t ((k, v) ∷ rest) a h = ground (arith, found_above octet (suc k) t rest a.1)
