-- ===== src/Fec/Leftover.antt =====
-- What is left of the exclusive or of a group of packets, once all but one are taken out again, in
-- src/rtp_rtcp/ulp_fec.cc.
use mathlib.Core.List.{append_assoc, append-nil}
use qo_srtp.Common.{
  ℕ, ◌-◌, ◌%◌, ◌^◌, ◌≤◌, ◌<◌, bit_and, bit_or, bit_xor, ◌≡◌, refl, sym, ap, ◌∙◌, Bool, List, [],
  ◌∷◌, ◌++◌, arith, length, replicate, drop_front,
}
use qo_srtp.Bits.{bit_or-power}
use qo_srtp.Bits.Xor.{bit_xor-cancel, bit_xor-swap, zero-bit_xor}
use qo_srtp.Bits.And.{bit_and_63, low_64}
use qo_srtp.ByteIo.{write_big_endian}
use qo_srtp.ByteIo.RoundTrip.{length-write_big_endian}
use qo_srtp.RtpPacket.Defs.{RtpPacket}
use qo_srtp.RtpPacket.Load.{first_byte}
use qo_srtp.RtpPacket.Flags.{first_byte_flags}
use qo_srtp.RtpPacket.Layout.{IsPacket, image, fixed_header, length-fixed_header}
use qo_srtp.Fec.Packet.{FecParts, xor_into, blank_parts}
use qo_srtp.Fec.Decoder.{Recovering, recovered_bytes}
use qo_srtp.Fec.Folds.{fold, fold_but, xor_into-swap, xor_into-cancel, zeros-xor_into}
use qo_srtp.Fec.Group.{body, body_length, mix, unmix, length-body}
use qo_srtp.Fec.Layout.{first_of, first_of_facts}

-- The loops field by field.
mix_fields :
    (b : ℕ) (s : FecParts) (xs : List RtpPacket)
    → let out = fold (mix b) s xs in
      (out.octet_0 ≡ fold (λ d p. bit_xor d (first_byte p)) s.octet_0 xs)
      × (out.octet_1 ≡ fold (λ d p. bit_xor d p.octet_m_and_payload_type) s.octet_1 xs)
      × (out.timestamp_recovery
          ≡ fold (λ d p. xor_into d (write_big_endian 4 p.timestamp)) s.timestamp_recovery xs)
      × (out.length_recovery
          ≡ fold (λ d p. xor_into d (write_big_endian 2 (body_length p))) s.length_recovery xs)
      × (out.protected ≡ fold (λ d p. xor_into d (body p)) s.protected xs)
unfolding fold mix
mix_fields b s [] = (refl, refl, refl, refl, refl)
mix_fields b s (x ∷ xs) = mix_fields b (mix b s x) xs

unmix_fields :
    (s : Recovering) (xs : List RtpPacket)
    → let out = fold unmix s xs in
      (out.octet_0 ≡ fold (λ d p. bit_xor d (first_byte p)) s.octet_0 xs)
      × (out.octet_1 ≡ fold (λ d p. bit_xor d p.octet_m_and_payload_type) s.octet_1 xs)
      × (out.timestamp ≡ fold (λ d p. xor_into d (write_big_endian 4 p.timestamp)) s.timestamp xs)
      × (out.recovery_length
          ≡ fold (λ d p. xor_into d (write_big_endian 2 (body_length p))) s.recovery_length xs)
      × (out.payload ≡ fold (λ d p. xor_into d (body p)) s.payload xs)
unfolding fold unmix
unmix_fields s [] = (refl, refl, refl, refl, refl)
unmix_fields s (x ∷ xs) = unmix_fields (unmix s x) xs

-- The lowest six bits of a fold depend on those of its start.
fold-low :
    (xs : List RtpPacket) (a b : ℕ)
    → a % 64 ≡ b % 64
    → fold (λ d p. bit_xor d (first_byte p)) a xs % 64
      ≡ fold (λ d p. bit_xor d (first_byte p)) b xs % 64
unfolding fold
fold-low [] a b h = h
fold-low (x ∷ xs) a b h =
    fold-low xs (bit_xor a (first_byte x)) (bit_xor b (first_byte x)) (low_64 a (first_byte x) b h)

zero_list : (n : ℕ) (xs : List ℕ) → length xs ≡ n → xor_into (replicate n 0) xs ≡ xs
zero_list n xs e =
    let z : n - length xs ≡ 0 = omega (arith, e) in
    zeros-xor_into n xs (omega (arith, e)) ∙ ap (λ k. xs ++ replicate k 0) z ∙ append-nil xs

-- What is left of a group from which all but one packet are removed again.
module _ (l : Bool) (b n m : ℕ) (before after : List RtpPacket) (lost : RtpPacket) where
  abbrev pub all_parts : FecParts
  all_parts = fold (mix b) (blank_parts n m) (before ++ lost ∷ after)

  abbrev pub started : Recovering
  started = record {
    octet_0 = first_of l all_parts.octet_0;
    octet_1 = all_parts.octet_1;
    timestamp = all_parts.timestamp_recovery;
    payload = all_parts.protected;
    recovery_length = all_parts.length_recovery;
  }

  abbrev pub left : Recovering
  left = fold unmix started (before ++ after)

  left_octet_0 : left.octet_0 % 64 ≡ first_byte lost % 64
  left_octet_0 =
      let add = λ (d : ℕ) (p : RtpPacket). bit_xor d (first_byte p) in
      let out = unmix_fields started (before ++ after) in
      let whole = mix_fields b (blank_parts n m) (before ++ lost ∷ after) in
      let low =
        fold-low (before ++ after) (first_of l all_parts.octet_0) all_parts.octet_0
          ((first_of_facts l all_parts.octet_0).1) in
      let one =
        fold_but add (λ d x y. bit_xor-swap d (first_byte x) (first_byte y))
          (λ d x. bit_xor-cancel d (first_byte x)) 0 before lost after in
      ap (λ k. k % 64) out.0
      ∙ low
      ∙ ap (λ k. fold add k (before ++ after) % 64) whole.0
      ∙ ap (λ k. k % 64) (one ∙ zero-bit_xor (first_byte lost))

  left_octet_1 : left.octet_1 ≡ lost.octet_m_and_payload_type
  left_octet_1 =
      let add = λ (d : ℕ) (p : RtpPacket). bit_xor d p.octet_m_and_payload_type in
      let out = unmix_fields started (before ++ after) in
      let whole = mix_fields b (blank_parts n m) (before ++ lost ∷ after) in
      let one =
        fold_but add (λ d x y. bit_xor-swap d x.octet_m_and_payload_type y.octet_m_and_payload_type)
          (λ d x. bit_xor-cancel d x.octet_m_and_payload_type) 0 before lost after in
      out.1
      ∙ ap (λ k. fold add k (before ++ after)) whole.1
      ∙ one
      ∙ zero-bit_xor lost.octet_m_and_payload_type

  -- The same for what is kept in lists.
  left_list :
      (f : RtpPacket → List ℕ) (k : ℕ)
      → fold
          (λ d p. xor_into d (f p))
          (fold (λ d p. xor_into d (f p)) (replicate k 0) (before ++ lost ∷ after))
          (before ++ after)
        ≡ xor_into (replicate k 0) (f lost)
  left_list f k =
      fold_but (λ d p. xor_into d (f p)) (λ d x y. xor_into-swap d (f x) (f y))
        (λ d x. xor_into-cancel d (f x)) (replicate k 0) before lost after

  left_timestamp : left.timestamp ≡ write_big_endian 4 lost.timestamp
  left_timestamp =
      let f = λ (p : RtpPacket). write_big_endian 4 p.timestamp in
      (unmix_fields started (before ++ after)).2
      ∙ ap (λ k. fold (λ d p. xor_into d (f p)) k (before ++ after))
          (mix_fields b (blank_parts n m) (before ++ lost ∷ after)).2
      ∙ left_list f 4
      ∙ zero_list 4 (f lost) (length-write_big_endian 4 lost.timestamp)

  pub left_length : left.recovery_length ≡ write_big_endian 2 (body_length lost)
  left_length =
      let f = λ (p : RtpPacket). write_big_endian 2 (body_length p) in
      (unmix_fields started (before ++ after)).3
      ∙ ap (λ k. fold (λ d p. xor_into d (f p)) k (before ++ after))
          (mix_fields b (blank_parts n m) (before ++ lost ∷ after)).3
      ∙ left_list f 2
      ∙ zero_list 2 (f lost) (length-write_big_endian 2 (body_length lost))

  left_payload :
      IsPacket lost
      → body_length lost ≤ m
      → left.payload ≡ body lost ++ replicate (m - body_length lost) 0
  left_payload v h =
      let e = length-body lost v in
      (unmix_fields started (before ++ after)).4
      ∙ ap (λ k. fold (λ d p. xor_into d (body p)) k (before ++ after))
          (mix_fields b (blank_parts n m) (before ++ lost ∷ after)).4
      ∙ left_list body m
      ∙ zeros-xor_into m (body lost) (omega (arith, e, h))
      ∙ ap (λ k. body lost ++ replicate (m - k) 0) e

  -- The first byte of the packet comes back, with the version that is set.
  head_byte : length lost.csrcs < 16 → bit_or (bit_and left.octet_0 0x3f) 0x80 ≡ first_byte lost
  head_byte few =
      let f = first_byte_flags lost few in
      let low : left.octet_0 % 64 < 2 ^ 7 = omega arith in
      ap (λ k. bit_or k 0x80) (bit_and_63 left.octet_0)
      ∙ bit_or-power 7 (left.octet_0 % 64) low
      ∙ ground (arith, left_octet_0, f.0, few)

  image_parts : image lost ≡ fixed_header lost ++ body lost
  unfolding image
  image_parts =
      ap (λ xs. fixed_header lost ++ xs)
        (sym (drop_front (fixed_header lost) _ 12 (length-fixed_header lost)))

  -- The recovered bytes are those of the packet, and zeros behind them.
  pub recovered_bytes-image :
      IsPacket lost
      → length lost.csrcs < 16
      → body_length lost ≤ m
      → recovered_bytes lost.ssrc lost.sequence_number left
        ≡ image lost ++ replicate (m - body_length lost) 0
  recovered_bytes-image v few h =
      let zeros : List ℕ = replicate (m - body_length lost) 0 in
      let w2 = write_big_endian 2 lost.sequence_number in
      let w4 = write_big_endian 4 lost.timestamp in
      let ws = write_big_endian 4 lost.ssrc in
      let e : (w2 ++ (w4 ++ (ws ++ (body lost ++ zeros))))
          ≡ (w2 ++ (w4 ++ ws)) ++ (body lost ++ zeros) =
        sym (
          append_assoc w2 (w4 ++ ws) (body lost ++ zeros)
          ∙ ap (λ xs. w2 ++ xs) (append_assoc w4 ws (body lost ++ zeros))) in
      let out : recovered_bytes lost.ssrc lost.sequence_number left
          ≡ fixed_header lost ++ (body lost ++ zeros) =
        unfold recovered_bytes fixed_header in
        rw (head_byte few, left_octet_1, left_timestamp, left_payload v h, e) refl in
      out
      ∙ sym (append_assoc (fixed_header lost) (body lost) zeros)
      ∙ ap (λ xs. xs ++ zeros) (sym image_parts)
