-- ===== src/Fec/Group.antt =====
-- What the loops over a group of packets add up, in `BuildFecPacket` and in `FecRecoverPacket` of
-- src/rtp_rtcp/ulp_fec.cc.
use qo_srtp.Common.{
  ℕ, ◌-◌, ◌/◌, ◌%◌, ◌≤◌, ◌<◌, min, bit_xor, ◌≡◌, refl, ap, subst, ◌∙◌, inl, inr, true, some, List,
  [], ◌∷◌, map, arith, ◌==◌, le→ltb, ==_iff, Bool-cases, length, get_or, take, drop, All,
  length-drop, take-all, take_front, u8, u16, sub32,
}
use qo_srtp.Seq.{diff_seq}
use qo_srtp.ByteIo.{write_big_endian, write_big_loop, host_bytes}
use qo_srtp.ByteIo.RoundTrip.{length-write_big_endian}
use qo_srtp.RtpPacket.Defs.{RtpPacket}
use qo_srtp.RtpPacket.Store.{buffer_length}
use qo_srtp.RtpPacket.Load.{load_packet, first_byte}
use qo_srtp.RtpPacket.Layout.{IsPacket, image, fixed_header, load_packet-image, length-image}
use qo_srtp.RtpPacket.Fields.{drop_four}
use qo_srtp.Fec.Packet.{
  RtpPacketData, source_length, xor_into, FecParts, mask_with, add_packet, add_packets,
}
use qo_srtp.Fec.Decoder.{Recovering, remove_packet, remove_packets}
use qo_srtp.Fec.Folds.{fold, xor_into-nil, xor_into-zeros}

-- A packet whose buffers are as long as their sizes say, with at most 32767 bytes behind its fixed
-- header.
pub record IsShort (packet : RtpPacket) : Type 0 where
  pub whole : IsPacket packet
  pub short : buffer_length packet ≤ 32779

-- The bytes behind the fixed header.
abbrev pub body : RtpPacket → List ℕ
body packet = drop 12 (image packet)

abbrev pub body_length : RtpPacket → ℕ
body_length packet = buffer_length packet - 12

abbrev pub loaded : (ℕ → ℕ) → RtpPacket → RtpPacketData
loaded memory packet = record { packet_struct = packet; packet_buffer = load_packet memory packet }

pub twelve-le-buffer_length : (packet : RtpPacket) → 12 ≤ buffer_length packet
unfolding buffer_length
twelve-le-buffer_length packet = omega arith

pub length-body : (packet : RtpPacket) → IsPacket packet → length (body packet) ≡ body_length packet
length-body packet v = omega (arith, length-drop 12 (image packet), length-image (λ _. 0) packet v)

take-whole : (xs : List ℕ) (n : ℕ) → length xs ≡ n → take n xs ≡ xs
take-whole xs n e = subst (λ k. take k xs ≡ xs) e (take-all xs)

-- What a round adds for a packet that `LoadPacket` wrote.
unfoldable pub mix : ℕ → FecParts → RtpPacket → FecParts
mix seq_base parts packet = record {
  octet_0 = bit_xor parts.octet_0 (first_byte packet);
  octet_1 = bit_xor parts.octet_1 packet.octet_m_and_payload_type;
  timestamp_recovery = xor_into parts.timestamp_recovery (write_big_endian 4 packet.timestamp);
  length_recovery = xor_into parts.length_recovery (write_big_endian 2 (body_length packet));
  fec_mask = mask_with parts.fec_mask (u8 (diff_seq seq_base packet.sequence_number));
  protected = xor_into parts.protected (body packet);
}

unfoldable pub unmix : Recovering → RtpPacket → Recovering
unmix state packet = record {
  octet_0 = bit_xor state.octet_0 (first_byte packet);
  octet_1 = bit_xor state.octet_1 packet.octet_m_and_payload_type;
  timestamp = xor_into state.timestamp (write_big_endian 4 packet.timestamp);
  payload = xor_into state.payload (body packet);
  recovery_length = xor_into state.recovery_length (write_big_endian 2 (body_length packet));
}

module _ (memory : ℕ → ℕ) (packet : RtpPacket) (v : IsShort packet) where
  bytes : (load_packet memory packet).buffer ≡ image packet
  bytes = (load_packet-image memory packet v.whole).1

  size : (load_packet memory packet).size ≡ buffer_length packet
  size = (load_packet-image memory packet v.whole).0

  pub source_length-loaded : source_length (loaded memory packet) ≡ body_length packet
  unfolding source_length
  source_length-loaded = rw size (omega (arith, v.short, twelve-le-buffer_length packet))

  first : get_or (image packet) 0 0 ≡ first_byte packet
  first = unfold image fixed_header in refl

  second : get_or (image packet) 1 0 ≡ packet.octet_m_and_payload_type
  second = unfold image fixed_header in refl

  stamp : take 4 (drop 4 (image packet)) ≡ write_big_endian 4 packet.timestamp
  stamp =
      ap (take 4) (drop_four packet) ∙ take_front _ _ 4 (length-write_big_endian 4 packet.timestamp)

  payload : take (body_length packet) (body packet) ≡ body packet
  payload = take-whole _ _ (length-body packet v.whole)

  add_packet-mix :
      (seq_base : ℕ) (parts : FecParts)
      → add_packet seq_base (loaded memory packet) parts ≡ mix seq_base parts packet
  unfolding add_packet mix
  add_packet-mix seq_base parts =
      rw (add_packet, source_length-loaded, bytes, first, second, stamp, payload) refl

  two_bytes : (n : ℕ) → n < 65536 → (n / 256 ∷ n % 256 ∷ []) ≡ write_big_endian 2 n
  unfolding write_big_endian write_big_loop host_bytes
  two_bytes n h = ap (λ b. b ∷ n % 256 ∷ []) (let e : n / 256 ≡ n / 256 % 256 = omega arith in e)

  no_bytes : (xs : List ℕ) (n : ℕ) → (n == 0) ≡ true → length xs ≡ n → xs ≡ []
  no_bytes [] n e h = refl
  no_bytes (x ∷ xs) n e h = absurd (ground arith)

  no_length : (d : List ℕ) (n : ℕ) → (n == 0) ≡ true → xor_into d (write_big_endian 2 n) ≡ d
  unfolding write_big_endian write_big_loop host_bytes
  no_length d n e = let z : n ≡ 0 = (==_iff n 0).0 e in rw z (xor_into-zeros d 2)

  -- A packet without a payload adds nothing to the length and the payload, so that leaving it out
  -- there makes no difference.
  remove_packet-unmix :
      (protection_length : ℕ) (state : Recovering)
      → body_length packet ≤ protection_length
      → remove_packet protection_length (load_packet memory packet) state ≡ unmix state packet
  unfolding remove_packet unmix
  remove_packet-unmix protection_length state h =
      let e : u16 (sub32 (buffer_length packet) 12) ≡ body_length packet =
        omega (arith, v.short, twelve-le-buffer_length packet) in
      let m : min (body_length packet) protection_length ≡ body_length packet = omega (arith, h) in
      let b = two_bytes (body_length packet) (omega (arith, v.short)) in
      rw (remove_packet, bytes, size, e, m, b, first, second, stamp, payload)
        (elim (Bool-cases (body_length packet == 0)) [
          | inr more ↦ rw more refl
          | inl done ↦
              rw
                (
                  done,
                  no_bytes (body packet) (body_length packet) done (length-body packet v.whole),
                  xor_into-nil state.payload,
                  no_length state.recovery_length (body_length packet) done,
                )
                refl
        ])

pub add_packets-mix :
    (memory : ℕ → ℕ) (seq_base : ℕ) (group : List RtpPacket) (parts : FecParts)
    → All IsShort group
    → add_packets seq_base (map (loaded memory) group) parts
      ≡ some (fold (mix seq_base) parts group)
unfolding add_packets fold
add_packets-mix memory seq_base [] parts h = refl
add_packets-mix memory seq_base (packet ∷ group) parts (h, hs) =
    let long = le→ltb 32767 (body_length packet) (omega (arith, h.short)) in
    rw
      (
        add_packets,
        source_length-loaded memory packet h,
        long,
        add_packet-mix memory packet h seq_base parts,
      )
      (add_packets-mix memory seq_base group (mix seq_base parts packet) hs)

pub remove_packets-unmix :
    (memory : ℕ → ℕ) (protection_length : ℕ) (group : List RtpPacket) (state : Recovering)
    → All IsShort group
    → All (λ p. body_length p ≤ protection_length) group
    → remove_packets protection_length (map (load_packet memory) group) state
      ≡ fold unmix state group
unfolding remove_packets fold
remove_packets-unmix memory protection_length [] state h f = refl
remove_packets-unmix memory protection_length (packet ∷ group) state (h, hs) (f, fs) =
    ap (remove_packets protection_length (map (load_packet memory) group))
      (remove_packet-unmix memory packet h protection_length state f)
    ∙ remove_packets-unmix memory protection_length group (unmix state packet) hs fs
