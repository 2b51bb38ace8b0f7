-- ===== src/Fec/Encoding.antt =====
-- `Encode` of src/rtp_rtcp/ulp_fec.cc for packets of which none is more important than the others.
use qo_srtp.Common.{
  ℕ, zero, suc, ◌+◌, ◌*◌, ◌≤◌, ◌<◌, ◌≡◌, refl, sym, ap, subst, ◌∙◌, true, false, none, some, List,
  [], ◌∷◌, map, arith, ◌==◌, ==_iff, length, get_elem?, All, IsU16, inc16,
}
use qo_srtp.Seq.Circle.{is_next_seq_iff}
use qo_srtp.Seq.{is_next_seq}
use qo_srtp.RtpPacket.Defs.{RtpPacket, empty_packet}
use qo_srtp.RtpPacket.Store.{store_fields}
use qo_srtp.Fec.Masks.{has_bit}
use qo_srtp.Fec.Packet.{FecEncoderConfig, source_length, blank_parts, build_fec_packet, fec_bytes}
use qo_srtp.Fec.Encoder.{gather, generate_fec_packets, check_packets, check_all}
use qo_srtp.Fec.Folds.{fold}
use qo_srtp.Fec.Group.{IsShort, loaded, source_length-loaded, mix, add_packets-mix}
use qo_srtp.Fec.Layout.{size_of_mask}
use qo_srtp.Fec.Carrier.{carrier, l, build_fec_packet-carrier}
use qo_srtp.Fec.Tables.{row_of}
use qo_srtp.Fec.Chosen.{chosen, chosen-map, longest, gather-chosen}

-- Packets of one ssrc whose numbers follow each other, the first one after `last`.
abbrev pub Follow : ℕ → ℕ → List RtpPacket → Type 0
Follow ssrc last [] = Unit {0}
Follow ssrc last (p ∷ ps) =
    (p.ssrc ≡ ssrc)
    × IsU16 p.sequence_number
    × (p.sequence_number ≡ inc16 last)
    × Follow ssrc p.sequence_number ps

abbrev pub IsRun : ℕ → List RtpPacket → Type 0
IsRun ssrc [] = Unit {0}
IsRun ssrc (p ∷ ps) = (p.ssrc ≡ ssrc) × IsU16 p.sequence_number × Follow ssrc p.sequence_number ps

check_packets-none :
    (ssrc last : ℕ) (ps : List RtpPacket)
    → IsU16 last
    → Follow ssrc last ps
    → check_packets ssrc last ps ≡ none
unfolding check_packets
check_packets-none ssrc last [] h f = refl
check_packets-none ssrc last (p ∷ ps) h (same, small, next, f) =
    let e : (ssrc == p.ssrc) ≡ true = (==_iff ssrc p.ssrc).1 (sym same) in
    let n : is_next_seq last p.sequence_number ≡ true =
      (is_next_seq_iff last p.sequence_number h small).1 next in
    rw (check_packets, e, n) (check_packets-none ssrc p.sequence_number ps small f)

pub check_all-none : (ssrc : ℕ) (ps : List RtpPacket) → IsRun ssrc ps → check_all ssrc ps ≡ none
unfolding check_all
check_all-none ssrc [] f = refl
check_all-none ssrc (p ∷ ps) (same, small, f) =
    let e : (ssrc == p.ssrc) ≡ true = (==_iff ssrc p.ssrc).1 (sym same) in
    rw (check_all, e) (check_packets-none ssrc p.sequence_number ps small f)

pub loaded-short :
    (memory : ℕ → ℕ) (ps : List RtpPacket)
    → All IsShort ps
    → All (λ d. source_length d ≤ 32767) (map (loaded memory) ps)
loaded-short memory [] h = tt
loaded-short memory (p ∷ ps) (h, hs) =
    (omega (arith, source_length-loaded memory p h, h.short), loaded-short memory ps hs)

length-map {ℓ κ} :
    {A : Type ℓ} {B : Type κ} (f : A → B) (xs : List A) → length (map f xs) ≡ length xs
length-map f [] = refl
length-map f (x ∷ xs) = ap suc (length-map f xs)

-- A group of short packets gives a FEC packet.
pub build_some :
    (memory : ℕ → ℕ) (config : FecEncoderConfig) (p : RtpPacket) (ps : List RtpPacket) (len : ℕ)
    → All IsShort (p ∷ ps)
    → (fec : RtpPacket) × (build_fec_packet config (map (loaded memory) (p ∷ ps)) len ≡ some fec)
build_some memory config p ps len short =
    let blank = blank_parts (size_of_mask (l memory config p ps len)) len in
    let parts = fold (mix p.sequence_number) blank (p ∷ ps) in
    (
      (store_fields
          (carrier config 0 (fec_bytes p.sequence_number (l memory config p ps len) len parts))
          empty_packet).1,
      build_fec_packet-carrier memory config p ps len parts
          (add_packets-mix memory p.sequence_number (p ∷ ps) blank short),
    )

module _ (memory : ℕ → ℕ) (config : FecEncoderConfig) (packets : List RtpPacket) (masks : List ℕ)
    (size : ℕ) where
  -- The packets that row r protects, and the greatest length behind their fixed headers.
  abbrev pub group_of : ℕ → List RtpPacket
  group_of r = chosen (row_of size masks r) 0 packets

  abbrev pub max_length_of : ℕ → ℕ
  max_length_of r = longest 0 (map (loaded memory) (group_of r))

  abbrev pub BuildsRow : ℕ → RtpPacket → Type 0
  BuildsRow r fec =
      build_fec_packet config (map (loaded memory) (group_of r)) (max_length_of r) ≡ some fec

  gathered :
      (r : ℕ)
      → length packets ≤ size * 8
      → ((x : ℕ) → length packets ≤ x → x < size * 8 → has_bit (row_of size masks r) x ≡ false)
      → gather (row_of size masks r) (size * 8) 0 (map (loaded memory) packets) 0
        ≡ some (map (loaded memory) (group_of r), max_length_of r)
  gathered r fits behind =
      let e = chosen-map (loaded memory) (row_of size masks r) 0 packets in
      let long = length-map (loaded memory) packets in
      gather-chosen (row_of size masks r) (size * 8) 0 (map (loaded memory) packets) 0
        (omega (arith, long, fits))
        (λ x lo hi. behind x (omega (arith, long, lo)) (omega (arith, hi)))
      ∙ ap (λ xs. some (xs, longest 0 xs)) e

  at_place :
      (fec : RtpPacket) (fecs : List RtpPacket) (i rounds : ℕ)
      → BuildsRow i fec
      → ((r : ℕ)
          → r < rounds
          → (f : RtpPacket) × (get_elem? fecs r ≡ some f) × BuildsRow (i + 1 + r) f)
      → (r : ℕ) → r < suc rounds
      → (f : RtpPacket) × (get_elem? (fec ∷ fecs) r ≡ some f) × BuildsRow (i + r) f
  at_place fec fecs i rounds here each zero h =
      (fec, refl, subst (λ k. BuildsRow k fec) (let e : i ≡ i + 0 = omega arith in e) here)
  at_place fec fecs i rounds here each (suc r) h =
      let (f, found, built) = each r (omega arith) in
      (
        f,
        found,
        subst (λ k. BuildsRow k f) (let e : i + 1 + r ≡ i + suc r = omega arith in e) built,
      )

  pub generate_some :
      (rounds i : ℕ)
      → length packets ≤ size * 8
      → ((r x : ℕ)
          → i ≤ r
          → r < i + rounds
          → length packets ≤ x
          → x < size * 8
          → has_bit (row_of size masks r) x ≡ false)
      → ((r : ℕ) → i ≤ r → r < i + rounds → (fec : RtpPacket) × BuildsRow r fec)
      → (fecs : List RtpPacket) × (generate_fec_packets config
            (map (loaded memory) packets)
            size
            rounds
            i
            masks
          ≡ some fecs)
        × (length fecs ≡ rounds)
        × ((r : ℕ)
            → r < rounds
            → (fec : RtpPacket) × (get_elem? fecs r ≡ some fec) × BuildsRow (i + r) fec)
  unfolding generate_fec_packets
  generate_some zero i fits behind built = ([], refl, refl, λ r h. absurd (omega arith))
  generate_some (suc rounds) i fits behind built =
      let (fec, here) = built i (omega arith) (omega arith) in
      let (fecs, later, long, each) =
        generate_some rounds (i + 1) fits (λ r x lo hi. behind r x (omega arith) (omega arith))
          (λ r lo hi. built r (omega arith) (omega arith)) in
      let g = gathered i fits (λ x lo hi. behind i x (omega arith) (omega arith) lo hi) in
      (
        fec ∷ fecs,
        rw (generate_fec_packets, g, here, later) refl,
        ap suc long,
        at_place fec fecs i rounds here each,
      )
