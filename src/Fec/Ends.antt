-- ===== src/Fec/Ends.antt =====
-- From `Encode` to `FecRecoverPacket` of src/rtp_rtcp/ulp_fec.cc, for packets of which none is more
-- important than the others.
use qo_srtp.Common.{
  ℕ, ◌+◌, ◌*◌, ◌≤◌, ◌<◌, ◌≡◌, sym, ap, subst, ◌∙◌, true, false, none, some, List, [], ◌∷◌, ◌++◌,
  map, arith, ◌==◌, le→ltb, length, get_elem?, replicate, All, u8,
}
use qo_srtp.DataBuffer.{write}
use qo_srtp.RtpPacket.Defs.{RtpPacket}
use qo_srtp.RtpPacket.Store.{payload_bytes, buffer_length}
use qo_srtp.RtpPacket.Load.{load_packet}
use qo_srtp.RtpPacket.RoundTrip.{InRange}
use qo_srtp.Fec.Masks.{FecMaskType, packet_mask_size, num_fec_packets, has_bit}
use qo_srtp.Fec.Unequal.{ImportantPacketsProtectionMethod, generate_packet_masks}
use qo_srtp.Fec.Packet.{FecEncoderConfig, source_length, build_fec_packet}
use qo_srtp.Fec.Encoder.{
  UlpFecEncoder, Encoded, encoded, generate_fec_packets, encode_checked, encode,
}
use qo_srtp.Fec.Decoder.{FecDecoderConfig, CachedPacket, fec_recover_packet}
use qo_srtp.Fec.Group.{IsShort, body_length, loaded, source_length-loaded}
use qo_srtp.Fec.Tables.{row_of}
use qo_srtp.Fec.Important.{num_fec_packets_bounds}
use qo_srtp.Fec.Rows.{ProtectsAll, generate_packet_masks-ProtectsAll}
use qo_srtp.Fec.Chosen.{chosen-All, chosen_some, longest-le, longest_bound}
use qo_srtp.Fec.Recovered.{read_back, recovered-read_back}
use qo_srtp.Fec.Recovery.{the_one}
use qo_srtp.Fec.Encoding.{
  IsRun, check_all-none, build_some, loaded-short, group_of, max_length_of, BuildsRow,
  generate_some,
}

-- The masks that `Encode` leaves.
abbrev pub masks_after :
    UlpFecEncoder → ImportantPacketsProtectionMethod → FecMaskType → ℕ → ℕ → List ℕ
masks_after self method t m factor =
    generate_packet_masks m (num_fec_packets m factor) 0 method t (packet_mask_size m)
      (write self.fec_packet_mask 0 (replicate (num_fec_packets m factor * packet_mask_size m) 0))

bodies :
    (memory : ℕ → ℕ) (group : List RtpPacket) (len : ℕ)
    → All IsShort group
    → All (λ d. source_length d ≤ len) (map (loaded memory) group)
    → All (λ p. body_length p ≤ len) group
bodies memory [] len h f = tt
bodies memory (p ∷ group) len (h, hs) (f, fs) =
    (omega (arith, source_length-loaded memory p h, f), bodies memory group len hs fs)

module _ (memory : ℕ → ℕ) (packets : List RtpPacket) (method : ImportantPacketsProtectionMethod)
    (factor : ℕ) (t : FecMaskType) (self : UlpFecEncoder) (config : FecEncoderConfig)
    (configured : self.config ≡ some config) (run : IsRun config.ssrc packets)
    (short : All IsShort packets) (some_packets : 0 < length packets) (few : length packets ≤ 48)
    (byte : factor ≤ 255) where
  abbrev m : ℕ
  m = length packets

  abbrev n : ℕ
  n = num_fec_packets m factor

  abbrev size : ℕ
  size = packet_mask_size m

  abbrev masks : List ℕ
  masks = masks_after self method t m factor

  bounds : (n ≤ m) × (0 < factor → 0 < n) × (factor ≡ 0 → n ≡ 0) × (n * size ≤ 288) × (m ≤ size * 8)
  bounds = num_fec_packets_bounds m factor some_packets few byte

  protects : 0 < n → ProtectsAll masks size m n
  protects hn = generate_packet_masks-ProtectsAll t method m n _ some_packets few hn bounds.0

  builds : (r : ℕ) → r < n → (fec : RtpPacket) × BuildsRow memory config packets masks size r fec
  builds r hr =
      let (x, hx, bit) = (protects (omega (arith, hr))).row_used r hr in
      let z : 0 + x ≡ x = omega arith in
      let (first, rest, e) =
        chosen_some (row_of size masks r) 0 x packets hx
          (ap (has_bit (row_of size masks r)) z ∙ bit) in
      let all_short =
        subst (All IsShort) e (chosen-All IsShort (row_of size masks r) 0 packets short) in
      let (fec, built) =
        build_some memory config first rest (max_length_of memory config packets masks size r)
          all_short in
      (
        fec,
        ap
              (λ g.
                build_fec_packet config (map (loaded memory) g)
                  (max_length_of memory config packets masks size r))
              e
            ∙ built,
      )

  encode_run :
      (fecs : List RtpPacket)
      → generate_fec_packets config (map (loaded memory) packets) size n 0 masks ≡ some fecs
      → encode memory packets 0 method factor t self
        ≡ (encoded fecs, record self { fec_packet_mask = masks })
  unfolding encode encode_checked
  encode_run fecs made =
      let not_empty : (m == 0) ≡ false = ground (arith, some_packets) in
      let not_many = le→ltb 48 m few in
      let none_important = le→ltb m 0 (omega arith) in
      let whole : u8 n ≡ n = omega (arith, bounds.0, few) in
      let fine = check_all-none config.ssrc packets run in
      rw
        (encode, not_empty, not_many, none_important, configured, fine, encode_checked, whole, made)
        (λ i. (encoded fecs, record { config = configured i; fec_packet_mask = masks }))

  -- A configured encoder, 1 to 48 packets of its ssrc whose numbers follow each other, with at most
  -- 32767 bytes behind their fixed headers and buffers as long as their sizes say, no important
  -- packets, and a factor of at most 255: Encode ends without undefined behaviour and without an
  -- error and makes as many FEC packets as NumFecPackets says, the one at place r by BuildFecPacket
  -- from the packets in row r of the masks. If the factor is not 0, every packet is in a row.
  pub encode-encoded :
      (fecs : List RtpPacket) × (encode memory packets 0 method factor t self
        ≡ (encoded fecs, record self { fec_packet_mask = masks }))
      × (length fecs ≡ n)
      × ((r : ℕ)
          → r < n
          → (fec : RtpPacket) × (get_elem? fecs r ≡ some fec)
            × BuildsRow memory config packets masks size r fec)
      × (0 < factor
          → (x : ℕ) → x < m
          → (r : ℕ) × (r < n) × (has_bit (row_of size masks r) x ≡ true))
  encode-encoded =
      let (fecs, made, long, each) =
        generate_some memory config packets masks size n 0 bounds.4
          (λ r x lo hi behind in_row.
            (protects (omega (arith, hi))).none_behind r x (omega (arith, hi)) behind in_row)
          (λ r lo hi. builds r (omega (arith, hi))) in
      (
        fecs,
        encode_run fecs made,
        long,
        λ r hr.
            let (fec, found, built) = each r hr in
            (
              fec,
              found,
              subst (λ k. BuildsRow memory config packets masks size k fec)
                  (let z : 0 + r ≡ r = omega arith in z) built,
            ),
        λ hf x hx. (protects (bounds.1 hf)).packet_used x hx,
      )

  -- Under the same conditions: when exactly one packet of a row is missing and has a payload, no
  -- extension and no padding, in the ranges of its fields, FecRecoverPacket of a decoder for its
  -- ssrc makes it again from the FEC packet of the row, with any sequence number, and the others of
  -- the row: with its fixed fields, its payload and its CSRCs, of which the bytes come back
  -- reversed.
  pub encode-recovered :
      (memory' memory'' : ℕ → ℕ) (decoder : FecDecoderConfig) (r : ℕ)
      (before after : List RtpPacket) (lost : RtpPacket) (seq_fec : ℕ) (beyond : List ℕ)
      → r < n
      → group_of memory config packets masks size r ≡ before ++ lost ∷ after
      → decoder.ssrc ≡ lost.ssrc
      → InRange lost
      → lost.extension ≡ none
      → lost.pad_size ≡ 0
      → 0 < payload_bytes lost.payload_buffer
      → (fecs : List RtpPacket) × ((encode memory packets 0 method factor t self).0 ≡ encoded fecs)
        × (fec : RtpPacket) × (get_elem? fecs r ≡ some fec)
        × (c : CachedPacket) × (fec_recover_packet memory'' beyond decoder
              (load_packet memory' (record fec { sequence_number = seq_fec }))
              lost.sequence_number
              (map (load_packet memory) (before ++ after))
            ≡ some c)
        × (c.rtp_struct ≡ read_back lost)
  encode-recovered memory' memory'' decoder r before after lost seq_fec beyond hr split same_ssrc
        range no_extension no_padding with_payload =
      let (fecs, encodes, long, each, covers) = encode-encoded in
      let (fec, found, built) = each r hr in
      let len = max_length_of memory config packets masks size r in
      let all_short : All IsShort (before ++ lost ∷ after) =
        subst (All IsShort) split (chosen-All IsShort (row_of size masks r) 0 packets short) in
      let datas = map (loaded memory) (group_of memory config packets masks size r) in
      let within : All (λ p. body_length p ≤ len) (before ++ lost ∷ after) =
        bodies memory (before ++ lost ∷ after) len all_short (
          subst (λ g. All (λ d. source_length d ≤ len) (map (loaded memory) g)) split
            (longest-le 0 datas).1) in
      let lost_short = the_one IsShort before lost after all_short in
      let lost_within = the_one (λ p. body_length p ≤ len) before lost after within in
      let has_bytes : 0 < body_length lost = unfold buffer_length in omega (arith, with_payload) in
      let small : len ≤ 32767 = longest_bound 0 32767 datas (omega arith) (
        loaded-short memory (group_of memory config packets masks size r)
          (chosen-All IsShort (row_of size masks r) 0 packets short)) in
      let (fec', built', c, recovers, same) =
        recovered-read_back memory memory' memory'' config decoder before after lost len seq_fec
          beyond all_short within (omega (arith, has_bytes, lost_within)) small same_ssrc
          lost_short.whole range no_extension no_padding with_payload in
      let equal : some fec' ≡ some fec =
        sym built'
        ∙ ap (λ g. build_fec_packet config (map (loaded memory) g) len) (sym split)
        ∙ built in
      let same_fec : fec' ≡ fec = cc in
      (
        fecs,
        ap (λ (out : Encoded × UlpFecEncoder). out.0) encodes,
        fec,
        found,
        c,
        subst
            (λ f.
              fec_recover_packet memory'' beyond decoder
                (load_packet memory' (record f { sequence_number = seq_fec })) lost.sequence_number
                (map (load_packet memory) (before ++ after))
              ≡ some c)
            same_fec recovers,
        same,
      )
