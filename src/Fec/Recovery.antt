-- ===== src/Fec/Recovery.antt =====
-- A packet that is lost of a group, and recovered from the FEC packet of the group and the others:
-- `BuildFecPacket` and `FecRecoverPacket` of src/rtp_rtcp/ulp_fec.cc.
use mathlib.Core.List.{append-nil}
use qo_srtp.Common.{
  ℕ, ◌+◌, ◌-◌, ◌≤◌, ◌<◌, ◌≡◌, refl, sym, ap, ap₂, ◌∙◌, Bool, false, some, List, [], ◌∷◌, ◌++◌, map,
  arith, ltb, leb, length, take, drop, replicate, All, take-all, u16, sub32,
}
use qo_srtp.ByteIo.{read_big_endian}
use qo_srtp.ByteIo.RoundTrip.{read-write}
use qo_srtp.DataBuffer.{DataBuffer}
use qo_srtp.RtpPacket.Defs.{RtpPacket}
use qo_srtp.RtpPacket.Store.{buffer_length}
use qo_srtp.RtpPacket.Load.{load_packet}
use qo_srtp.RtpPacket.Layout.{load_packet-image}
use qo_srtp.Fec.Packet.{
  FecEncoderConfig, FecParts, blank_parts, add_packets, fec_bytes, build_fec_packet,
}
use qo_srtp.Fec.Decoder.{
  FecDecoderConfig, mask_length, Recovering, remove_packets, start_recovering, recovered_bytes,
  store_recovered, fec_recover_packet,
}
use qo_srtp.Fec.Carrier.{
  carrier, store_fields-carrier, load_packet-carrier, l, build_fec_packet-carrier,
}
use qo_srtp.Fec.Group.{
  IsShort, body_length, loaded, twelve-le-buffer_length, add_packets-mix, remove_packets-unmix,
}
use qo_srtp.Fec.Layout.{
  size_of_mask, FillsFields, blank_parts-FillsFields, fold-FillsFields, length-fec_bytes,
  mask_length-fec_bytes, protection_length-read, start_recovering-parts,
}
use qo_srtp.Fec.Leftover.{all_parts, left, left_length, recovered_bytes-image}

-- The run of `FecRecoverPacket` on the FEC payload `header`.
module _ (memory : ℕ → ℕ) (beyond : List ℕ) (decoder : FecDecoderConfig) (fec_buffer : DataBuffer)
    (seq : ℕ) (media : List DataBuffer) (header : List ℕ) (pl ms size : ℕ) (state : Recovering)
    (sized : fec_buffer.size ≡ 12 + length header) (there : drop 12 fec_buffer.buffer ≡ header)
    (masked : mask_length header ≡ ms) (protecting : read_big_endian 2 (drop 10 header) ≡ pl)
    (long : length header ≡ 12 + ms + pl) (some_bytes : 0 < pl) (small : length header < 65536)
    (run : remove_packets pl media (start_recovering header pl beyond) ≡ state)
    (length_read : read_big_endian 2 state.recovery_length + 12 ≡ size)
    (fits : size ≤ pl + 12) where
  fec_recover_packet_run :
      fec_recover_packet memory beyond decoder fec_buffer seq media
      ≡ store_recovered memory decoder (record {
        size = size;
        capacity = pl + 12;
        buffer = recovered_bytes decoder.ssrc seq state;
      })
  unfolding fec_recover_packet
  fec_recover_packet_run =
      let cut : take (fec_buffer.size - 12) (drop 12 fec_buffer.buffer) ≡ header =
        ap₂ take (let z : fec_buffer.size - 12 ≡ length header = omega (arith, sized) in z) there
        ∙ take-all header in
      let whole : u16 (sub32 fec_buffer.size 12) ≡ 12 + ms + pl =
        omega (arith, sized, long, small) in
      let enough : leb (12 + ms + pl) (12 + ms) ≡ false = ground arith in
      let exact : ltb pl (12 + ms + pl - (12 + ms)) ≡ false = ground arith in
      let kept : ltb (pl + 12) size ≡ false = ground arith in
      rw (fec_recover_packet, cut, whole, masked, protecting, run, length_read, enough, exact, kept)
        refl

-- What holds of every packet of a group.
all_but {κ} :
    (P : RtpPacket → Type κ) (before : List RtpPacket) (lost : RtpPacket) (after : List RtpPacket)
    → All P (before ++ lost ∷ after)
    → All P (before ++ after)
all_but P [] lost after h = h.1
all_but P (p ∷ before) lost after h = (h.0, all_but P before lost after h.1)

pub the_one {κ} :
    (P : RtpPacket → Type κ) (before : List RtpPacket) (lost : RtpPacket) (after : List RtpPacket)
    → All P (before ++ lost ∷ after)
    → P lost
the_one P [] lost after h = h.0
the_one P (p ∷ before) lost after h = the_one P before lost after h.1

split_first :
    (xs : List RtpPacket) (x : RtpPacket) (ys : List RtpPacket)
    → (first : RtpPacket) × (rest : List RtpPacket) × (xs ++ x ∷ ys ≡ first ∷ rest)
split_first [] x ys = (x, ys, refl)
split_first (first ∷ xs) x ys = (first, xs ++ x ∷ ys, refl)

module _ (memory memory' memory'' : ℕ → ℕ) (config : FecEncoderConfig) (decoder : FecDecoderConfig)
    (before after : List RtpPacket) (lost : RtpPacket) (max_length seq_fec : ℕ) (beyond : List ℕ)
    (short : All IsShort (before ++ lost ∷ after))
    (protected : All (λ p. body_length p ≤ max_length) (before ++ lost ∷ after))
    (few : length lost.csrcs < 16) (some_bytes : 0 < max_length) (few_bytes : max_length ≤ 32767)
    (same_ssrc : decoder.ssrc ≡ lost.ssrc) where
  abbrev group : List RtpPacket
  group = before ++ lost ∷ after

  -- The buffer that the recovered packet is parsed from.
  abbrev pub recovered : DataBuffer
  recovered = record {
    size = buffer_length lost;
    capacity = max_length + 12;
    buffer = (load_packet memory lost).buffer ++ replicate (max_length - body_length lost) 0;
  }

  module _ (first : RtpPacket) (packets : List RtpPacket) (e : group ≡ first ∷ packets) where
    abbrev l' : Bool
    l' = l memory config first packets max_length

    abbrev parts : FecParts
    parts = all_parts l' first.sequence_number (size_of_mask l') max_length before after lost

    abbrev payload : List ℕ
    payload = fec_bytes first.sequence_number l' max_length parts

    fills : FillsFields (size_of_mask l') max_length parts
    fills =
        fold-FillsFields (size_of_mask l') max_length first.sequence_number group
          (blank_parts (size_of_mask l') max_length)
          (blank_parts-FillsFields (size_of_mask l') max_length)

    long : length payload ≡ 12 + size_of_mask l' + max_length
    long =
        length-fec_bytes l' first.sequence_number max_length parts fills (omega (arith, few_bytes))

    mask_few : size_of_mask l' ≤ 6
    mask_few = ground arith

    small : length payload < 65536
    small = omega (arith, long, mask_few, few_bytes)

    built :
        build_fec_packet config (map (loaded memory) group) max_length
        ≡ some (carrier config 0 payload)
    built =
        let blank = blank_parts (size_of_mask l') max_length in
        let sum : add_packets first.sequence_number (map (loaded memory) (first ∷ packets)) blank
            ≡ some parts =
          ap (λ g. add_packets first.sequence_number (map (loaded memory) g) blank) (sym e)
          ∙ add_packets-mix memory first.sequence_number group blank short in
        ap (λ g. build_fec_packet config (map (loaded memory) g) max_length) e
        ∙ build_fec_packet-carrier memory config first packets max_length parts sum
        ∙ ap some (store_fields-carrier config payload small)

    others-IsShort : All IsShort (before ++ after)
    others-IsShort = all_but IsShort before lost after short

    others_protected : All (λ p. body_length p ≤ max_length) (before ++ after)
    others_protected = all_but (λ p. body_length p ≤ max_length) before lost after protected

    lost-IsShort : IsShort lost
    lost-IsShort = the_one IsShort before lost after short

    lost_protected : body_length lost ≤ max_length
    lost_protected = the_one (λ p. body_length p ≤ max_length) before lost after protected

    abbrev left' : Recovering
    left' = left l' first.sequence_number (size_of_mask l') max_length before after lost

    run :
        remove_packets max_length
          (map (load_packet memory) (before ++ after))
          (start_recovering payload max_length beyond)
        ≡ left'
    run =
        ap (remove_packets max_length (map (load_packet memory) (before ++ after))) (
          start_recovering-parts l' first.sequence_number max_length parts fills
            (omega (arith, few_bytes)) beyond)
        ∙ remove_packets-unmix memory max_length (before ++ after) _ others-IsShort others_protected

    ran :
        fec_recover_packet memory'' beyond decoder
          (load_packet memory' (carrier config seq_fec payload))
          lost.sequence_number
          (map (load_packet memory) (before ++ after))
        ≡ store_recovered memory'' decoder recovered
    ran =
        let packed = load_packet-carrier config payload small memory' seq_fec in
        let ml =
          mask_length-fec_bytes l' first.sequence_number max_length parts fills
            (omega (arith, few_bytes)) in
        let pl =
          protection_length-read l' first.sequence_number max_length parts fills
            (omega (arith, few_bytes)) in
        let lost_bytes : body_length lost < 65536 = omega (arith, lost_protected, few_bytes) in
        let len : read_big_endian 2 left'.recovery_length + 12 ≡ buffer_length lost = omega (
          arith,
          ap (read_big_endian 2) (
              left_length l' first.sequence_number (size_of_mask l') max_length before after lost
              ∙ sym (append-nil _)),
          (read-write 2 (body_length lost) [] lost_bytes).0,
          twelve-le-buffer_length lost,
        ) in
        let same : recovered_bytes decoder.ssrc lost.sequence_number left' ≡ recovered.buffer =
          ap (λ s. recovered_bytes s lost.sequence_number left') same_ssrc
          ∙ recovered_bytes-image l' first.sequence_number (size_of_mask l') max_length before after
              lost lost-IsShort.whole few lost_protected
          ∙ ap (λ xs. xs ++ replicate (max_length - body_length lost) 0)
              (sym (load_packet-image memory lost lost-IsShort.whole).1) in
        fec_recover_packet_run memory'' beyond decoder
          (load_packet memory' (carrier config seq_fec payload)) lost.sequence_number
          (map (load_packet memory) (before ++ after)) payload max_length (size_of_mask l')
          (buffer_length lost) left' packed.0 packed.1 ml pl long some_bytes small run len
          (omega (arith, lost_protected, twelve-le-buffer_length lost))
        ∙ ap
            (λ xs.
              store_recovered memory'' decoder
                (record { size = buffer_length lost; capacity = max_length + 12; buffer = xs }))
            same

    both :
        (fec : RtpPacket) × (build_fec_packet config (map (loaded memory) group) max_length
          ≡ some fec)
        × (fec_recover_packet memory'' beyond decoder
              (load_packet memory' (record fec { sequence_number = seq_fec }))
              lost.sequence_number
              (map (load_packet memory) (before ++ after))
            ≡ store_recovered memory'' decoder recovered)
    both = (carrier config 0 payload, built, ran)

  pub fec_recover_packet-build_fec_packet :
      (fec : RtpPacket) × (build_fec_packet config (map (loaded memory) group) max_length
        ≡ some fec)
      × (fec_recover_packet memory'' beyond decoder
            (load_packet memory' (record fec { sequence_number = seq_fec }))
            lost.sequence_number
            (map (load_packet memory) (before ++ after))
          ≡ store_recovered memory'' decoder recovered)
  fec_recover_packet-build_fec_packet =
      let (first, packets, e) = split_first before lost after in both first packets e
