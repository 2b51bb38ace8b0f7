-- ===== src/Fec/Layout.antt =====
-- Where `FecRecoverPacket` of src/rtp_rtcp/ulp_fec.cc finds what `BuildFecPacket` wrote.
use qo_srtp.Common.{
  ℕ, zero, suc, ◌+◌, ◌%◌, ◌<◌, bit_and, bit_or, ◌≡◌, refl, sym, ap, ◌∙◌, Bool, true, false, not,
  ◌&&◌, List, [], ◌∷◌, ◌++◌, arith, ◌==◌, if◌then◌else◌, length, get_or, take, drop, length-append,
  length-replicate, drop-add, drop_front, take_front, passes, passes-at,
}
use qo_srtp.Bits.And.{bit_and_63}
use qo_srtp.ByteIo.{write_big_endian, read_big_endian}
use qo_srtp.ByteIo.RoundTrip.{read-write, length-write_big_endian}
use qo_srtp.RtpPacket.Defs.{RtpPacket}
use qo_srtp.Fec.Packet.{FecParts, or_at, mask_with, blank_parts, fec_bytes}
use qo_srtp.Fec.Decoder.{l_bit, mask_length, start_recovering}
use qo_srtp.Fec.Folds.{fold, length-xor_into}
use qo_srtp.Fec.Group.{mix}

-- The first byte of the payload keeps six bits and the L bit.
abbrev pub first_of : Bool → ℕ → ℕ
first_of l octet = if l then bit_or (bit_and octet 0x3f) 0x40 else bit_and octet 0x3f

l_table :
    passes
      (λ o.
        not (bit_and (bit_or o 0x40) 0x40 == 0)
        && ((bit_and o 0x40 == 0) && (bit_or o 0x40 % 64 == o)))
      64
    ≡ true
unfolding passes
l_table = refl

l_facts :
    (o : ℕ)
    → o < 64
    → (not (bit_and (bit_or o 0x40) 0x40 == 0) ≡ true)
      × ((bit_and o 0x40 == 0) ≡ true)
      × (bit_or o 0x40 % 64 ≡ o)
l_facts o h =
    let e =
      passes-at
        (λ o.
          not (bit_and (bit_or o 0x40) 0x40 == 0)
          && ((bit_and o 0x40 == 0) && (bit_or o 0x40 % 64 == o)))
        64 o h l_table in
    (ground (arith, e), ground (arith, e), ground (arith, e))

pub first_of_facts :
    (l : Bool) (octet : ℕ)
    → (not (bit_and (first_of l octet) 0x40 == 0) ≡ l) × (first_of l octet % 64 ≡ octet % 64)
first_of_facts true octet =
    let f = l_facts (octet % 64) (omega arith) in rw (bit_and_63 octet) (f.0, f.2)
first_of_facts false octet =
    let f = l_facts (octet % 64) (omega arith) in rw (bit_and_63 octet) (rw (f.1) refl, omega arith)

abbrev pub size_of_mask : Bool → ℕ
size_of_mask l = if l then 6 else 2

-- The lists of the parts are as long as the fields they stand for.
pub record FillsFields (mask_size max_length : ℕ) (parts : FecParts) : Type 0 where
  pub stamp_four : length parts.timestamp_recovery ≡ 4
  pub length_two : length parts.length_recovery ≡ 2
  pub mask_long : length parts.fec_mask ≡ mask_size
  pub payload_long : length parts.protected ≡ max_length

length-or_at : (bs : List ℕ) (i v : ℕ) → length (or_at bs i v) ≡ length bs
unfolding or_at
length-or_at [] i v = refl
length-or_at (b ∷ bs) zero v = refl
length-or_at (b ∷ bs) (suc i) v = ap suc (length-or_at bs i v)

pub blank_parts-FillsFields : (n m : ℕ) → FillsFields n m (blank_parts n m)
blank_parts-FillsFields n m = record {
  stamp_four = refl;
  length_two = refl;
  mask_long = length-replicate n 0;
  payload_long = length-replicate m 0;
}

pub fold-FillsFields :
    (n m seq_base : ℕ) (group : List RtpPacket) (parts : FecParts)
    → FillsFields n m parts
    → FillsFields n m (fold (mix seq_base) parts group)
unfolding fold mix mask_with
fold-FillsFields n m seq_base [] parts f = f
fold-FillsFields n m seq_base (p ∷ group) parts f =
    fold-FillsFields n m seq_base group (mix seq_base parts p) (record {
      stamp_four = length-xor_into _ _ ∙ f.stamp_four;
      length_two = length-xor_into _ _ ∙ f.length_two;
      mask_long = length-or_at _ _ _ ∙ f.mask_long;
      payload_long = length-xor_into _ _ ∙ f.payload_long;
    })

module _ (l : Bool) (seq_base max_length : ℕ) (parts : FecParts)
    (f : FillsFields (size_of_mask l) max_length parts) (small : max_length < 65536) where
  abbrev header : List ℕ
  header = fec_bytes seq_base l max_length parts

  abbrev behind_length : List ℕ
  behind_length = write_big_endian 2 max_length ++ (parts.fec_mask ++ parts.protected)

  at_four : drop 4 header ≡ parts.timestamp_recovery ++ (parts.length_recovery ++ behind_length)
  unfolding fec_bytes
  at_four = drop_front _ _ 2 (length-write_big_endian 2 seq_base)

  at_eight : drop 8 header ≡ parts.length_recovery ++ behind_length
  at_eight = sym (drop-add 4 4 header) ∙ ap (drop 4) at_four ∙ drop_front _ _ 4 f.stamp_four

  at_ten : drop 10 header ≡ behind_length
  at_ten = sym (drop-add 8 2 header) ∙ ap (drop 2) at_eight ∙ drop_front _ _ 2 f.length_two

  at_twelve : drop 12 header ≡ parts.fec_mask ++ parts.protected
  at_twelve =
      sym (drop-add 10 2 header)
      ∙ ap (drop 2) at_ten
      ∙ drop_front _ _ 2 (length-write_big_endian 2 max_length)

  at_payload : drop (12 + size_of_mask l) header ≡ parts.protected
  at_payload =
      sym (drop-add 12 (size_of_mask l) header)
      ∙ ap (drop (size_of_mask l)) at_twelve
      ∙ drop_front _ _ (size_of_mask l) f.mask_long

  pub protection_length-read : read_big_endian 2 (drop 10 header) ≡ max_length
  protection_length-read = ap (read_big_endian 2) at_ten ∙ (read-write 2 max_length _ small).0

  pub length-fec_bytes : length header ≡ 12 + size_of_mask l + max_length
  unfolding fec_bytes
  length-fec_bytes = omega (
    arith,
    f.stamp_four,
    f.length_two,
    f.mask_long,
    f.payload_long,
    length-write_big_endian 2 seq_base,
    length-write_big_endian 2 max_length,
    length-append (write_big_endian 2 seq_base)
        (parts.timestamp_recovery ++ (parts.length_recovery ++ behind_length)),
    length-append parts.timestamp_recovery (parts.length_recovery ++ behind_length),
    length-append parts.length_recovery behind_length,
    length-append (write_big_endian 2 max_length) (parts.fec_mask ++ parts.protected),
    length-append parts.fec_mask parts.protected,
  )

  pub mask_length-fec_bytes : mask_length header ≡ size_of_mask l
  unfolding mask_length l_bit fec_bytes
  mask_length-fec_bytes = rw ((first_of_facts l parts.octet_0).0) refl

  pub start_recovering-parts :
      (beyond : List ℕ)
      → start_recovering header max_length beyond ≡ record {
        octet_0 = first_of l parts.octet_0;
        octet_1 = parts.octet_1;
        timestamp = parts.timestamp_recovery;
        payload = parts.protected;
        recovery_length = parts.length_recovery;
      }
  unfolding start_recovering
  start_recovering-parts beyond =
      let stamp : take 4 (drop 4 header) ≡ parts.timestamp_recovery =
        ap (take 4) at_four ∙ take_front _ _ 4 f.stamp_four in
      let len : take 2 (drop 8 header) ≡ parts.length_recovery =
        ap (take 2) at_eight ∙ take_front _ _ 2 f.length_two in
      let content : take max_length (drop (12 + mask_length header) header ++ beyond)
          ≡ parts.protected =
        ap (λ k. take max_length (drop (12 + k) header ++ beyond)) mask_length-fec_bytes
        ∙ ap (λ xs. take max_length (xs ++ beyond)) at_payload
        ∙ take_front _ _ max_length f.payload_long in
      let second : get_or header 1 0 ≡ parts.octet_1 = unfold fec_bytes in refl in
      let first : get_or header 0 0 ≡ first_of l parts.octet_0 = unfold fec_bytes in refl in
      λ i. record {
        octet_0 = first i;
        octet_1 = second i;
        timestamp = stamp i;
        payload = content i;
        recovery_length = len i;
      }
