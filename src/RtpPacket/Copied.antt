-- ===== src/RtpPacket/Copied.antt =====
-- What the copies of a packet's parts keep: `RtpPacket::Create(other)` of
-- src/rtp_rtcp/rtp_packet.cc.
use qo_srtp.Common.{
  ℕ, zero, suc, ◌+◌, ◌*◌, ◌/◌, ◌≤◌, ◌<◌, bit_and, ◌≡◌, refl, ap, ◌∙◌, true, Option, none, some,
  List, [], ◌∷◌, map, arith, ◌==◌, le→ltb, ==_iff, ==_ne, length, get_or, take, drop, take-all,
  passes, passes-at, u8, IsU8,
}
use qo_srtp.DataBuffer.{DataBuffer}
use qo_srtp.DataBuffer.Bounds.{modify_at_capacity, set_size-capacity}
use qo_srtp.RtpPacket.Layout.{IsPacket}
use qo_srtp.RtpPacket.Defs.{
  Extension, RtpPacket, ok, empty_packet, new_extension, count_csrcs, m, payload_type, csrc,
  is_some,
}
use qo_srtp.RtpPacket.Store.{store_fields, buffer_length, extension_bytes, payload_bytes}
use qo_srtp.RtpPacket.Written.{ExtensionFits, PayloadFits}
use qo_srtp.RtpPacket.Copy.{
  octet_with_marker, copy_csrcs, copy_extension, copy_payload, create_copy,
}

-- The seven bits and the marker make up the octet again.
octet_table : passes (λ o. octet_with_marker (bit_and 127 o) (o / 128) == o) 256 ≡ true
unfolding passes octet_with_marker
octet_table = refl

pub octet_with_marker-octet :
    (packet : RtpPacket)
    → IsU8 packet.octet_m_and_payload_type
    → octet_with_marker (payload_type packet) (m packet) ≡ packet.octet_m_and_payload_type
unfolding payload_type m
octet_with_marker-octet packet h =
    (==_iff _ _).0 (passes-at _ 256 packet.octet_m_and_payload_type h octet_table)

-- A number of a list, and the list behind it.
drop-get_or : (xs : List ℕ) (i d : ℕ) → i < length xs → drop i xs ≡ get_or xs i d ∷ drop (suc i) xs
drop-get_or [] i d h = absurd (omega arith)
drop-get_or (x ∷ xs) zero d h = refl
drop-get_or (x ∷ xs) (suc i) d h = drop-get_or xs i d (omega arith)

pub copy_csrcs-take :
    (packet : RtpPacket) (i n var : ℕ)
    → i + n ≤ length packet.csrcs
    → copy_csrcs packet n i var ≡ some (map u8 (take n (drop i packet.csrcs)))
unfolding copy_csrcs csrc
copy_csrcs-take packet i zero var h = refl
copy_csrcs-take packet i (suc n) var h =
    let later = copy_csrcs-take packet (i + 1) n (u8 (get_or packet.csrcs i 0)) (omega arith) in
    let next : i + 1 ≡ suc i = omega arith in
    let here = drop-get_or packet.csrcs i 0 (omega arith) in
    rw
      (
        copy_csrcs,
        le→ltb (length packet.csrcs) i (omega arith),
        ==_ne i (length packet.csrcs) (λ e. omega arith),
        later ∙ ap (λ k. some (map u8 (take n (drop k packet.csrcs)))) next,
        here,
      )
      refl

pub copy_csrcs-u8 :
    (packet : RtpPacket) (var : ℕ)
    → length packet.csrcs < 256
    → copy_csrcs packet (count_csrcs packet) 0 var ≡ some (map u8 packet.csrcs)
unfolding count_csrcs
copy_csrcs-u8 packet var h =
    let e : u8 (length packet.csrcs) ≡ length packet.csrcs = omega arith in
    rw (e, copy_csrcs-take packet 0 (length packet.csrcs) var (omega arith), take-all packet.csrcs)
      refl

-- Four times `ext_length` bytes of an extension, and its name.
unfoldable pub trimmed_extension : Option Extension → Option Extension
trimmed_extension none = none
trimmed_extension (some e) = some (record {
  name = take 2 e.name;
  ext_length = e.ext_length;
  content = record {
    size = 4 * e.ext_length;
    capacity = 4 * e.ext_length;
    buffer = take (4 * e.ext_length) e.content.buffer;
  };
})

pub copy_extension-trimmed :
    (memory : ℕ → ℕ) (e : Option Extension)
    → ExtensionFits e
    → extension_bytes e < 4294967296
    → copy_extension memory e ≡ trimmed_extension e
unfolding copy_extension trimmed_extension extension_bytes new_extension
copy_extension-trimmed memory none f h = refl
copy_extension-trimmed memory (some e) f h =
    rw
      (
        set_size-capacity memory (4 * e.ext_length),
        modify_at_capacity memory (4 * e.ext_length) e.content.buffer (omega (arith, f.counted))
            (omega (arith, f.counted, f.content_size)),
      )
      refl

-- The used bytes of a payload, in a buffer that is as long.
unfoldable pub trimmed_payload : Option DataBuffer → Option DataBuffer
trimmed_payload none = none
trimmed_payload (some b) =
    some (record { size = b.size; capacity = b.size; buffer = take b.size b.buffer })

copy_payload-trimmed :
    (memory : ℕ → ℕ) (b : Option DataBuffer)
    → PayloadFits b
    → payload_bytes b < 4294967296
    → copy_payload memory b ≡ trimmed_payload b
unfolding copy_payload trimmed_payload payload_bytes
copy_payload-trimmed memory none f h = refl
copy_payload-trimmed memory (some b) f h = rw (modify_at_capacity memory b.size b.buffer h f) refl

-- A packet with the parts that a copy keeps of `packet`.
unfoldable pub trimmed_packet : RtpPacket → RtpPacket
trimmed_packet packet = record packet {
  csrcs = map u8 packet.csrcs;
  extension = trimmed_extension packet.extension;
  payload_buffer = trimmed_payload packet.payload_buffer;
}

pub length-map : (cs : List ℕ) → length (map u8 cs) ≡ length cs
length-map [] = refl
length-map (c ∷ cs) = ap suc (length-map cs)

pub trimmed_extension-bytes :
    (e : Option Extension) → extension_bytes (trimmed_extension e) ≡ extension_bytes e
unfolding trimmed_extension extension_bytes
trimmed_extension-bytes none = refl
trimmed_extension-bytes (some e) = refl

trimmed_payload-bytes :
    (b : Option DataBuffer) → payload_bytes (trimmed_payload b) ≡ payload_bytes b
unfolding trimmed_payload payload_bytes
trimmed_payload-bytes none = refl
trimmed_payload-bytes (some b) = refl

buffer_length-trimmed :
    (packet : RtpPacket) → buffer_length (trimmed_packet packet) ≡ buffer_length packet
unfolding buffer_length trimmed_packet
buffer_length-trimmed packet =
    rw
      (
        length-map packet.csrcs,
        trimmed_extension-bytes packet.extension,
        trimmed_payload-bytes packet.payload_buffer,
      )
      refl

pub store_fields-small :
    (fields self : RtpPacket)
    → buffer_length fields < 4294967296
    → store_fields fields self ≡ (ok, fields)
unfolding store_fields
store_fields-small fields self h = ground arith

pub parts-small :
    (packet : RtpPacket)
    → buffer_length packet < 4294967296
    → (extension_bytes packet.extension < 4294967296)
      × (payload_bytes packet.payload_buffer < 4294967296)
unfolding buffer_length
parts-small packet h = (omega arith, omega arith)

-- The copy of a packet has its fields, its extension and the used bytes of its payload. Of each
-- CSRC it has the lowest eight bits only, since the loop's variable is a `uint8_t`. The packet's
-- buffers are as long as they say, it fits a `uint32_t` length, and it has less than 256 CSRCs.
pub create_copy-trimmed :
    (memory : ℕ → ℕ) (packet : RtpPacket)
    → IsPacket packet
    → IsU8 packet.octet_m_and_payload_type
    → length packet.csrcs < 256
    → create_copy memory packet ≡ some (trimmed_packet packet)
unfolding create_copy trimmed_packet trimmed_extension trimmed_payload
create_copy-trimmed memory packet v o c =
    let same = buffer_length-trimmed packet in
    let small = parts-small packet v.total in
    let stored =
      store_fields-small (trimmed_packet packet) empty_packet (omega (arith, v.total, same)) in
    rw
      (
        create_copy,
        copy_csrcs-u8 packet 0 c,
        octet_with_marker-octet packet o,
        copy_extension-trimmed memory packet.extension v.extension_fits small.0,
        copy_payload-trimmed memory packet.payload_buffer v.payload_fits small.1,
      )
      (ap (λ r. some r.1) stored)

-- A copy is never `nullptr`: the loop asks for no CSRC that is not there.
pub create_copy-some :
    (memory : ℕ → ℕ) (packet : RtpPacket) → is_some (create_copy memory packet) ≡ true
unfolding create_copy count_csrcs
create_copy-some memory packet =
    rw (create_copy, copy_csrcs-take packet 0 (u8 (length packet.csrcs)) 0 (omega arith)) refl
