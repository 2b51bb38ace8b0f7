-- ===== src/RtpPacket/RoundTrip.antt =====
-- `StorePacket` of what `LoadPacket` wrote, in src/rtp_rtcp/rtp_packet_impl.cc.
use mathlib.Core.List.{append-nil, append_assoc}
use qo_srtp.Common.{
  ℕ, ◌+◌, ◌-◌, ◌*◌, ◌/◌, ◌%◌, ◌≤◌, ◌<◌, ◌≡◌, refl, sym, ap, ◌∙◌, false, Option, none, some, List,
  [], ◌++◌, map, arith, ltb, ◌==◌, if◌then◌else◌, length, get_or, take, drop, length-append,
  length-take, drop-add, drop_front, take_front, drop-append, IsU8, IsU16, IsU32,
}
use qo_srtp.ByteIo.{write_big_endian, read_big_endian}
use qo_srtp.ByteIo.RoundTrip.{read-write}
use qo_srtp.DataBuffer.{DataBuffer, create, set_size, modify_at}
use qo_srtp.DataBuffer.Bounds.{modify_at_fills}
use qo_srtp.RtpPacket.Defs.{RtpPacket, ok, fixed_buffer_length}
use qo_srtp.RtpPacket.Store.{
  got, parse_csrcs, parse_extension, parse_padding, parse, assign, store_packet, read_csrcs,
  payload_bytes, buffer_length, extension_bytes,
}
use qo_srtp.RtpPacket.Load.{has_extension, first_byte, load_packet}
use qo_srtp.RtpPacket.Written.{
  csrc_bytes, PayloadFits, extension_image, payload_image, padding_image,
}
use qo_srtp.RtpPacket.Layout.{
  IsPacket, image, fixed_header, length-csrc_bytes, load_packet-image, length-image,
}
use qo_srtp.RtpPacket.Flags.{first_byte_flags}
use qo_srtp.RtpPacket.Fields.{
  byte_swap, behind_csrcs, drop_two, drop_four, drop_eight, drop_twelve, read_csrcs-csrc_bytes,
}

-- The ranges of the fixed fields, and no more CSRCs than their four bits can count.
pub record InRange (packet : RtpPacket) : Type 0 where
  pub octet : IsU8 packet.octet_m_and_payload_type
  pub seq : IsU16 packet.sequence_number
  pub stamp : IsU32 packet.timestamp
  pub source : IsU32 packet.ssrc
  pub few_csrcs : length packet.csrcs < 16

-- A buffer with exactly the used bytes of another.
unfoldable pub trimmed : Option DataBuffer → Option DataBuffer
trimmed none = none
trimmed (some b) =
    if ltb 0 b.size
    then some (record { size = b.size; capacity = b.size; buffer = take b.size b.buffer })
    else none

-- Without the flags of an extension and of padding only the length can be refused.
parse_plain :
    (memory : ℕ → ℕ) (bytes : List ℕ) (len cc : ℕ)
    → get_or bytes 0 0 / 64 ≡ 2
    → get_or bytes 0 0 % 16 ≡ cc
    → (get_or bytes 0 0 / 32 % 2 == 1) ≡ false
    → (get_or bytes 0 0 / 16 % 2 == 1) ≡ false
    → 12 + cc * 4 ≤ len
    → parse memory bytes len ≡ got (cc, none, 12 + cc * 4, 0)
unfolding parse parse_csrcs parse_extension parse_padding
parse_plain memory bytes len cc version count p x h = ground arith

-- What `StorePacket` makes of the bytes of a packet, whatever follows them.
module _ (packet : RtpPacket) (v : IsPacket packet) (r : InRange packet)
    (no_extension : packet.extension ≡ none) (no_padding : packet.pad_size ≡ 0)
    (tail : List ℕ) where
  abbrev bytes : List ℕ
  bytes = image packet ++ tail

  first : get_or bytes 0 0 ≡ first_byte packet
  first = unfold image fixed_header in refl

  second : get_or bytes 1 0 ≡ packet.octet_m_and_payload_type
  second = unfold image fixed_header in refl

  total : buffer_length packet ≡ 12 + length packet.csrcs * 4 + payload_bytes packet.payload_buffer
  total = unfold buffer_length extension_bytes in rw (no_extension, no_padding) (omega arith)

  parsed :
      (memory' : ℕ → ℕ)
      → parse memory' bytes (buffer_length packet)
        ≡ got (length packet.csrcs, none, 12 + length packet.csrcs * 4, 0)
  parsed memory' =
      let f = first_byte_flags packet r.few_csrcs in
      parse_plain memory' bytes (buffer_length packet) (length packet.csrcs)
        (ap (λ b. b / 64) first ∙ f.1) (ap (λ b. b % 16) first ∙ f.2)
        (ap (λ b. b / 32 % 2 == 1) first ∙ f.3 ∙ ap has_extension no_extension)
        (ap (λ b. b / 16 % 2 == 1) first ∙ f.4 ∙ ap (ltb 0) no_padding) (omega (arith, total))

  -- Behind the first n bytes of the fixed header.
  behind :
      (n : ℕ) (front back : List ℕ)
      → n ≤ 12
      → drop n (image packet) ≡ front ++ back
      → drop n bytes ≡ front ++ (back ++ tail)
  behind n front back h e =
      let long : n ≤ length (image packet) =
        omega (arith, h, total, length-image (λ _. 0) packet v) in
      drop-append n (image packet) tail long
      ∙ ap (λ xs. xs ++ tail) e
      ∙ append_assoc front back tail

  at_csrcs : drop 12 bytes ≡ csrc_bytes packet.csrcs ++ (behind_csrcs packet ++ tail)
  at_csrcs = behind 12 _ _ (omega arith) (drop_twelve packet)

  rest : drop (12 + length packet.csrcs * 4) bytes ≡ payload_image packet.payload_buffer ++ tail
  rest =
      sym (drop-add 12 (length packet.csrcs * 4) bytes)
      ∙ ap (drop (length packet.csrcs * 4)) at_csrcs
      ∙ drop_front _ _ (length packet.csrcs * 4) (length-csrc_bytes packet.csrcs)
      ∙ ap (λ xs. xs ++ tail)
          (unfold extension_image padding_image in rw (no_extension, no_padding, append-nil) refl)

  refill :
      (memory' : ℕ → ℕ) (b : Option DataBuffer)
      → PayloadFits b
      → payload_bytes b < 4294967296
      → (if ltb 0 (payload_bytes b)
          then some
              (modify_at
                (set_size (create memory' (payload_bytes b)) (payload_bytes b)).1
                0
                (payload_image b ++ tail)
                (payload_bytes b)).1
          else none)
        ≡ trimmed b
  unfolding payload_bytes payload_image trimmed
  refill memory' none f h = refl
  refill memory' (some b) f h =
      let long : length (take b.size b.buffer) ≡ b.size =
        omega (arith, f, length-take b.size b.buffer) in
      let e =
        modify_at_fills memory' b.size (take b.size b.buffer ++ tail) h
          (omega (arith, long, length-append (take b.size b.buffer) tail)) in
      rw (e, take_front (take b.size b.buffer) tail b.size long)

  stored :
      (memory' : ℕ → ℕ) (self : RtpPacket)
      → store_packet memory' bytes (buffer_length packet) self ≡ (
        ok,
        assign memory' bytes
            (buffer_length packet)
            self
            (length packet.csrcs, none, 12 + length packet.csrcs * 4, 0),
      )
  unfolding store_packet
  stored memory' self = rw (parsed memory', store_packet)

  long :
      buffer_length packet - (12 + length packet.csrcs * 4 + 0)
      ≡ payload_bytes packet.payload_buffer
  long = omega (arith, total)

  seq_read :
      (bs : List ℕ)
      → read_big_endian 2 (write_big_endian 2 packet.sequence_number ++ bs) ≡ packet.sequence_number
  seq_read bs = (read-write 2 packet.sequence_number bs r.seq).0

  stamp_read :
      (bs : List ℕ)
      → read_big_endian 4 (write_big_endian 4 packet.timestamp ++ bs) ≡ packet.timestamp
  stamp_read bs = (read-write 4 packet.timestamp bs r.stamp).0

  ssrc_read : (bs : List ℕ) → read_big_endian 4 (write_big_endian 4 packet.ssrc ++ bs) ≡ packet.ssrc
  ssrc_read bs = (read-write 4 packet.ssrc bs r.source).0

  csrcs_read :
      (memory' : ℕ → ℕ)
      → read_csrcs memory' bytes (buffer_length packet) (length packet.csrcs) fixed_buffer_length
        ≡ map byte_swap packet.csrcs
  csrcs_read memory' =
      read_csrcs-csrc_bytes memory' bytes (buffer_length packet) packet.csrcs
        (behind_csrcs packet ++ tail) fixed_buffer_length at_csrcs

  assigned :
      (memory' : ℕ → ℕ) (self : RtpPacket)
      → assign memory' bytes
          (buffer_length packet)
          self
          (length packet.csrcs, none, 12 + length packet.csrcs * 4, 0)
        ≡ record {
          octet_m_and_payload_type = packet.octet_m_and_payload_type;
          sequence_number = packet.sequence_number;
          timestamp = packet.timestamp;
          ssrc = packet.ssrc;
          csrcs = map byte_swap packet.csrcs;
          extension = none;
          payload_buffer = trimmed packet.payload_buffer;
          pad_size = if ltb 0 (payload_bytes packet.payload_buffer) then 0 else self.pad_size;
        }
  unfolding assign
  assigned memory' self =
      let w4 = write_big_endian 4 packet.ssrc in
      let more = csrc_bytes packet.csrcs ++ behind_csrcs packet in
      let stamp = write_big_endian 4 packet.timestamp in
      let at_two =
        behind 2 (write_big_endian 2 packet.sequence_number) (stamp ++ (w4 ++ more)) (omega arith)
          (drop_two packet) in
      let at_four = behind 4 stamp (w4 ++ more) (omega arith) (drop_four packet) in
      let at_eight = behind 8 w4 more (omega arith) (drop_eight packet) in
      rw
        (
          second,
          at_two,
          at_four,
          at_eight,
          long,
          rest,
          seq_read,
          stamp_read,
          ssrc_read,
          csrcs_read memory',
        )
        (ground (
          arith,
          refill memory' packet.payload_buffer v.payload_fits (omega (arith, v.total, total)),
        ))

  pub store_packet-image :
      (memory' : ℕ → ℕ) (self : RtpPacket)
      → store_packet memory' bytes (buffer_length packet) self ≡ (
        ok,
        record {
          octet_m_and_payload_type = packet.octet_m_and_payload_type;
          sequence_number = packet.sequence_number;
          timestamp = packet.timestamp;
          ssrc = packet.ssrc;
          csrcs = map byte_swap packet.csrcs;
          extension = none;
          payload_buffer = trimmed packet.payload_buffer;
          pad_size = if ltb 0 (payload_bytes packet.payload_buffer) then 0 else self.pad_size;
        },
      )
  store_packet-image memory' self =
      stored memory' self ∙ ap (λ (q : RtpPacket). (ok, q)) (assigned memory' self)

module _ (memory : ℕ → ℕ) (packet : RtpPacket) (v : IsPacket packet) (r : InRange packet)
    (no_extension : packet.extension ≡ none) (no_padding : packet.pad_size ≡ 0) where
  -- A packet without extension and padding that `LoadPacket` wrote is accepted, and comes back with
  -- its fixed fields and its payload. Its CSRCs come back with their four bytes reversed, since
  -- they are written in network order and read in the order of the host. The object that is filled
  -- keeps its old `pad_size_` if the payload is empty.
  pub store_packet-load_packet :
      (memory' : ℕ → ℕ) (self : RtpPacket)
      → let loaded = load_packet memory packet in
        let out = store_packet memory' loaded.buffer loaded.size self in
        (out.0 ≡ ok)
        × (out.1.octet_m_and_payload_type ≡ packet.octet_m_and_payload_type)
        × (out.1.sequence_number ≡ packet.sequence_number)
        × (out.1.timestamp ≡ packet.timestamp)
        × (out.1.ssrc ≡ packet.ssrc)
        × (out.1.csrcs ≡ map byte_swap packet.csrcs)
        × (out.1.extension ≡ none)
        × (out.1.payload_buffer ≡ trimmed packet.payload_buffer)
        × (out.1.pad_size
            ≡ (if ltb 0 (payload_bytes packet.payload_buffer) then 0 else self.pad_size))
  store_packet-load_packet memory' self =
      let (size, buffer) = load_packet-image memory packet v in
      let read = store_packet-image packet v r no_extension no_padding [] memory' self in
      rw (size, buffer, sym (append-nil (image packet)), read)
        (refl, refl, refl, refl, refl, refl, refl, refl, refl)
