-- ===== src/Nack/Written.antt =====
-- The header of an RTCP packet, as `CreateHeader` of src/rtp_rtcp/rtcp_packet.h writes it into a
-- buffer and `StorePacket` of src/rtp_rtcp/common_header.cc finds it there.
use mathlib.Core.List.{append_assoc}
use qo_srtp.Common.{
  ℕ, ◌+◌, ◌*◌, ◌≤◌, ◌<◌, ◌≡◌, refl, ap, ◌∙◌, true, none, some, List, [], ◌++◌, arith, ltb,
  if◌then◌else◌, le→ltb, length, drop, drop-length-append,
}
use qo_srtp.DataBuffer.Filling.{write_next}
use qo_srtp.Nack.Header.{
  CommonHeader, accepted, store_header, create_header, header_bytes, store_header-header_bytes,
}

pub length-header_bytes : (c t len : ℕ) → length (header_bytes c t len) ≡ 4
unfolding header_bytes
length-header_bytes c t len = refl

pub create_header-bytes :
    (c t len : ℕ) (acc rest : List ℕ) (pos : ℕ)
    → c < 32
    → length acc ≡ pos
    → create_header c t len (acc ++ rest) pos
      ≡ ((acc ++ header_bytes c t len) ++ drop 4 rest, pos + 4)
unfolding create_header header_bytes
create_header-bytes c t len acc rest pos few h =
    rw (create_header, le→ltb 0x1f c (omega (arith, few)))
      (ap (λ b. (b, pos + 4)) (write_next acc rest (header_bytes c t len) pos 4 h refl))

-- What the header says: of a packet without content the pointer to it is null.
abbrev pub header_found : ℕ → ℕ → ℕ → List ℕ → CommonHeader
header_found c t len content = record {
  packet_type = t;
  count_or_format = c;
  padding_size = 0;
  payload_size = len * 4;
  payload = if ltb 0 (len * 4) then some content else none;
}

-- The header in front of `body`, at the end of what the buffer held before.
pub store_header-there :
    (c t len size_bytes : ℕ) (acc body more : List ℕ) (self : CommonHeader)
    → c < 32
    → len < 65536
    → 4 + len * 4 ≤ size_bytes
    → store_header
        (drop (length acc) ((acc ++ (header_bytes c t len ++ body)) ++ more))
        size_bytes
        self
      ≡ accepted (header_found c t len (body ++ more))
store_header-there c t len size_bytes acc body more self few short long =
    let H = header_bytes c t len in
    let there : drop (length acc) ((acc ++ (H ++ body)) ++ more) ≡ H ++ (body ++ more) =
      ap (drop (length acc)) (append_assoc acc (H ++ body) more)
      ∙ drop-length-append acc ((H ++ body) ++ more)
      ∙ append_assoc H body more in
    ap (λ b. store_header b size_bytes self) there
    ∙ store_header-header_bytes c t len size_bytes (body ++ more) self few short long

-- The same with a content that is not empty.
pub store_header-found :
    (c t len size_bytes : ℕ) (acc body more : List ℕ) (self : CommonHeader)
    → c < 32
    → 0 < len
    → len < 65536
    → 4 + len * 4 ≤ size_bytes
    → store_header
        (drop (length acc) ((acc ++ (header_bytes c t len ++ body)) ++ more))
        size_bytes
        self
      ≡ accepted (record (header_found c t len []) { payload = some (body ++ more) })
store_header-found c t len size_bytes acc body more self few some_words short long =
    let some_payload : ltb 0 (len * 4) ≡ true = ground arith in
    store_header-there c t len size_bytes acc body more self few short long
    ∙ ap
        (λ b.
          accepted (record (header_found c t len []) {
            payload = if b then some (body ++ more) else none;
          }))
        some_payload
