-- ===== src/Nack/Header.antt =====
-- src/rtp_rtcp/common_header.cc and `CreateHeader` of src/rtp_rtcp/rtcp_packet.h.
use qo_srtp.Common.{
  ℕ, ◌+◌, ◌-◌, ◌*◌, ◌/◌, ◌%◌, ◌≤◌, ◌<◌, bit_or, ◌≡◌, refl, true, not, Option, none, some, List, [],
  ◌∷◌, ◌++◌, arith, ltb, leb, ◌==◌, if◌then◌else◌, ==_iff, length, get_or, drop, passes, passes-at,
  sub32,
}
use qo_srtp.ByteIo.{read_big_endian, write_big_loop, of_host_bytes}
use qo_srtp.DataBuffer.{write}

-- `payload` is a pointer: the bytes from there on, or `none` for `nullptr`.
pub record CommonHeader : Type 0 where
  pub packet_type : ℕ
  pub count_or_format : ℕ
  pub padding_size : ℕ
  pub payload_size : ℕ
  pub payload : Option (List ℕ)

abbrev pub new_header : CommonHeader
new_header = record {
  packet_type = 0;
  count_or_format = 0;
  padding_size = 0;
  payload_size = 0;
  payload = none;
}

-- One constructor for each error text.
pub data HeaderError : Type 0 where
  less_than_header version_is_not_2 less_than_parsed : HeaderError
  padding_without_payload padding_size_zero padding_beyond_payload : HeaderError

-- What `StorePacket` does: it may read behind a pointer, it may fail, and then the object keeps its
-- state, or it may succeed.
pub data Stored : Type 0 where
  undefined : Stored
  refused : HeaderError → Stored
  accepted : CommonHeader → Stored

-- With the padding bit. The padding is looked up at the old `payload_`, and the old `padding_size_`
-- is taken off the size.
unfoldable pub store_padded : CommonHeader → CommonHeader → Stored
store_padded self parsed =
    if parsed.payload_size == 0 then refused padding_without_payload else elim self.payload [
      | none ↦ undefined
      | some old ↦
          let padding = get_or old (parsed.payload_size - 1) 0 in
          if leb (length old) (parsed.payload_size - 1)
          then undefined
          else if padding == 0
          then refused padding_size_zero
          else if ltb parsed.payload_size padding
          then refused padding_beyond_payload
          else accepted (record parsed {
            padding_size = padding;
            payload_size = sub32 parsed.payload_size self.padding_size;
            payload =
                if ltb 0 (sub32 parsed.payload_size self.padding_size)
                then parsed.payload
                else none;
          })
    ]

-- What the first four bytes say.
unfoldable pub parse_header : List ℕ → CommonHeader
parse_header buffer =
    let payload_size = read_big_endian 2 (drop 2 buffer) * 4 in
    record {
      packet_type = get_or buffer 1 0;
      count_or_format = get_or buffer 0 0 % 32;
      padding_size = 0;
      payload_size = payload_size;
      payload = if ltb 0 payload_size then some (drop 4 buffer) else none;
    }

unfoldable pub store_header : List ℕ → ℕ → CommonHeader → Stored
store_header buffer size_bytes self =
    let first = get_or buffer 0 0 in
    let parsed = parse_header buffer in
    if ltb size_bytes 4
    then refused less_than_header
    else if not (first / 64 == 2)
    then refused version_is_not_2
    else if ltb size_bytes (4 + parsed.payload_size)
    then refused less_than_parsed
    else if first / 32 % 2 == 1
    then store_padded self parsed
    else accepted parsed

-- The four bytes that `CreateHeader` writes if the count fits; `len` is a `uint16_t`.
unfoldable pub header_bytes : ℕ → ℕ → ℕ → List ℕ
header_bytes count_or_format packet_type len =
    bit_or 0x80 count_or_format ∷ packet_type ∷ len / 256 % 256 ∷ len % 256 ∷ []

unfoldable pub create_header : ℕ → ℕ → ℕ → List ℕ → ℕ → List ℕ × ℕ
create_header count_or_format packet_type len buffer pos =
    if ltb 0x1f count_or_format
    then (buffer, pos)
    else (write buffer pos (header_bytes count_or_format packet_type len), pos + 4)

version_table :
    (passes (λ c. bit_or 0x80 c / 64 == 2) 32 ≡ true)
    × (passes (λ c. bit_or 0x80 c / 32 % 2 == 0) 32 ≡ true)
    × (passes (λ c. bit_or 0x80 c % 32 == c) 32 ≡ true)
unfolding passes
version_table = (refl, refl, refl)

first_parts :
    (c : ℕ)
    → c < 32
    → (bit_or 0x80 c / 64 ≡ 2) × (bit_or 0x80 c / 32 % 2 ≡ 0) × (bit_or 0x80 c % 32 ≡ c)
first_parts c h = (
  (==_iff _ _).0 (passes-at _ 32 c h version_table.0),
  (==_iff _ _).0 (passes-at _ 32 c h version_table.1),
  (==_iff _ _).0 (passes-at _ 32 c h version_table.2),
)

length_read :
    (len : ℕ) (rest : List ℕ)
    → len < 65536
    → read_big_endian 2 (len / 256 % 256 ∷ len % 256 ∷ rest) ≡ len
unfolding read_big_endian write_big_loop of_host_bytes
length_read len rest h = omega arith

-- The header that `CreateHeader` wrote is accepted, with what it was made of and the bytes behind
-- it, if they are as many as it says.
pub store_header-header_bytes :
    (c t len size_bytes : ℕ) (rest : List ℕ) (self : CommonHeader)
    → c < 32
    → len < 65536
    → 4 + len * 4 ≤ size_bytes
    → store_header (header_bytes c t len ++ rest) size_bytes self
      ≡ accepted (record {
        packet_type = t;
        count_or_format = c;
        padding_size = 0;
        payload_size = len * 4;
        payload = if ltb 0 (len * 4) then some rest else none;
      })
unfolding store_header parse_header header_bytes
store_header-header_bytes c t len size_bytes rest self hc hl hs =
    let parts = first_parts c hc in
    ground (arith, length_read len rest hl, parts.0, parts.1, parts.2)
