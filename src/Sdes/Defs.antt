-- ===== src/Sdes/Defs.antt =====
-- `Sdes` of src/rtp_rtcp/sdes.cc.
use qo_srtp.Common.{
  ℕ, zero, suc, ◌+◌, ◌-◌, ◌/◌, ◌%◌, not, Option, none, some, List, [], ◌∷◌, ◌++◌, ltb, leb, ◌==◌,
  if◌then◌else◌, length, take, drop, replicate, u8, u16, u32,
}
use qo_srtp.ByteIo.{write_big_endian, read_big_endian}
use qo_srtp.DataBuffer.{write}
use qo_srtp.Nack.Header.{CommonHeader, create_header}
use qo_srtp.Bye.Defs.{payload_bytes}

-- `cname` is a string, kept by its characters.
pub record Chunk : Type 0 where
  pub ssrc : ℕ
  pub cname : List ℕ

pub record Sdes : Type 0 where
  pub chunks : List Chunk
  pub chunks_buffer_length : ℕ

abbrev pub new_sdes : Sdes
new_sdes = record { chunks = []; chunks_buffer_length = 0 }

unfoldable pub chunk_size : Chunk → ℕ
chunk_size chunk =
    let chunk_payload_size = u32 (4 + 1 + 1 + length chunk.cname) in
    u32 (chunk_payload_size + (4 - chunk_payload_size % 4))

-- `none` is an error.
unfoldable pub add_cname : ℕ → List ℕ → Sdes → Option Sdes
add_cname ssrc cname self =
    let chunk : Chunk = record { ssrc = ssrc; cname = cname } in
    if ltb 0xff (length cname)
    then none
    else if leb 0x1f (length self.chunks)
    then none
    else some (record {
      chunks = self.chunks ++ (chunk ∷ []);
      chunks_buffer_length = u32 (self.chunks_buffer_length + chunk_size chunk);
    })

unfoldable pub sdes_length : Sdes → ℕ
sdes_length self = u32 (self.chunks_buffer_length + 4)

-- The writes of one chunk, in a row.
unfoldable pub chunk_bytes : Chunk → List ℕ
chunk_bytes chunk = write_big_endian 4 chunk.ssrc ++ (1 ∷ u8 (length chunk.cname) ∷ chunk.cname)

unfoldable pub load_chunks : List Chunk → List ℕ → ℕ → List ℕ × ℕ
load_chunks [] packet pos = (packet, pos)
load_chunks (c ∷ cs) packet pos =
    let named = write packet pos (chunk_bytes c) in
    let pos1 = pos + (6 + length c.cname) in
    let padding_size = 4 - (6 + length c.cname) % 4 in
    load_chunks cs (write named pos1 (replicate padding_size 0)) (pos1 + padding_size)

-- The buffer and `*pos` afterwards; `none` is an error.
unfoldable pub load_sdes : Sdes → List ℕ → ℕ → ℕ → Option (List ℕ × ℕ)
load_sdes self packet pos max_length =
    let (headed, pos1) =
      create_header (u8 (length self.chunks)) 202 (u16 ((sdes_length self - 4) / 4)) packet pos in
    if ltb max_length (u32 (pos + sdes_length self))
    then none
    else some (load_chunks self.chunks headed pos1)

-- The items of a chunk: the name, if there was one, and the bytes behind the item of type 0. The
-- list holds the bytes from `looking_at` up to `payload_end`; `none` is an error. Each round of the
-- loop takes one step of the first argument. The guards keep at least one byte, so a loop that
-- starts with some does not read behind them.
unfoldable pub read_items : ℕ → Option (List ℕ) → List ℕ → Option (Option (List ℕ) × List ℕ)
read_items zero cname looking_at = none
read_items (suc n) cname [] = none
read_items (suc n) cname (zero ∷ looking_at) = some (cname, looking_at)
read_items (suc n) cname (suc item_type ∷ []) = none
read_items (suc n) cname (suc zero ∷ item_length ∷ looking_at) =
    let named = read_items n (some (take item_length looking_at)) (drop item_length looking_at) in
    if ltb (length looking_at) (item_length + 1)
    then none
    else elim cname [ none ↦ named | some extra ↦ none ]
read_items (suc n) cname (suc (suc item_type) ∷ item_length ∷ looking_at) =
    let rest = read_items n cname (drop item_length looking_at) in
    if ltb (length looking_at) (item_length + 1) then none else rest

-- `looking_at += (payload_end - looking_at) % 4`.
unfoldable pub align : List ℕ → List ℕ
align looking_at = drop (length looking_at % 4) looking_at

-- The loop over the chunks: the ones that are left, of which one without a name is left out, and
-- the sum of their sizes so far. `chunks` are the ones that were read.
unfoldable pub read_chunks : ℕ → List Chunk → ℕ → List ℕ → Option Sdes
read_chunks zero chunks chunks_buffer_length looking_at =
    some (record { chunks = chunks; chunks_buffer_length = chunks_buffer_length })
read_chunks (suc n) chunks chunks_buffer_length looking_at =
    if ltb (length looking_at) 8
    then none
    else elim (read_items (length looking_at) none (drop 4 looking_at)) [
      | none ↦ none
      | some (none, rest) ↦ read_chunks n chunks chunks_buffer_length (align rest)
      | some (some cname, rest) ↦
          let chunk : Chunk = record { ssrc = read_big_endian 4 looking_at; cname = cname } in
          read_chunks n (chunks ++ (chunk ∷ [])) (u32 (chunks_buffer_length + chunk_size chunk))
            (align rest)
    ]

-- `none` is an error, and the object keeps its state.
unfoldable pub store_sdes : CommonHeader → Option Sdes
store_sdes header =
    let payload = take header.payload_size (payload_bytes header) in
    if not (header.packet_type == 202)
    then none
    else if not (header.payload_size % 4 == 0)
    then none
    else read_chunks header.count_or_format [] 0 payload
