-- ===== src/Sdes/RoundTrip.antt =====
-- Source descriptions of src/rtp_rtcp/sdes.cc through a buffer.
use mathlib.Core.List.{append_assoc}
use qo_srtp.Common.{
  ℕ, ◌+◌, ◌-◌, ◌*◌, ◌/◌, ◌%◌, ◌≤◌, ◌<◌, ◌≡◌, refl, sym, ap, ap₂, ◌∙◌, inl, inr, true, some, List,
  [], ◌∷◌, ◌++◌, arith, ltb, ◌==◌, le→ltb, Bool-cases, length, take, drop, All, length-append,
  take-all, drop-add, take_front, u8, u16, u32,
}
use qo_srtp.Nack.Header.{CommonHeader, accepted, store_header, header_bytes}
use qo_srtp.Nack.Written.{
  length-header_bytes, create_header-bytes, header_found, store_header-there,
}
use qo_srtp.Bye.Defs.{payload_bytes}
use qo_srtp.Sdes.Defs.{Chunk, Sdes, sdes_length, load_sdes, store_sdes}
use qo_srtp.Sdes.Chunks.{
  IsChunk, chunks_bytes, length-chunks_bytes, load_chunks-bytes, read_chunks-bytes, sizes,
  sizes_aligned,
}

-- At most 31 chunks, and the length is the sum of their sizes.
pub record IsSdes (self : Sdes) : Type 0 where
  pub few : length self.chunks ≤ 31
  pub good : All IsChunk self.chunks
  pub summed : self.chunks_buffer_length ≡ sizes self.chunks

sizes_small : (cs : List Chunk) → All IsChunk cs → sizes cs ≤ length cs * 265
unfolding sizes
sizes_small [] h = omega arith
sizes_small (c ∷ cs) h = omega (arith, h.0.short_name, sizes_small cs h.1)

module _ (self : Sdes) (v : IsSdes self) where
  abbrev count : ℕ
  count = length self.chunks

  abbrev words : ℕ
  words = sizes self.chunks / 4

  pub lengths :
      (sdes_length self ≡ 4 + sizes self.chunks)
      × (u16 ((sdes_length self - 4) / 4) ≡ words)
      × (u8 count ≡ count)
      × (words * 4 ≡ sizes self.chunks)
      × (words < 65536)
  unfolding sdes_length
  lengths =
      let small = sizes_small self.chunks v.good in
      (
        omega (arith, v.summed, v.few, small),
        omega (arith, v.summed, v.few, small),
        omega (arith, v.few),
        omega (arith, sizes_aligned self.chunks),
        omega (arith, v.few, small),
      )

  pub load_sdes-bytes :
      (acc rest : List ℕ) (pos max_length : ℕ)
      → length acc ≡ pos
      → pos + (4 + sizes self.chunks) ≤ max_length
      → max_length < 4294967296
      → load_sdes self (acc ++ rest) pos max_length
        ≡ some (
          (acc ++ (header_bytes count 202 words ++ chunks_bytes self.chunks))
              ++ drop (4 + sizes self.chunks) rest,
          pos + (4 + sizes self.chunks),
        )
  unfolding load_sdes
  load_sdes-bytes acc rest pos max_length h fits top =
      let H = header_bytes count 202 words in
      let B = chunks_bytes self.chunks in
      let space =
        le→ltb max_length (u32 (pos + sdes_length self)) (omega (arith, lengths.0, fits, top)) in
      let l1 : length (acc ++ H) ≡ pos + 4 =
        omega (arith, h, length-append acc H, length-header_bytes count 202 words) in
      let headed = create_header-bytes count 202 words acc rest pos (omega (arith, v.few)) h in
      let end : pos + 4 + sizes self.chunks ≡ pos + (4 + sizes self.chunks) = omega arith in
      rw (load_sdes, lengths.1, lengths.2, headed, space)
        (ap some (
          load_chunks-bytes self.chunks (acc ++ H) (drop 4 rest) (pos + 4) l1
          ∙ ap₂ (λ b p. (b, p))
              (ap₂ ◌++◌ (append_assoc acc H B) (drop-add 4 (sizes self.chunks) rest)) end))

  payload_found :
      (more : List ℕ)
      → take
          (words * 4)
          (payload_bytes (header_found count 202 words (chunks_bytes self.chunks ++ more)))
        ≡ chunks_bytes self.chunks
  unfolding payload_bytes
  payload_found more =
      let B = chunks_bytes self.chunks in
      let long : length B ≡ words * 4 = omega (arith, length-chunks_bytes self.chunks, lengths.3) in
      elim (Bool-cases (ltb 0 (words * 4))) [
        | inl filled ↦ rw (filled) (take_front B more (words * 4) long)
        | inr empty ↦
            let nothing : words * 4 ≡ 0 = ground arith in
            rw (empty)
              (ap (λ k. take k []) nothing ∙ sym (ap (λ k. take k B) (long ∙ nothing)) ∙ take-all B)
      ]

  pub store_sdes-found :
      (more : List ℕ)
      → store_sdes (header_found count 202 words (chunks_bytes self.chunks ++ more)) ≡ some self
  unfolding store_sdes
  store_sdes-found more =
      let aligned : (words * 4 % 4 == 0) ≡ true = ground arith in
      rw
        (
          store_sdes,
          aligned,
          payload_found more,
          read_chunks-bytes self.chunks [] 0 v.good
              (omega (arith, v.few, sizes_small self.chunks v.good)),
        )
        (λ i. some (record {
          chunks = self.chunks;
          chunks_buffer_length =
              (let e : 0 + sizes self.chunks ≡ self.chunks_buffer_length =
                    omega (arith, v.summed) in
                  e)
                i;
        }))

  -- Source descriptions that `AddCName` built up and that have space in the buffer behind `acc`:
  -- `LoadPacket` succeeds, `StorePacket` accepts the header there, whatever the header object held,
  -- and reads the same chunks back, with the same length, whatever follows the packet.
  pub store_sdes-load_sdes :
      (acc rest : List ℕ) (max_length size_bytes : ℕ) (header : CommonHeader)
      → length acc + (4 + sizes self.chunks) ≤ max_length
      → max_length < 4294967296
      → 4 + sizes self.chunks ≤ size_bytes
      → (packet : List ℕ) × (load_sdes self (acc ++ rest) (length acc) max_length
          ≡ some (packet, length acc + (4 + sizes self.chunks)))
        × (parsed : CommonHeader) × (store_header (drop (length acc) packet) size_bytes header
            ≡ accepted parsed)
        × (store_sdes parsed ≡ some self)
  store_sdes-load_sdes acc rest max_length size_bytes header fits top long =
      let more = drop (4 + sizes self.chunks) rest in
      let B = chunks_bytes self.chunks in
      (
        (acc ++ (header_bytes count 202 words ++ B)) ++ more,
        load_sdes-bytes acc rest (length acc) max_length refl fits top,
        header_found count 202 words (B ++ more),
        store_header-there count 202 words size_bytes acc B more header (omega (arith, v.few))
            lengths.4 (omega (arith, lengths.3, long)),
        store_sdes-found more,
      )
