-- ===== src/Bye/RoundTrip.antt =====
-- A goodbye of src/rtp_rtcp/bye.cc through a buffer.
use mathlib.Core.List.{append_assoc}
use qo_srtp.Common.{
  ℕ, suc, ◌+◌, ◌-◌, ◌*◌, ◌/◌, ◌≤◌, ◌<◌, ◌≡◌, refl, ap, ap₂, ◌∙◌, false, some, List, ◌∷◌, ◌++◌,
  arith, ◌==◌, le→ltb, ==_ne, length, drop, length-append, drop-add, drop_front, u8, u16, u32,
}
use qo_srtp.ByteIo.{write_big_endian, read_big_endian}
use qo_srtp.ByteIo.RoundTrip.{read-write, length-write_big_endian}
use qo_srtp.Nack.Header.{CommonHeader, accepted, store_header, header_bytes}
use qo_srtp.Nack.Written.{length-header_bytes, create_header-bytes, store_header-found}
use qo_srtp.Bye.Defs.{
  Bye, reason_words, bye_length, load_csrcs, load_reason, load_bye, read_csrcs, payload_bytes,
  store_bye,
}
use qo_srtp.Bye.Parts.{
  IsBye, csrcs_bytes, length-csrcs_bytes, length-reason_bytes, load_csrcs-bytes, load_reason-bytes,
  read_csrcs-bytes, reason_bytes, reason_found, reason_words_few,
}

module _ (self : Bye) (v : IsBye self) where
  abbrev sources : ℕ
  sources = length self.csrcs

  abbrev words : ℕ
  words = 1 + sources + reason_words self.reason

  pub few_words : words ≤ 95
  few_words = omega (arith, v.few_sources, reason_words_few self.reason v.short_reason)

  pub sizes :
      (bye_length self ≡ 4 + 4 * words)
      × (u16 ((bye_length self - 4) / 4) ≡ words)
      × (u8 (1 + sources) ≡ 1 + sources)
  unfolding bye_length
  sizes = (omega (arith, few_words), omega (arith, few_words), omega (arith, v.few_sources))

  -- All behind the header.
  unfoldable pub bye_bytes : List ℕ
  bye_bytes = csrcs_bytes (self.sender_ssrc ∷ self.csrcs) ++ reason_bytes self.reason

  pub load_bye-bytes :
      (acc rest : List ℕ) (pos max_length : ℕ)
      → length acc ≡ pos
      → pos + (4 + 4 * words) ≤ max_length
      → max_length < 4294967296
      → load_bye self (acc ++ rest) pos max_length
        ≡ some (
          (acc ++ (header_bytes (1 + sources) 203 words ++ bye_bytes)) ++ drop (4 + 4 * words) rest,
          pos + (4 + 4 * words),
        )
  unfolding load_bye bye_bytes load_csrcs
  load_bye-bytes acc rest pos max_length h fits top =
      let H = header_bytes (1 + sources) 203 words in
      let C = csrcs_bytes (self.sender_ssrc ∷ self.csrcs) in
      let R = reason_bytes self.reason in
      let end : u32 (pos + bye_length self) ≡ pos + (4 + 4 * words) =
        omega (arith, sizes.0, fits, top) in
      let space = le→ltb max_length (pos + (4 + 4 * words)) fits in
      let l1 : length (acc ++ H) ≡ pos + 4 =
        omega (arith, h, length-append acc H, length-header_bytes (1 + sources) 203 words) in
      let l2 : length ((acc ++ H) ++ C) ≡ pos + 4 + suc sources * 4 = omega (
        arith,
        l1,
        length-append (acc ++ H) C,
        length-csrcs_bytes (self.sender_ssrc ∷ self.csrcs),
      ) in
      let headed =
        create_header-bytes (1 + sources) 203 words acc rest pos (omega (arith, v.few_sources)) h in
      let left =
        load_csrcs-bytes (self.sender_ssrc ∷ self.csrcs) (acc ++ H) (drop 4 rest) (pos + 4) l1 in
      let reasoned =
        load_reason-bytes self.reason ((acc ++ H) ++ C) (drop (suc sources * 4) (drop 4 rest))
          (pos + 4 + suc sources * 4) (pos + (4 + 4 * words)) l2 v.short_reason (omega arith)
          (omega (arith, fits, top)) in
      let joined : ((acc ++ H) ++ C) ++ R ≡ acc ++ (H ++ (C ++ R)) =
        append_assoc (acc ++ H) C R ∙ append_assoc acc H (C ++ R) in
      let rest_left : drop (4 * reason_words self.reason) (drop (suc sources * 4) (drop 4 rest))
          ≡ drop (4 + 4 * words) rest =
        ap (drop (4 * reason_words self.reason)) (drop-add 4 (suc sources * 4) rest)
        ∙ drop-add (4 + suc sources * 4) (4 * reason_words self.reason) rest
        ∙ ap (λ k. drop k rest)
            (let e : 4 + suc sources * 4 + 4 * reason_words self.reason ≡ 4 + 4 * words =
                omega arith in
              e) in
      rw (load_bye, sizes.1, sizes.2, headed, end, space)
        (ap some (
          ap (λ q. load_reason self.reason (pos + (4 + 4 * words)) q.0 q.1) left
          ∙ reasoned
          ∙ ap₂ (λ b p. (b, p)) (ap₂ ◌++◌ joined rest_left) refl))

  pub length-bye_bytes : length bye_bytes ≡ words * 4
  unfolding bye_bytes
  length-bye_bytes = omega (
    arith,
    length-append (csrcs_bytes (self.sender_ssrc ∷ self.csrcs)) (reason_bytes self.reason),
    length-csrcs_bytes (self.sender_ssrc ∷ self.csrcs),
    length-reason_bytes self.reason,
  )

  -- The header that is found at the goodbye.
  abbrev parsed_header : List ℕ → CommonHeader
  parsed_header more = record {
    packet_type = 203;
    count_or_format = 1 + sources;
    padding_size = 0;
    payload_size = words * 4;
    payload = some (bye_bytes ++ more);
  }

  behind_sources :
      (more : List ℕ)
      → drop (4 * (1 + sources)) (bye_bytes ++ more) ≡ reason_bytes self.reason ++ more
  unfolding bye_bytes
  behind_sources more =
      let C = csrcs_bytes (self.sender_ssrc ∷ self.csrcs) in
      ap (drop (4 * (1 + sources))) (append_assoc C (reason_bytes self.reason) more)
      ∙ drop_front C (reason_bytes self.reason ++ more) (4 * (1 + sources))
          (omega (arith, length-csrcs_bytes (self.sender_ssrc ∷ self.csrcs)))

  pub store_bye-bytes : (more : List ℕ) → store_bye (parsed_header more) ≡ some self
  unfolding store_bye payload_bytes
  store_bye-bytes more =
      let P = bye_bytes ++ more in
      let C = csrcs_bytes self.csrcs in
      let S = write_big_endian 4 self.sender_ssrc in
      let R = reason_bytes self.reason in
      let found =
        reason_found self.reason P more (4 * (1 + sources)) (words * 4) v.short_reason
          (behind_sources more) (omega arith) in
      let whole : P ≡ S ++ (C ++ (R ++ more)) =
        unfold bye_bytes csrcs_bytes in
        append_assoc (S ++ C) R more ∙ append_assoc S C (R ++ more) in
      let sender : read_big_endian 4 P ≡ self.sender_ssrc =
        ap (read_big_endian 4) whole
        ∙ (read-write 4 self.sender_ssrc (C ++ (R ++ more)) v.sender).0 in
      let others : read_csrcs (1 + sources - 1) (drop 4 P) ≡ self.csrcs =
        ap₂ read_csrcs (let e : 1 + sources - 1 ≡ sources = omega arith in e) (
          ap (drop 4) whole
          ∙ drop_front S (C ++ (R ++ more)) 4 (length-write_big_endian 4 self.sender_ssrc))
        ∙ read_csrcs-bytes self.csrcs (R ++ more) v.sources in
      let several : (1 + sources == 0) ≡ false = ==_ne (1 + sources) 0 (omega arith) in
      rw (store_bye, payload_bytes, found.0, found.1, several)
        (λ i. some (record { sender_ssrc = sender i; csrcs = others i; reason = found.2 i }))

  -- A goodbye with at most 30 further sources and a reason of at most 255 characters, that has space
  -- in the buffer behind `acc`: `LoadPacket` succeeds and fills it up to the end of a word,
  -- `StorePacket` accepts the header there, whatever the header object held, and the goodbye that is
  -- stored from it has the same ssrc, sources and reason.
  pub store_bye-load_bye :
      (acc rest : List ℕ) (max_length size_bytes : ℕ) (header : CommonHeader)
      → length acc + (4 + 4 * words) ≤ max_length
      → max_length < 4294967296
      → 4 + 4 * words ≤ size_bytes
      → (packet : List ℕ) × (load_bye self (acc ++ rest) (length acc) max_length
          ≡ some (packet, length acc + (4 + 4 * words)))
        × (parsed : CommonHeader) × (store_header (drop (length acc) packet) size_bytes header
            ≡ accepted parsed)
        × (store_bye parsed ≡ some self)
  store_bye-load_bye acc rest max_length size_bytes header fits top long =
      let more = drop (4 + 4 * words) rest in
      (
        (acc ++ (header_bytes (1 + sources) 203 words ++ bye_bytes)) ++ more,
        load_bye-bytes acc rest (length acc) max_length refl fits top,
        parsed_header more,
        store_header-found (1 + sources) 203 words size_bytes acc bye_bytes more header
            (omega (arith, v.few_sources)) (omega arith) (omega (arith, few_words))
            (omega (arith, long)),
        store_bye-bytes more,
      )
