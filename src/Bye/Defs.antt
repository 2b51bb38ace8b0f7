-- ===== src/Bye/Defs.antt =====
-- `Bye` of src/rtp_rtcp/bye.cc.
use qo_srtp.Common.{
  ℕ, zero, suc, ◌+◌, ◌-◌, ◌*◌, ◌/◌, not, ◌&&◌, Option, none, some, List, [], ◌∷◌, ltb, ◌==◌,
  if◌then◌else◌, length, get_or, take, drop, replicate, u8, u16, u32, sub32,
}
use qo_srtp.ByteIo.{write_big_endian, read_big_endian}
use qo_srtp.DataBuffer.{write}
use qo_srtp.Nack.Header.{CommonHeader, create_header}

-- `reason_` is a string, kept by its characters.
pub record Bye : Type 0 where
  pub sender_ssrc : ℕ
  pub csrcs : List ℕ
  pub reason : List ℕ

-- `none` is an error.
unfoldable pub set_reason : List ℕ → Bye → Option Bye
set_reason reason self =
    if ltb 0xff (length reason) then none else some (record self { reason = reason })

unfoldable pub set_csrcs : List ℕ → Bye → Option Bye
set_csrcs csrcs self = if ltb 30 (length csrcs) then none else some (record self { csrcs = csrcs })

-- `reason_size_in_32bits`: with the byte that counts the characters.
unfoldable pub reason_words : List ℕ → ℕ
reason_words [] = 0
reason_words (r ∷ rs) = length (r ∷ rs) / 4 + 1

unfoldable pub bye_length : Bye → ℕ
bye_length self = u32 (4 + 4 * (1 + length self.csrcs + reason_words self.reason))

unfoldable pub load_csrcs : List ℕ → List ℕ → ℕ → List ℕ × ℕ
load_csrcs [] packet pos = (packet, pos)
load_csrcs (c ∷ cs) packet pos = load_csrcs cs (write packet pos (write_big_endian 4 c)) (pos + 4)

-- `memset` of the padding bytes, if there are any.
unfoldable pub pad_zeros : ℕ → List ℕ → ℕ → List ℕ × ℕ
pad_zeros bytes_to_pad packet pos =
    if ltb 0 bytes_to_pad
    then (write packet pos (replicate bytes_to_pad 0), pos + bytes_to_pad)
    else (packet, pos)

unfoldable pub load_reason : List ℕ → ℕ → List ℕ → ℕ → List ℕ × ℕ
load_reason [] index_end packet pos = (packet, pos)
load_reason (r ∷ rs) index_end packet pos =
    let reason_length = u8 (length (r ∷ rs)) in
    let counted = write packet pos (reason_length ∷ []) in
    let told = write counted (pos + 1) (take reason_length (r ∷ rs)) in
    let pos1 = pos + 1 + reason_length in pad_zeros (sub32 index_end pos1) told pos1

-- The buffer and `*pos` afterwards; `none` is an error.
unfoldable pub load_bye : Bye → List ℕ → ℕ → ℕ → Option (List ℕ × ℕ)
load_bye self packet pos max_length =
    let (headed, pos1) =
      create_header (u8 (1 + length self.csrcs)) 203 (u16 ((bye_length self - 4) / 4)) packet pos in
    let sent = write headed pos1 (write_big_endian 4 self.sender_ssrc) in
    let (left, pos2) = load_csrcs self.csrcs sent (pos1 + 4) in
    if ltb max_length (u32 (pos + bye_length self))
    then none
    else some (load_reason self.reason (u32 (pos + bye_length self)) left pos2)

unfoldable pub read_csrcs : ℕ → List ℕ → List ℕ
read_csrcs zero next = []
read_csrcs (suc n) next = read_big_endian 4 next ∷ read_csrcs n (drop 4 next)

-- The bytes at `payload()`. A header that was stored has `nullptr` only with a payload of size 0,
-- of which nothing is read.
unfoldable pub payload_bytes : CommonHeader → List ℕ
payload_bytes header = elim header.payload [ none ↦ [] | some payload ↦ payload ]

-- `none` is an error. All that the object holds is replaced.
unfoldable pub store_bye : CommonHeader → Option Bye
store_bye header =
    let payload = payload_bytes header in
    let sources = 4 * header.count_or_format in
    let has_reason = ltb sources header.payload_size in
    let reason_length = if has_reason then get_or payload sources 0 else 0 in
    if not (header.packet_type == 203)
    then none
    else if ltb header.payload_size sources
    then none
    else if has_reason && ltb (header.payload_size - sources) (1 + reason_length)
    then none
    else some (record {
      sender_ssrc = if header.count_or_format == 0 then 0 else read_big_endian 4 payload;
      csrcs = read_csrcs (header.count_or_format - 1) (drop 4 payload);
      reason = if has_reason then take reason_length (drop (sources + 1) payload) else [];
    })
