-- ===== src/RtpPacket/Written.antt =====
-- The writes of `LoadPacket` in src/rtp_rtcp/rtp_packet_impl.cc, one after the other: each adds its
-- bytes to what stands before `write_pos`.
use mathlib.Core.List.{append_assoc, append-nil, reverse-cons}
use qo_srtp.Common.{
  ℕ, ◌+◌, ◌-◌, ◌*◌, ◌≤◌, ◌<◌, ◌≡◌, refl, sym, ap, subst, ◌∙◌, inl, inr, Option, none, some, List,
  [], ◌∷◌, ◌++◌, reverse, arith, ltb, if◌then◌else◌, ltb→lt, Bool-cases, length, take, drop,
  replicate, length-append, length-take, length-replicate, take-length-append, length-reverse, u32,
}
use qo_srtp.ByteIo.{host_bytes, write_big_endian}
use qo_srtp.ByteIo.RoundTrip.{length-host_bytes, length-write_big_endian, write_big_endian-reverse}
use qo_srtp.DataBuffer.{DataBuffer, write, modify_at, mem_set}
use qo_srtp.DataBuffer.Bounds.{length-write}
use qo_srtp.RtpPacket.Defs.{Extension}
use qo_srtp.RtpPacket.Store.{extension_bytes, payload_bytes}
use qo_srtp.RtpPacket.Load.{
  Writer, put, put_reversed, put_number, put_csrcs, put_extension, put_payload, put_padding,
}

-- `out` stands in front of `write_pos`, in a full buffer of `total` bytes.
pub record Written (total : ℕ) (w : Writer) (out : List ℕ) : Type 0 where
  pub pos : w.write_pos ≡ length out
  pub size : w.target.size ≡ total
  pub whole : length w.target.buffer ≡ total
  pub front : take (length out) w.target.buffer ≡ out

-- The CSRCs as the code writes them.
unfoldable pub csrc_bytes : List ℕ → List ℕ
csrc_bytes [] = []
csrc_bytes (c ∷ cs) = write_big_endian 4 c ++ csrc_bytes cs

-- The content of an extension is as long as its length says, which counts words.
pub record IsExtension (e : Extension) : Type 0 where
  pub named : length e.name ≡ 2
  pub counted : e.content.size ≡ e.ext_length * 4
  pub content_size : e.content.size ≤ length e.content.buffer

abbrev pub ExtensionFits : Option Extension → Type 0
ExtensionFits none = Unit {0}
ExtensionFits (some e) = IsExtension e

unfoldable pub extension_image : Option Extension → List ℕ
extension_image none = []
extension_image (some e) =
    take 2 e.name ++ (write_big_endian 2 e.ext_length ++ take e.content.size e.content.buffer)

abbrev pub PayloadFits : Option DataBuffer → Type 0
PayloadFits none = Unit {0}
PayloadFits (some b) = b.size ≤ length b.buffer

unfoldable pub payload_image : Option DataBuffer → List ℕ
payload_image none = []
payload_image (some b) = take b.size b.buffer

-- Zeros, and at the end the number of padding bytes.
unfoldable pub padding_image : ℕ → List ℕ
padding_image pad_size =
    if ltb 0 pad_size then replicate (pad_size - 1) 0 ++ (pad_size ∷ []) else []

front-write :
    (buffer out from : List ℕ)
    → take (length out) buffer ≡ out
    → take (length (out ++ from)) (write buffer (length out) from) ≡ out ++ from
unfolding write
front-write buffer out from e =
    ap (λ l. take (length (out ++ from)) (l ++ (from ++ drop (length out + length from) buffer))) e
    ∙ ap (take (length (out ++ from)))
        (sym (append_assoc out from (drop (length out + length from) buffer)))
    ∙ take-length-append (out ++ from) (drop (length out + length from) buffer)

module _ (total : ℕ) (small : total < 4294967296) where
  Written-write :
      (w : Writer) (out from : List ℕ)
      → Written total w out
      → length out + length from ≤ total
      → Written total
          (record {
            target = record (w.target) { buffer = write w.target.buffer w.write_pos from };
            write_pos = u32 (w.write_pos + length from);
          })
          (out ++ from)
  Written-write w out from v h = record {
    pos = omega (arith, v.pos, length-append out from);
    size = v.size;
    whole = length-write w.target.buffer w.write_pos from (omega (arith, v.pos, v.whole)) ∙ v.whole;
    front = rw (v.pos) (front-write w.target.buffer out from v.front);
  }

  pub put-Written :
      (w : Writer) (out from : List ℕ) (n : ℕ)
      → Written total w out
      → length (take n from) ≡ n
      → length out + n ≤ total
      → Written total (put w from n) (out ++ take n from)
  unfolding put modify_at
  put-Written w out from n v e h =
      subst (λ r. Written total r (out ++ take n from)) (ground (arith, v.pos, v.size, e))
        (Written-write w out (take n from) v (omega (arith, e)))

  put_reversed-Written :
      (bs : List ℕ) (w : Writer) (out : List ℕ)
      → Written total w out
      → length out + length bs ≤ total
      → Written total (put_reversed bs w) (out ++ reverse bs)
  unfolding put_reversed
  put_reversed-Written [] w out v h = rw append-nil v
  put_reversed-Written (b ∷ bs) w out v h =
      rw (reverse-cons, ← append_assoc)
        (put-Written (put_reversed bs w) (out ++ reverse bs) (b ∷ []) 1
          (put_reversed-Written bs w out v (omega arith)) refl
          (omega (arith, length-append out (reverse bs), length-reverse bs)))

  pub put_number-Written :
      (n value : ℕ) (w : Writer) (out : List ℕ)
      → Written total w out
      → length out + n ≤ total
      → Written total (put_number n value w) (out ++ write_big_endian n value)
  unfolding put_number
  put_number-Written n value w out v h =
      rw (write_big_endian-reverse n value) (
        put_reversed-Written (host_bytes n value) w out v
          (omega (arith, length-host_bytes n value)))

  pub put_csrcs-Written :
      (cs : List ℕ) (w : Writer) (out : List ℕ)
      → Written total w out
      → length out + length cs * 4 ≤ total
      → Written total (put_csrcs cs w) (out ++ csrc_bytes cs)
  unfolding put_csrcs csrc_bytes
  put_csrcs-Written [] w out v h = rw append-nil v
  put_csrcs-Written (c ∷ cs) w out v h = rw (← append_assoc) (
      put_csrcs-Written cs (put_number 4 c w) (out ++ write_big_endian 4 c)
        (put_number-Written 4 c w out v (omega arith))
        (omega (arith, length-append out (write_big_endian 4 c), length-write_big_endian 4 c)))

  pub put_extension-Written :
      (e : Option Extension) (w : Writer) (out : List ℕ)
      → Written total w out
      → ExtensionFits e
      → length out + extension_bytes e ≤ total
      → Written total (put_extension e w) (out ++ extension_image e)
  unfolding put_extension extension_image extension_bytes
  put_extension-Written none w out v f h = rw append-nil v
  put_extension-Written (some e) w out v f h =
      let named =
        put-Written w out e.name 2 v (ground (arith, length-take 2 e.name, f.named))
          (omega arith) in
      let a = length-append out (take 2 e.name) in
      let b = length-take 2 e.name in
      let counted =
        put_number-Written 2 e.ext_length (put w e.name 2) (out ++ take 2 e.name) named
          (omega (arith, a, b, f.named)) in
      let c = length-append (out ++ take 2 e.name) (write_big_endian 2 e.ext_length) in
      let filled =
        put-Written (put_number 2 e.ext_length (put w e.name 2))
          ((out ++ take 2 e.name) ++ write_big_endian 2 e.ext_length) e.content.buffer
          e.content.size counted
          (omega (arith, length-take e.content.size e.content.buffer, f.content_size))
          (omega (arith, a, b, c, f.named, f.counted, length-write_big_endian 2 e.ext_length)) in
      rw (append_assoc, append_assoc) at filled

  pub put_payload-Written :
      (b : Option DataBuffer) (w : Writer) (out : List ℕ)
      → Written total w out
      → PayloadFits b
      → length out + payload_bytes b ≤ total
      → Written total (put_payload b w) (out ++ payload_image b)
  unfolding put_payload payload_image payload_bytes
  put_payload-Written none w out v f h = rw append-nil v
  put_payload-Written (some b) w out v f h =
      put-Written w out b.buffer b.size v (omega (arith, length-take b.size b.buffer)) h

  set-Written :
      (w : Writer) (out : List ℕ) (value n : ℕ)
      → Written total w out
      → length out + n ≤ total
      → Written total
          (record {
            target = (mem_set w.target w.write_pos value n).1;
            write_pos = u32 (w.write_pos + n);
          })
          (out ++ replicate n value)
  unfolding mem_set
  set-Written w out value n v h =
      subst (λ r. Written total r (out ++ replicate n value))
        (ground (arith, v.pos, v.size, length-replicate n value))
        (Written-write w out (replicate n value) v (omega (arith, length-replicate n value)))

  pub put_padding-Written :
      (pad_size : ℕ) (w : Writer) (out : List ℕ)
      → Written total w out
      → length out + pad_size ≤ total
      → Written total (put_padding pad_size w) (out ++ padding_image pad_size)
  unfolding put_padding padding_image
  put_padding-Written pad_size w out v h = elim (Bool-cases (ltb 0 pad_size)) [
    | inr absent ↦ rw (absent, append-nil) v
    | inl present ↦
        let some_pad : 0 < pad_size = ltb→lt 0 pad_size present in
        let zeros = set-Written w out 0 (pad_size - 1) v (omega arith) in
        rw (present, ← append_assoc)
          (set-Written _ (out ++ replicate (pad_size - 1) 0) pad_size 1 zeros (
            omega (
              arith,
              length-append out (replicate (pad_size - 1) 0),
              length-replicate (pad_size - 1) (let z : ℕ = 0 in z),
            )))
  ]
