-- ===== src/App/Written.antt =====
-- What `LoadPacket` of src/rtp_rtcp/app.cc writes.
use qo_srtp.Common.{
  ℕ, ◌+◌, ◌-◌, ◌/◌, ◌≤◌, ◌<◌, ◌≡◌, refl, ap, ap₂, ◌∙◌, some, List, ◌++◌, arith, le→ltb, length,
  drop, length-append, drop-add, u16, u32,
}
use qo_srtp.ByteIo.{write_big_endian}
use qo_srtp.ByteIo.RoundTrip.{length-write_big_endian}
use qo_srtp.DataBuffer.{DataBuffer}
use qo_srtp.DataBuffer.Filling.{write_twice}
use qo_srtp.Nack.Header.{header_bytes}
use qo_srtp.Nack.Written.{length-header_bytes, create_header-bytes}
use qo_srtp.App.Defs.{App, no_result, load_app}

-- Header, ssrc and name are written, and none of the data: behind the name the buffer keeps what
-- it held before, while `*pos` is behind the data.
pub load_app-bytes :
    (self : App) (content : DataBuffer) (acc rest : List ℕ) (max_length : ℕ)
    → self.content ≡ some content
    → self.sub_type < 32
    → content.size ≤ 262132
    → length acc + (12 + content.size) ≤ max_length
    → max_length < 4294967296
    → load_app self (acc ++ rest) (length acc) max_length
      ≡ no_result
          ((((acc ++ header_bytes self.sub_type 204 ((8 + content.size) / 4))
                ++ write_big_endian 4 self.sender_ssrc)
              ++ write_big_endian 4 self.name)
            ++ drop 12 rest)
          (length acc + (12 + content.size))
unfolding load_app
load_app-bytes self content acc rest max_length there few small fits top =
    let H = header_bytes self.sub_type 204 ((8 + content.size) / 4) in
    let S = write_big_endian 4 self.sender_ssrc in
    let N = write_big_endian 4 self.name in
    let words : u16 ((u32 (4 + 8 + content.size) - 4) / 4) ≡ (8 + content.size) / 4 =
      omega (arith, small) in
    let space =
      le→ltb max_length (u32 (length acc + u32 (4 + 8 + content.size)))
        (omega (arith, small, fits, top)) in
    let headed =
      create_header-bytes self.sub_type 204 ((8 + content.size) / 4) acc rest (length acc) few
        refl in
    let l1 : length (acc ++ H) ≡ length acc + 4 = omega (
      arith,
      length-append acc H,
      length-header_bytes self.sub_type 204 ((8 + content.size) / 4),
    ) in
    let named =
      write_twice (acc ++ H) (drop 4 rest) S N (length acc + 4) (length acc + 4 + 4) 4 l1
        (length-write_big_endian 4 self.sender_ssrc) (length-write_big_endian 4 self.name) refl in
    let end : length acc + 4 + (8 + content.size) ≡ length acc + (12 + content.size) =
      omega arith in
    rw (load_app, there, space, words, headed)
      (ap₂ no_result (named ∙ ap (λ r. (((acc ++ H) ++ S) ++ N) ++ r) (drop-add 4 8 rest)) end)
