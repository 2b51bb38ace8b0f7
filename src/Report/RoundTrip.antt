-- ===== src/Report/RoundTrip.antt =====
-- A receiver report of src/rtp_rtcp/receiver_report.cc through a buffer.
use mathlib.Core.List.{append_assoc, append-nil}
use qo_srtp.Common.{
  ℕ, suc, ◌+◌, ◌-◌, ◌*◌, ◌/◌, ◌%◌, ◌≤◌, ◌<◌, ◌≡◌, refl, sym, ap, ap₂, ◌∙◌, false, some, List, [],
  ◌∷◌, ◌++◌, map, arith, ltb, leb, if◌then◌else◌, le→ltb, length, drop, All, length-append,
  drop-add, drop_front, u8, u16, u32, IsU8, IsU32,
}
use qo_srtp.ByteIo.{write_big_endian, read_big_endian, write_big_loop, host_bytes, of_host_bytes}
use qo_srtp.ByteIo.RoundTrip.{read-write, length-write_big_endian}
use qo_srtp.DataBuffer.Filling.{write_next}
use qo_srtp.Nack.Header.{CommonHeader, accepted, store_header, header_bytes}
use qo_srtp.Nack.Written.{length-header_bytes, create_header-bytes, store_header-found}
use qo_srtp.Report.Defs.{
  ReportBlock, block_bytes, read_int24, store_block, ReceiverReport, report_length, load_blocks,
  load_report, store_blocks, store_report,
}

pub record IsBlock (b : ReportBlock) : Type 0 where
  pub source : IsU32 b.source_ssrc
  pub fraction : IsU8 b.fraction_lost
  pub lost : IsU32 b.cumulative_lost
  pub high : IsU32 b.extended_high_seq_num
  pub stutter : IsU32 b.jitter
  pub last : IsU32 b.last_sr
  pub delay : IsU32 b.delay_since_last_sr

-- What comes back of a block: of the losses 24 bits, with a sign that depends on `stale`.
abbrev pub reread : ℕ → ReportBlock → ReportBlock
reread stale b = record b {
  cumulative_lost = b.cumulative_lost % 16777216 + (if leb 128 stale then 4278190080 else 0);
}

pub length-block_bytes : (b : ReportBlock) → length (block_bytes b) ≡ 24
unfolding block_bytes write_big_endian write_big_loop host_bytes
length-block_bytes b = refl

-- The number that its four bytes, or its lowest three, stand for.
pub four_bytes :
    (n : ℕ)
    → IsU32 n
    → n % 256
        + 256
          * (n / 256 % 256
              + 256 * (n / 256 / 256 % 256 + 256 * (n / 256 / 256 / 256 % 256 + 256 * 0)))
      ≡ n
four_bytes n h = omega arith

three_bytes :
    (n : ℕ) → n % 256 + 256 * (n / 256 % 256 + 256 * (n / 256 / 256 % 256 + 256 * 0)) ≡ n % 16777216
three_bytes n = omega arith

store_block-block_bytes :
    (stale : ℕ) (b : ReportBlock) (rest : List ℕ)
    → IsBlock b
    → store_block stale (block_bytes b ++ rest) ≡ reread stale b
unfolding store_block read_int24 block_bytes write_big_endian write_big_loop host_bytes
    read_big_endian of_host_bytes
store_block-block_bytes stale b rest v = λ i. record {
  source_ssrc = four_bytes b.source_ssrc v.source i;
  fraction_lost = b.fraction_lost;
  cumulative_lost = three_bytes b.cumulative_lost i + (if leb 128 stale then 4278190080 else 0);
  extended_high_seq_num = four_bytes b.extended_high_seq_num v.high i;
  jitter = four_bytes b.jitter v.stutter i;
  last_sr = four_bytes b.last_sr v.last i;
  delay_since_last_sr = four_bytes b.delay_since_last_sr v.delay i;
}

-- The blocks in a row.
unfoldable pub blocks_bytes : List ReportBlock → List ℕ
blocks_bytes [] = []
blocks_bytes (b ∷ bs) = block_bytes b ++ blocks_bytes bs

pub load_blocks-bytes :
    (bs : List ReportBlock) (acc rest : List ℕ) (pos : ℕ)
    → length acc ≡ pos
    → load_blocks bs (acc ++ rest) pos
      ≡ ((acc ++ blocks_bytes bs) ++ drop (length bs * 24) rest, pos + length bs * 24)
unfolding load_blocks blocks_bytes
load_blocks-bytes [] acc rest pos h =
    ap₂ (λ xs p. (xs ++ rest, p)) (sym (append-nil acc)) (let e : pos ≡ pos + 0 = omega arith in e)
load_blocks-bytes (b ∷ bs) acc rest pos h =
    let long : length (acc ++ block_bytes b) ≡ pos + 24 =
      omega (arith, h, length-append acc (block_bytes b), length-block_bytes b) in
    let left : drop (length bs * 24) (drop 24 rest) ≡ drop (suc (length bs) * 24) rest =
      drop-add 24 (length bs * 24) rest
      ∙ ap (λ k. drop k rest)
          (let e : 24 + length bs * 24 ≡ suc (length bs) * 24 = omega arith in e) in
    let end : pos + 24 + length bs * 24 ≡ pos + suc (length bs) * 24 = omega arith in
    ap (λ p. load_blocks bs p (pos + 24))
      (write_next acc rest (block_bytes b) pos 24 h (length-block_bytes b))
    ∙ load_blocks-bytes bs (acc ++ block_bytes b) (drop 24 rest) (pos + 24) long
    ∙ ap₂ (λ p q. (p, q)) (ap₂ ◌++◌ (append_assoc acc (block_bytes b) (blocks_bytes bs)) left) end

store_blocks-bytes :
    (stale : ℕ) (bs : List ReportBlock) (rest : List ℕ)
    → All IsBlock bs
    → store_blocks stale (length bs) (blocks_bytes bs ++ rest) ≡ map (reread stale) bs
unfolding store_blocks blocks_bytes
store_blocks-bytes stale [] rest h = refl
store_blocks-bytes stale (b ∷ bs) rest h =
    let whole = append_assoc (block_bytes b) (blocks_bytes bs) rest in
    let behind =
      ap (drop 24) whole
      ∙ drop_front (block_bytes b) (blocks_bytes bs ++ rest) 24 (length-block_bytes b) in
    ap₂ ◌∷◌
      (ap (store_block stale) whole ∙ store_block-block_bytes stale b (blocks_bytes bs ++ rest) h.0)
      (ap (store_blocks stale (length bs)) behind ∙ store_blocks-bytes stale bs rest h.1)

unfoldable pub report_bytes : ReceiverReport → List ℕ
report_bytes self = write_big_endian 4 self.sender_ssrc ++ blocks_bytes self.report_blocks

module _ (self : ReceiverReport) (few : length self.report_blocks < 32) where
  abbrev blocks : ℕ
  blocks = length self.report_blocks

  pub sizes :
      (report_length self ≡ 8 + blocks * 24)
      × (u16 ((report_length self - 4) / 4) ≡ blocks * 6 + 1)
      × (u8 blocks ≡ blocks)
  unfolding report_length
  sizes = (omega arith, omega arith, omega arith)

  pub load_report-bytes :
      (acc rest : List ℕ) (pos max_length : ℕ)
      → length acc ≡ pos
      → pos + (8 + blocks * 24) ≤ max_length
      → max_length < 4294967296
      → load_report self (acc ++ rest) pos max_length
        ≡ some (
          (acc ++ (header_bytes blocks 201 (blocks * 6 + 1) ++ report_bytes self))
              ++ drop (8 + blocks * 24) rest,
          pos + (8 + blocks * 24),
        )
  unfolding load_report report_bytes
  load_report-bytes acc rest pos max_length h fits top =
      let H = header_bytes blocks 201 (blocks * 6 + 1) in
      let S = write_big_endian 4 self.sender_ssrc in
      let B = blocks_bytes self.report_blocks in
      let space =
        le→ltb max_length (u32 (pos + report_length self))
          (omega (arith, few, sizes.0, fits, top)) in
      let l1 : length (acc ++ H) ≡ pos + 4 =
        omega (arith, length-append acc H, length-header_bytes blocks 201 (blocks * 6 + 1), h) in
      let l2 : length ((acc ++ H) ++ S) ≡ pos + 4 + 4 =
        omega (arith, l1, length-append (acc ++ H) S, length-write_big_endian 4 self.sender_ssrc) in
      let sent =
        write_next (acc ++ H) (drop 4 rest) S (pos + 4) 4 l1
          (length-write_big_endian 4 self.sender_ssrc) in
      let joined : ((acc ++ H) ++ S) ++ B ≡ acc ++ (H ++ (S ++ B)) =
        append_assoc (acc ++ H) S B ∙ append_assoc acc H (S ++ B) in
      let left : drop (blocks * 24) (drop 4 (drop 4 rest)) ≡ drop (8 + blocks * 24) rest =
        ap (drop (blocks * 24)) (drop-add 4 4 rest) ∙ drop-add 8 (blocks * 24) rest in
      let end : pos + 4 + 4 + blocks * 24 ≡ pos + (8 + blocks * 24) = omega arith in
      rw
        (
          load_report,
          sizes.1,
          sizes.2,
          create_header-bytes blocks 201 (blocks * 6 + 1) acc rest pos few h,
          space,
        )
        (ap some (
          ap (λ b. load_blocks self.report_blocks b (pos + 4 + 4)) sent
          ∙ load_blocks-bytes self.report_blocks ((acc ++ H) ++ S) (drop 4 (drop 4 rest))
              (pos + 4 + 4) l2
          ∙ ap₂ (λ b p. (b, p)) (ap₂ ◌++◌ joined left) end))

  -- The header that is found at the report.
  abbrev parsed_header : List ℕ → CommonHeader
  parsed_header more = record {
    packet_type = 201;
    count_or_format = blocks;
    padding_size = 0;
    payload_size = (blocks * 6 + 1) * 4;
    payload = some (report_bytes self ++ more);
  }

  pub store_report-bytes :
      (stale : ℕ) (more : List ℕ)
      → IsU32 self.sender_ssrc
      → All IsBlock self.report_blocks
      → store_report stale (parsed_header more)
        ≡ some (record {
          sender_ssrc = self.sender_ssrc;
          report_blocks = map (reread stale) self.report_blocks;
        })
  unfolding store_report report_bytes
  store_report-bytes stale more hs hb =
      let S = write_big_endian 4 self.sender_ssrc in
      let B = blocks_bytes self.report_blocks in
      let whole : (S ++ B) ++ more ≡ S ++ (B ++ more) = append_assoc S B more in
      let exact : ltb ((blocks * 6 + 1) * 4) (4 + blocks * 24) ≡ false = ground arith in
      let exact' : ltb (4 + blocks * 24) ((blocks * 6 + 1) * 4) ≡ false = ground arith in
      let ssrc = (read-write 4 self.sender_ssrc (B ++ more) hs).0 in
      let behind = drop_front S (B ++ more) 4 (length-write_big_endian 4 self.sender_ssrc) in
      let found = store_blocks-bytes stale self.report_blocks more hb in
      rw (store_report, exact, exact', whole, ssrc, behind, found) refl

  -- A receiver report with less than 32 blocks, in the ranges of its fields, that has space in the
  -- buffer behind `acc`: `LoadPacket` succeeds, `StorePacket` accepts the header there, whatever the
  -- header object held, and the report that is stored from it has the same ssrc and blocks, except
  -- that of each cumulative loss only 24 bits come back, with a sign that depends on an
  -- uninitialised byte, `stale`.
  pub store_report-load_report :
      (acc rest : List ℕ) (max_length size_bytes stale : ℕ) (header : CommonHeader)
      → IsU32 self.sender_ssrc
      → All IsBlock self.report_blocks
      → length acc + (8 + blocks * 24) ≤ max_length
      → max_length < 4294967296
      → 8 + blocks * 24 ≤ size_bytes
      → (packet : List ℕ) × (load_report self (acc ++ rest) (length acc) max_length
          ≡ some (packet, length acc + (8 + blocks * 24)))
        × (parsed : CommonHeader) × (store_header (drop (length acc) packet) size_bytes header
            ≡ accepted parsed)
        × (store_report stale parsed
            ≡ some (record {
              sender_ssrc = self.sender_ssrc;
              report_blocks = map (reread stale) self.report_blocks;
            }))
  store_report-load_report acc rest max_length size_bytes stale header hs hb fits top long =
      let H = header_bytes blocks 201 (blocks * 6 + 1) in
      let more = drop (8 + blocks * 24) rest in
      (
        (acc ++ (H ++ report_bytes self)) ++ more,
        load_report-bytes acc rest (length acc) max_length refl fits top,
        parsed_header more,
        store_header-found blocks 201 (blocks * 6 + 1) size_bytes acc (report_bytes self) more
            header few (omega arith) (omega (arith, few)) (omega (arith, long)),
        store_report-bytes stale more hs hb,
      )
