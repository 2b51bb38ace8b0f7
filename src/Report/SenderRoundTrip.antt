-- ===== src/Report/SenderRoundTrip.antt =====
-- A sender report of src/rtp_rtcp/sender_report.cc through a buffer, to an object that is new.
use mathlib.Core.List.{append_assoc}
use qo_srtp.Common.{
  ℕ, suc, ◌+◌, ◌-◌, ◌*◌, ◌/◌, ◌%◌, ◌≤◌, ◌<◌, ◌≡◌, refl, ap, ap₂, ◌∙◌, false, some, List, [], ◌∷◌,
  ◌++◌, map, arith, ltb, ◌==◌, if◌then◌else◌, le→ltb, ==_ne, length, drop, length-append, drop-add,
  u8, u16, u32, IsU32,
}
use qo_srtp.ByteIo.{write_big_endian, read_big_endian, write_big_loop, host_bytes, of_host_bytes}
use qo_srtp.DataBuffer.Filling.{write_next}
use qo_srtp.Nack.Header.{CommonHeader, accepted, store_header, header_bytes}
use qo_srtp.Nack.Written.{
  length-header_bytes, create_header-bytes, store_header-found, header_found,
}
use qo_srtp.Report.Defs.{ReportBlock, load_blocks}
use qo_srtp.Report.RoundTrip.{blocks_bytes, load_blocks-bytes, four_bytes}
use qo_srtp.Report.SenderReport.{
  undefined, done, SenderReport, new_sender_report, sender_report_length, sender_info, dereference,
  load_sender_report, resize, store_through, store_sender_report,
}

pub record IsSenderReport (self : SenderReport) : Type 0 where
  pub sender : IsU32 self.sender_ssrc
  pub time : self.ntp < 18446744073709551616
  pub timestamp : IsU32 self.rtp_timestamp
  pub packets : IsU32 self.sender_packet_count
  pub octets : IsU32 self.sender_octet_count

low_bytes :
    (n : ℕ)
    → n % 256
        + 256
          * (n / 256 % 256
              + 256 * (n / 256 / 256 % 256 + 256 * (n / 256 / 256 / 256 % 256 + 256 * 0)))
      ≡ n % 4294967296
low_bytes n = omega arith

high_part : (n : ℕ) → n < 18446744073709551616 → IsU32 (n / 256 / 256 / 256 / 256)
high_part n h = omega arith

halves : (n : ℕ) → n / 256 / 256 / 256 / 256 * 4294967296 + n % 4294967296 ≡ n
halves n = omega arith

-- The 24 bytes are read again.
info_found :
    (self : SenderReport) (more : List ℕ)
    → IsSenderReport self
    → (read_big_endian 4 (sender_info self ++ more) ≡ self.sender_ssrc)
      × (read_big_endian 4 (drop 4 (sender_info self ++ more)) * 4294967296
            + read_big_endian 4 (drop 8 (sender_info self ++ more))
          ≡ self.ntp)
      × (read_big_endian 4 (drop 12 (sender_info self ++ more)) ≡ self.rtp_timestamp)
      × (read_big_endian 4 (drop 16 (sender_info self ++ more)) ≡ self.sender_packet_count)
      × (read_big_endian 4 (drop 20 (sender_info self ++ more)) ≡ self.sender_octet_count)
unfolding sender_info write_big_endian write_big_loop host_bytes read_big_endian of_host_bytes
info_found self more v = (
  four_bytes self.sender_ssrc v.sender,
  ap₂ (λ h l. h * 4294967296 + l)
        (four_bytes (self.ntp / 256 / 256 / 256 / 256) (high_part self.ntp v.time))
        (low_bytes self.ntp)
      ∙ halves self.ntp,
  four_bytes self.rtp_timestamp v.timestamp,
  four_bytes self.sender_packet_count v.packets,
  four_bytes self.sender_octet_count v.octets,
)

length-sender_info : (self : SenderReport) → length (sender_info self) ≡ 24
unfolding sender_info write_big_endian write_big_loop host_bytes
length-sender_info self = refl

dereference-some : (bs : List ReportBlock) → dereference (map some bs) ≡ some bs
unfolding dereference
dereference-some [] = refl
dereference-some (b ∷ bs) = rw (dereference-some bs) refl

length-map : (bs : List ReportBlock) → length (map some bs) ≡ length bs
length-map [] = refl
length-map (b ∷ bs) = ap suc (length-map bs)

module _ (base : SenderReport) (bs : List ReportBlock) (few : length bs < 32) where
  -- The report that `SetReportBlocks` made.
  abbrev pub sent : SenderReport
  sent = record base { report_blocks = map some bs }

  abbrev blocks : ℕ
  blocks = length bs

  abbrev words : ℕ
  words = blocks * 6 + 6

  sizes :
      (sender_report_length sent ≡ 28 + blocks * 24)
      × (u16 ((sender_report_length sent - 4) / 4) ≡ words)
      × (u8 (length sent.report_blocks) ≡ blocks)
  unfolding sender_report_length
  sizes =
      let same = length-map bs in
      (omega (arith, few, same), omega (arith, few, same), omega (arith, few, same))

  unfoldable pub sent_bytes : List ℕ
  sent_bytes = sender_info sent ++ blocks_bytes bs

  pub load_sender_report-bytes :
      (acc rest : List ℕ) (pos max_length : ℕ)
      → length acc ≡ pos
      → pos + (28 + blocks * 24) ≤ max_length
      → max_length < 4294967296
      → load_sender_report sent (acc ++ rest) pos max_length
        ≡ done (
          (acc ++ (header_bytes blocks 200 words ++ sent_bytes)) ++ drop (28 + blocks * 24) rest,
          pos + (28 + blocks * 24),
        )
  unfolding load_sender_report sent_bytes
  load_sender_report-bytes acc rest pos max_length h fits top =
      let H = header_bytes blocks 200 words in
      let S = sender_info sent in
      let B = blocks_bytes bs in
      let space =
        le→ltb max_length (u32 (pos + sender_report_length sent))
          (omega (arith, few, sizes.0, fits, top)) in
      let l1 : length (acc ++ H) ≡ pos + 4 =
        omega (arith, length-append acc H, length-header_bytes blocks 200 words, h) in
      let l2 : length ((acc ++ H) ++ S) ≡ pos + 4 + 24 =
        omega (arith, l1, length-append (acc ++ H) S, length-sender_info sent) in
      let headed = create_header-bytes blocks 200 words acc rest pos few h in
      let info = write_next (acc ++ H) (drop 4 rest) S (pos + 4) 24 l1 (length-sender_info sent) in
      let joined : ((acc ++ H) ++ S) ++ B ≡ acc ++ (H ++ (S ++ B)) =
        append_assoc (acc ++ H) S B ∙ append_assoc acc H (S ++ B) in
      let left : drop (blocks * 24) (drop 24 (drop 4 rest)) ≡ drop (28 + blocks * 24) rest =
        ap (drop (blocks * 24)) (drop-add 4 24 rest) ∙ drop-add 28 (blocks * 24) rest in
      let end : pos + 4 + 24 + blocks * 24 ≡ pos + (28 + blocks * 24) = omega arith in
      rw (load_sender_report, space, dereference-some bs, sizes.1, sizes.2, headed)
        (ap done (
          ap (λ b. load_blocks bs b (pos + 4 + 24)) info
          ∙ load_blocks-bytes bs ((acc ++ H) ++ S) (drop 24 (drop 4 rest)) (pos + 4 + 24) l2
          ∙ ap₂ (λ b p. (b, p)) (ap₂ ◌++◌ joined left) end))

  abbrev pub sent_header : List ℕ → CommonHeader
  sent_header more = record (header_found blocks 200 words []) {
    payload = some (sent_bytes ++ more);
  }

pub store_sender_report-bytes :
    (base : SenderReport) (bs : List ReportBlock) (few : length bs < 32) (stale : ℕ) (more : List ℕ)
    → IsSenderReport base
    → store_sender_report stale (sent_header base bs few more) new_sender_report
      ≡ (if length bs == 0 then done (record base { report_blocks = map some bs }) else undefined)
unfolding store_sender_report sent_bytes resize store_through blocks_bytes
store_sender_report-bytes base [] few stale more v =
    let self : SenderReport = record base { report_blocks = [] } in
    let v' : IsSenderReport self = record {
      sender = v.sender;
      time = v.time;
      timestamp = v.timestamp;
      packets = v.packets;
      octets = v.octets;
    } in
    let whole : (sender_info self ++ []) ++ more ≡ sender_info self ++ more =
      append_assoc (sender_info self) [] more in
    let found = info_found self more v' in
    let at : (n : ℕ)
        → read_big_endian 4 (drop n ((sender_info self ++ []) ++ more))
          ≡ read_big_endian 4 (drop n (sender_info self ++ more)) =
      λ n. ap (λ l. read_big_endian 4 (drop n l)) whole in
    λ i. done (record {
      sender_ssrc = (at 0 ∙ found.0) i;
      ntp = (ap₂ (λ h l. h * 4294967296 + l) (at 4) (at 8) ∙ found.1) i;
      rtp_timestamp = (at 12 ∙ found.2) i;
      sender_packet_count = (at 16 ∙ found.3) i;
      sender_octet_count = (at 20 ∙ found.4) i;
      report_blocks = [];
    })
store_sender_report-bytes base (b ∷ bs) few stale more v =
    let n = suc (length bs) in
    let exact : ltb ((n * 6 + 6) * 4) (24 + n * 24) ≡ false = ground arith in
    let exact' : ltb (24 + n * 24) ((n * 6 + 6) * 4) ≡ false = ground arith in
    let some_blocks : (n == 0) ≡ false = ==_ne n 0 (omega arith) in
    rw (store_sender_report, exact, exact', some_blocks) refl

-- A sender report with less than 32 blocks, in the ranges of its fields, that has space in the
-- buffer behind `acc`: `LoadPacket` succeeds, and `StorePacket` accepts the header there, whatever
-- the header object held. A report object that is new then reads the same report if that has no
-- blocks, but reads each block through a null pointer if it has some.
pub store_sender_report-load_sender_report :
    (base : SenderReport) (bs : List ReportBlock) (acc rest : List ℕ)
    (max_length size_bytes stale : ℕ) (header : CommonHeader)
    → length bs < 32
    → IsSenderReport base
    → length acc + (28 + length bs * 24) ≤ max_length
    → max_length < 4294967296
    → 28 + length bs * 24 ≤ size_bytes
    → let self : SenderReport = record base { report_blocks = map some bs } in
      (packet : List ℕ) × (load_sender_report self (acc ++ rest) (length acc) max_length
        ≡ done (packet, length acc + (28 + length bs * 24)))
      × (parsed : CommonHeader) × (store_header (drop (length acc) packet) size_bytes header
          ≡ accepted parsed)
      × (store_sender_report stale parsed new_sender_report
          ≡ (if length bs == 0 then done self else undefined))
store_sender_report-load_sender_report base bs acc rest max_length size_bytes stale header few v
      fits top long =
    let n = length bs in
    let more = drop (28 + n * 24) rest in
    let S = sent_bytes base bs few in
    (
      (acc ++ (header_bytes n 200 (n * 6 + 6) ++ S)) ++ more,
      load_sender_report-bytes base bs few acc rest (length acc) max_length refl fits top,
      sent_header base bs few more,
      store_header-found n 200 (n * 6 + 6) size_bytes acc S more header few (omega arith)
          (omega (arith, few)) (omega (arith, long)),
      store_sender_report-bytes base bs few stale more v,
    )
