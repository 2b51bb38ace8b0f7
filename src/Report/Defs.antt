-- ===== src/Report/Defs.antt =====
-- `ReportBlock` of src/rtp_rtcp/report_block.cc and `ReceiverReport` of
-- src/rtp_rtcp/receiver_report.cc.
use qo_srtp.Common.{
  ℕ, zero, suc, ◌+◌, ◌-◌, ◌*◌, ◌/◌, ◌%◌, not, ◌&&◌, Option, none, some, List, [], ◌∷◌, ◌++◌, ltb,
  leb, ◌==◌, if◌then◌else◌, length, get_or, drop, u8, u16, u32,
}
use qo_srtp.ByteIo.{write_big_endian, read_big_endian}
use qo_srtp.DataBuffer.{write}
use qo_srtp.Nack.Header.{CommonHeader, create_header}

-- `cumulative_lost_` is an `int32_t`, kept by the 32 bits it holds.
pub record ReportBlock : Type 0 where
  pub source_ssrc : ℕ
  pub fraction_lost : ℕ
  pub cumulative_lost : ℕ
  pub extended_high_seq_num : ℕ
  pub jitter : ℕ
  pub last_sr : ℕ
  pub delay_since_last_sr : ℕ

-- From -2 ^ 23 to 2 ^ 23 - 1; `none` is an error.
unfoldable pub set_cumulative_lost : ℕ → ReportBlock → Option ReportBlock
set_cumulative_lost cumulative_lost self =
    if leb 8388608 cumulative_lost && ltb cumulative_lost 4286578688
    then none
    else some (record self { cumulative_lost = cumulative_lost })

-- The seven writes fill 24 bytes in a row.
unfoldable pub block_bytes : ReportBlock → List ℕ
block_bytes self =
    write_big_endian 4 self.source_ssrc
    ++ (self.fraction_lost
        ∷ (write_big_endian 3 self.cumulative_lost
            ++ (write_big_endian 4 self.extended_high_seq_num
                ++ (write_big_endian 4 self.jitter
                    ++ (write_big_endian 4 self.last_sr
                        ++ write_big_endian 4 self.delay_since_last_sr)))))

-- `ReadBigEndian` of three bytes into an `int32_t`. The sign is taken from byte 3 of the variable,
-- which is not set yet: it holds `stale`.
unfoldable pub read_int24 : ℕ → List ℕ → ℕ
read_int24 stale buffer = read_big_endian 3 buffer + (if leb 128 stale then 4278190080 else 0)

unfoldable pub store_block : ℕ → List ℕ → ReportBlock
store_block stale buffer = record {
  source_ssrc = read_big_endian 4 buffer;
  fraction_lost = get_or buffer 4 0;
  cumulative_lost = read_int24 stale (drop 5 buffer);
  extended_high_seq_num = read_big_endian 4 (drop 8 buffer);
  jitter = read_big_endian 4 (drop 12 buffer);
  last_sr = read_big_endian 4 (drop 16 buffer);
  delay_since_last_sr = read_big_endian 4 (drop 20 buffer);
}

pub record ReceiverReport : Type 0 where
  pub sender_ssrc : ℕ
  pub report_blocks : List ReportBlock

unfoldable pub add_report_block : ReportBlock → ReceiverReport → Option ReceiverReport
add_report_block block self =
    if leb 31 (length self.report_blocks)
    then none
    else some (record self { report_blocks = self.report_blocks ++ (block ∷ []) })

unfoldable pub set_report_blocks : List ReportBlock → ReceiverReport → Option ReceiverReport
set_report_blocks blocks self =
    if ltb 31 (length blocks) then none else some (record self { report_blocks = blocks })

unfoldable pub report_length : ReceiverReport → ℕ
report_length self = u32 (4 + 4 + length self.report_blocks * 24)

unfoldable pub load_blocks : List ReportBlock → List ℕ → ℕ → List ℕ × ℕ
load_blocks [] packet pos = (packet, pos)
load_blocks (b ∷ bs) packet pos = load_blocks bs (write packet pos (block_bytes b)) (pos + 24)

-- The buffer and `*pos` afterwards; `none` is an error.
unfoldable pub load_report : ReceiverReport → List ℕ → ℕ → ℕ → Option (List ℕ × ℕ)
load_report self packet pos max_length =
    let (headed, pos1) =
      create_header (u8 (length self.report_blocks)) 201 (u16 ((report_length self - 4) / 4)) packet
        pos in
    let sent = write headed pos1 (write_big_endian 4 self.sender_ssrc) in
    if ltb max_length (u32 (pos + report_length self))
    then none
    else some (load_blocks self.report_blocks sent (pos1 + 4))

unfoldable pub store_blocks : ℕ → ℕ → List ℕ → List ReportBlock
store_blocks stale zero next = []
store_blocks stale (suc n) next = store_block stale next ∷ store_blocks stale n (drop 24 next)

-- `none` is an error. A payload that is longer than its blocks has an extension, which is skipped.
unfoldable pub store_report : ℕ → CommonHeader → Option ReceiverReport
store_report stale header = if not (header.packet_type == 201) then none else elim header.payload [
  | none ↦ none
  | some payload ↦
      let needed = 4 + header.count_or_format * 24 in
      let extensions_length = u32 (header.payload_size - 4 + header.count_or_format * 24) in
      if ltb header.payload_size needed
      then none
      else if ltb needed header.payload_size && not (extensions_length % 4 == 0)
      then none
      else some (record {
        sender_ssrc = read_big_endian 4 payload;
        report_blocks = store_blocks stale header.count_or_format (drop 4 payload);
      })
]
