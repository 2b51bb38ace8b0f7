-- ===== src/Report/SenderReport.antt =====
-- `SenderReport` of src/rtp_rtcp/sender_report.cc, with `NtpTime` of src/utils/ntp_time.h.
use qo_srtp.Common.{
  ℕ, zero, suc, ◌+◌, ◌-◌, ◌*◌, ◌/◌, ◌%◌, not, ◌&&◌, Option, none, some, List, [], ◌∷◌, ◌++◌, ltb,
  leb, ◌==◌, if◌then◌else◌, length, drop, u8, u16, u32,
}
use qo_srtp.ByteIo.{write_big_endian, read_big_endian}
use qo_srtp.DataBuffer.{write}
use qo_srtp.Nack.Header.{CommonHeader, create_header}
use qo_srtp.Report.Defs.{ReportBlock, store_block, load_blocks}

-- `undefined` is a member that is called through a null pointer.
pub data Outcome {ℓ} (A : Type ℓ) : Type ℓ where
  failed undefined : Outcome A
  done : A → Outcome A

-- `value_` of `ntp_` is a `uint64_t`. The blocks are unique pointers, `none` is a null pointer.
pub record SenderReport : Type 0 where
  pub sender_ssrc : ℕ
  pub ntp : ℕ
  pub rtp_timestamp : ℕ
  pub sender_packet_count : ℕ
  pub sender_octet_count : ℕ
  pub report_blocks : List (Option ReportBlock)

abbrev pub new_sender_report : SenderReport
new_sender_report = record {
  sender_ssrc = 0;
  ntp = 0;
  rtp_timestamp = 0;
  sender_packet_count = 0;
  sender_octet_count = 0;
  report_blocks = [];
}

unfoldable pub set_sender_blocks : List (Option ReportBlock) → SenderReport → Option SenderReport
set_sender_blocks blocks self =
    if ltb 31 (length blocks) then none else some (record self { report_blocks = blocks })

unfoldable pub add_sender_block : Option ReportBlock → SenderReport → Option SenderReport
add_sender_block block self =
    if leb 31 (length self.report_blocks)
    then none
    else some (record self { report_blocks = self.report_blocks ++ (block ∷ []) })

unfoldable pub sender_report_length : SenderReport → ℕ
sender_report_length self = u32 (4 + 24 + length self.report_blocks * 24)

-- The five writes behind the header fill 24 bytes in a row.
unfoldable pub sender_info : SenderReport → List ℕ
sender_info self =
    write_big_endian 4 self.sender_ssrc
    ++ (write_big_endian 8 self.ntp
        ++ (write_big_endian 4 self.rtp_timestamp
            ++ (write_big_endian 4 self.sender_packet_count
                ++ write_big_endian 4 self.sender_octet_count)))

-- The blocks behind the pointers, if none is null.
unfoldable pub dereference : List (Option ReportBlock) → Option (List ReportBlock)
dereference [] = some []
dereference (none ∷ bs) = none
dereference (some b ∷ bs) = elim (dereference bs) [ none ↦ none | some blocks ↦ some (b ∷ blocks) ]

-- The buffer and `*pos` afterwards.
unfoldable pub load_sender_report : SenderReport → List ℕ → ℕ → ℕ → Outcome (List ℕ × ℕ)
load_sender_report self packet pos max_length =
    let (headed, pos1) =
      create_header (u8 (length self.report_blocks)) 200 (u16 ((sender_report_length self - 4) / 4))
        packet pos in
    let sent = write headed pos1 (sender_info self) in
    if ltb max_length (u32 (pos + sender_report_length self))
    then failed
    else elim (dereference self.report_blocks) [
      | none ↦ undefined
      | some blocks ↦ done (load_blocks blocks sent (pos1 + 24))
    ]

-- `report_blocks_.resize(n)`: the pointers that are added are null.
unfoldable pub resize : ℕ → List (Option ReportBlock) → List (Option ReportBlock)
resize zero blocks = []
resize (suc n) [] = none ∷ resize n []
resize (suc n) (b ∷ bs) = b ∷ resize n bs

-- Each block reads the next 24 bytes; `none` is a null pointer among them.
unfoldable pub store_through :
    ℕ → List (Option ReportBlock) → List ℕ → Option (List (Option ReportBlock))
store_through stale [] next_block = some []
store_through stale (none ∷ bs) next_block = none
store_through stale (some b ∷ bs) next_block = elim (store_through stale bs (drop 24 next_block)) [
  | none ↦ none
  | some blocks ↦ some (some (store_block stale next_block) ∷ blocks)
]

unfoldable pub store_sender_report : ℕ → CommonHeader → SenderReport → Outcome SenderReport
store_sender_report stale header self =
    if not (header.packet_type == 200) then failed else elim header.payload [
      | none ↦ failed
      | some payload ↦
          let needed = 24 + header.count_or_format * 24 in
          let extensions_length = u32 (header.payload_size - 24 + header.count_or_format * 24) in
          if ltb header.payload_size needed
          then failed
          else if ltb needed header.payload_size && not (extensions_length % 4 == 0)
          then failed
          else elim (store_through stale (resize header.count_or_format self.report_blocks)
              (drop 24 payload)) [
                | none ↦ undefined
                | some blocks ↦ done (record {
                  sender_ssrc = read_big_endian 4 payload;
                  ntp =
                      read_big_endian 4 (drop 4 payload) * 4294967296
                      + read_big_endian 4 (drop 8 payload);
                  rtp_timestamp = read_big_endian 4 (drop 12 payload);
                  sender_packet_count = read_big_endian 4 (drop 16 payload);
                  sender_octet_count = read_big_endian 4 (drop 20 payload);
                  report_blocks = blocks;
                })
              ]
    ]
