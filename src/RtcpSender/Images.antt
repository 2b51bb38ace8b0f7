-- ===== src/RtcpSender/Images.antt =====
-- What each packet of RTCP writes into a compound packet.
use qo_srtp.Common.{
  ◌+◌, ◌*◌, ◌/◌, ◌<◌, ◌≡◌, refl, sym, ap, ◌∙◌, List, [], ◌∷◌, ◌++◌, arith, length, drop,
  length-append,
}
use qo_srtp.ByteIo.{write_big_endian}
use qo_srtp.ByteIo.RoundTrip.{length-write_big_endian}
use qo_srtp.Nack.Header.{header_bytes}
use qo_srtp.Nack.Defs.{Nack}
use qo_srtp.Nack.Packet.{block_length}
use qo_srtp.Nack.Items.{item_bytes, length-item_bytes}
use qo_srtp.Nack.RoundTrip.{IsNack, feedback_bytes, nack_bytes, load_nack-bytes}
use qo_srtp.Report.Defs.{ReportBlock, block_bytes, ReceiverReport, report_length}
use qo_srtp.Report.RoundTrip.{blocks_bytes, length-block_bytes, report_bytes, load_report-bytes}
use qo_srtp.Report.SenderReport.{done}
use qo_srtp.Sdes.Defs.{Sdes}
use qo_srtp.Sdes.Chunks.{sizes, chunks_bytes, length-chunks_bytes}
use qo_srtp.Sdes.RoundTrip.{IsSdes, lengths, load_sdes-bytes}
use qo_srtp.Bye.Defs.{Bye, reason_words}
use qo_srtp.Bye.Parts.{IsBye}
use qo_srtp.Bye.RoundTrip.{bye_bytes, few_words, length-bye_bytes, load_bye-bytes}
use qo_srtp.Bye
use qo_srtp.RtcpReceiver.Compound.{Image}
use qo_srtp.RtcpSender.Defs.{receiver_report, source_description, goodbye, negative_acknowledgement}
use qo_srtp.RtcpSender.Compound.{packet_length, of_option, of_loaded, load_packet}
use qo_srtp.RtcpSender.Sent.{IsWritten}

abbrev pub report_image : ReceiverReport → Image
report_image p = record {
  format = length p.report_blocks;
  kind = 201;
  words = length p.report_blocks * 6 + 1;
  body = report_bytes p;
}

length-blocks_bytes : (bs : List ReportBlock) → length (blocks_bytes bs) ≡ length bs * 24
unfolding blocks_bytes
length-blocks_bytes [] = refl
length-blocks_bytes (b ∷ bs) = omega (
  arith,
  length-append (block_bytes b) (blocks_bytes bs),
  length-block_bytes b,
  length-blocks_bytes bs,
)

length-report_bytes :
    (p : ReceiverReport) → length (report_bytes p) ≡ (length p.report_blocks * 6 + 1) * 4
unfolding report_bytes
length-report_bytes p = omega (
  arith,
  length-append (write_big_endian 4 p.sender_ssrc) (blocks_bytes p.report_blocks),
  length-write_big_endian 4 p.sender_ssrc,
  length-blocks_bytes p.report_blocks,
)

pub report-IsWritten :
    (p : ReceiverReport)
    → length p.report_blocks < 32
    → IsWritten (receiver_report p) (report_image p)
unfolding packet_length load_packet of_option report_length
report-IsWritten p few =
    let n = length p.report_blocks in
    let size : 4 + (n * 6 + 1) * 4 ≡ 8 + n * 24 = omega arith in
    record {
      is_image = record {
        small_format = few;
        some_words = omega arith;
        few_words = omega (arith, few);
        whole_body = length-report_bytes p;
      };
      right_length = omega (arith, few);
      loads = λ acc rest max_length fits top.
          ap of_option (
            load_report-bytes p few acc rest (length acc) max_length refl (omega (arith, fits)) top)
          ∙ ap
              (λ k. done (
                (acc ++ (header_bytes n 201 (n * 6 + 1) ++ report_bytes p)) ++ drop k rest,
                length acc + k,
              ))
              (sym size);
    }

abbrev pub sdes_image : Sdes → Image
sdes_image p = record {
  format = length p.chunks;
  kind = 202;
  words = sizes p.chunks / 4;
  body = chunks_bytes p.chunks;
}

pub sdes-IsWritten :
    (p : Sdes) (v : IsSdes p) → 0 < sizes p.chunks → IsWritten (source_description p) (sdes_image p)
unfolding packet_length load_packet of_option
sdes-IsWritten p v some_chunks =
    let known = lengths p v in
    let words = sizes p.chunks / 4 in
    let size : 4 + words * 4 ≡ 4 + sizes p.chunks = omega (arith, known.3) in
    record {
      is_image = record {
        small_format = omega (arith, v.few);
        some_words = omega (arith, known.3, some_chunks);
        few_words = known.4;
        whole_body = omega (arith, length-chunks_bytes p.chunks, known.3);
      };
      right_length = omega (arith, known.0, size);
      loads = λ acc rest max_length fits top.
          ap of_option (
            load_sdes-bytes p v acc rest (length acc) max_length refl (omega (arith, fits, size))
              top)
          ∙ ap
              (λ k. done (
                (acc ++ (header_bytes (length p.chunks) 202 words ++ chunks_bytes p.chunks))
                    ++ drop k rest,
                length acc + k,
              ))
              (sym size);
    }

abbrev pub bye_image : (p : Bye) → IsBye p → Image
bye_image p v = record {
  format = 1 + length p.csrcs;
  kind = 203;
  words = 1 + length p.csrcs + reason_words p.reason;
  body = bye_bytes p v;
}

pub bye-IsWritten : (p : Bye) (v : IsBye p) → IsWritten (goodbye p) (bye_image p v)
unfolding packet_length load_packet of_option
bye-IsWritten p v =
    let words = 1 + length p.csrcs + reason_words p.reason in
    let size : 4 + words * 4 ≡ 4 + 4 * words = omega arith in
    record {
      is_image = record {
        small_format = omega (arith, v.few_sources);
        some_words = omega arith;
        few_words = omega (arith, few_words p v);
        whole_body = length-bye_bytes p v;
      };
      right_length = omega (arith, (Bye.RoundTrip.sizes p v).0);
      loads = λ acc rest max_length fits top.
          ap of_option
            (load_bye-bytes p v acc rest (length acc) max_length refl (omega (arith, fits)) top)
          ∙ ap
              (λ k. done (
                (acc ++ (header_bytes (1 + length p.csrcs) 203 words ++ bye_bytes p v))
                    ++ drop k rest,
                length acc + k,
              ))
              (sym size);
    }

length-feedback_bytes : (p : Nack) → length (feedback_bytes p) ≡ (length p.packed + 2) * 4
unfolding feedback_bytes
length-feedback_bytes p = omega (
  arith,
  length-append (write_big_endian 4 p.sender_ssrc)
      (write_big_endian 4 p.media_ssrc ++ item_bytes p.packed),
  length-append (write_big_endian 4 p.media_ssrc) (item_bytes p.packed),
  length-write_big_endian 4 p.sender_ssrc,
  length-write_big_endian 4 p.media_ssrc,
  length-item_bytes p.packed,
)

abbrev pub nack_image : Nack → Image
nack_image p = record {
  format = 1;
  kind = 205;
  words = length p.packed + 2;
  body = feedback_bytes p;
}

pub nack-IsWritten : (p : Nack) → IsNack p → IsWritten (negative_acknowledgement p) (nack_image p)
unfolding packet_length load_packet of_loaded block_length nack_bytes
nack-IsWritten p v =
    let n = length p.packed in
    let size : 4 + (n + 2) * 4 ≡ 12 + n * 4 = omega arith in
    record {
      is_image = record {
        small_format = omega arith;
        some_words = omega arith;
        few_words = omega (arith, v.few_items);
        whole_body = length-feedback_bytes p;
      };
      right_length = omega (arith, v.few_items);
      loads = λ acc rest max_length fits top.
          ap of_loaded
            (load_nack-bytes p v acc rest (length acc) max_length refl (omega (arith, fits)) top)
          ∙ ap
              (λ k. done (
                (acc ++ (header_bytes 1 205 (n + 2) ++ feedback_bytes p)) ++ drop k rest,
                length acc + k,
              ))
              (sym size);
    }
