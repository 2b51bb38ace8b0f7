-- ===== src/RtcpSender/Heard.antt =====
-- What the receiver of src/rtp_rtcp/rtcp_receiver.cc makes of the packets that the sender of
-- src/rtp_rtcp/rtcp_sender.cc sends.
use qo_srtp.Common.{
  ℕ, suc, ◌+◌, ◌*◌, ◌/◌, ◌≤◌, ◌<◌, bit_or, ◌≡◌, refl, sym, ap, ◌∙◌, inl, inr, true, ◌&&◌, none,
  some, List, [], ◌∷◌, ◌++◌, map, arith, ltb, leb, ◌==◌, if◌then◌else◌, lt→ltb, le→ltb, ==_iff,
  ==_ne, Bool-cases, length, All, u32, IsU8, IsU32,
}
use qo_srtp.Nack.Written.{header_found}
use qo_srtp.Nack.Defs.{Nack, unpack}
use qo_srtp.Nack.Packet.{store_nack}
use qo_srtp.Nack.RoundTrip.{IsNack, store_nack-bytes}
use qo_srtp.Report.Defs.{ReportBlock, set_cumulative_lost, ReceiverReport}
use qo_srtp.Report.RoundTrip.{IsBlock, reread, store_report-bytes}
use qo_srtp.Sdes.Defs.{Chunk, Sdes, add_cname, store_sdes, chunk_size}
use qo_srtp.Sdes.Chunks.{IsChunk, sizes, chunks_bytes, chunk_size-sum}
use qo_srtp.Sdes.RoundTrip.{IsSdes, store_sdes-found, lengths}
use qo_srtp.Bye.Defs.{Bye}
use qo_srtp.Bye.Parts.{IsBye}
use qo_srtp.Bye.RoundTrip.{store_bye-bytes}
use qo_srtp.RtcpReceiver.Defs.{
  nack_received, bye_received, Parsing, parse_receiver_report, describes, parse_sdes, parse_bye,
  parse_nacks, dispatch,
}
use qo_srtp.RtcpReceiver.Compound.{image_header}
use qo_srtp.RtcpSender.Defs.{
  RemoteSenderInfo, RtcpSenderConfig, RtcpSender, since_last_report, fraction_of, make_report_block,
  make_sdes,
}
use qo_srtp.RtcpSender.Images.{report_image, sdes_image, bye_image, nack_image}

-- The ranges of the configuration.
pub record IsConfig (c : RtcpSenderConfig) : Type 0 where
  pub local : IsU32 c.local_ssrc
  pub remote : IsU32 c.remote_ssrc
  pub short_name : length c.local_cname ≤ 255

pub record IsRemote (i : RemoteSenderInfo) : Type 0 where
  pub source : IsU32 i.remote_ssrc
  pub loss : IsU32 i.cumulative_loss
  pub high : IsU32 i.extended_seq_num
  pub stutter : IsU32 i.interarrival_jitter
  pub last : IsU32 i.lsr
  pub delay : IsU32 i.dlsr

fraction_of-IsU8 : (loss expected : ℕ) → IsU8 (fraction_of loss expected)
unfolding fraction_of
fraction_of-IsU8 loss expected = ground arith

pub make_report_block-IsBlock :
    (info : RemoteSenderInfo) (self : RtcpSender)
    → IsRemote info
    → IsBlock (make_report_block info self)
unfolding make_report_block set_cumulative_lost
make_report_block-IsBlock info self v =
    let f = fraction_of-IsU8 (since_last_report info self).0 (since_last_report info self).1 in
    elim (Bool-cases (leb 8388608 info.cumulative_loss && ltb info.cumulative_loss 4286578688)) [
      | inl out_of_range ↦
          rw (make_report_block, set_cumulative_lost, out_of_range)
            (record {
              source = v.source;
              fraction = f;
              lost = (let e : IsU32 0 = omega arith in e);
              high = v.high;
              stutter = v.stutter;
              last = v.last;
              delay = v.delay;
            })
      | inr in_range ↦
          rw (make_report_block, set_cumulative_lost, in_range)
            (record {
              source = v.source;
              fraction = f;
              lost = v.loss;
              high = v.high;
              stutter = v.stutter;
              last = v.last;
              delay = v.delay;
            })
    ]

-- The chunk with the name.
abbrev pub own_chunk : RtcpSenderConfig → Chunk
own_chunk c = record { ssrc = c.local_ssrc; cname = c.local_cname }

pub make_sdes-chunk :
    (c : RtcpSenderConfig)
    → IsConfig c
    → make_sdes c
      ≡ record { chunks = own_chunk c ∷ []; chunks_buffer_length = sizes (own_chunk c ∷ []) }
unfolding make_sdes add_cname sizes
make_sdes-chunk c v =
    let short = le→ltb 0xff (length c.local_cname) v.short_name in
    let k : IsChunk (own_chunk c) = record { source = v.local; short_name = v.short_name } in
    let sum : u32 (0 + chunk_size (own_chunk c)) ≡ sizes (own_chunk c ∷ []) =
      omega (arith, chunk_size-sum (own_chunk c) k, v.short_name) in
    rw (make_sdes, add_cname, short)
      (λ i. record { chunks = own_chunk c ∷ []; chunks_buffer_length = sum i })

as_many :
    (stale : ℕ) (bs : List ReportBlock) → (length (map (reread stale) bs) == 0) ≡ (length bs == 0)
as_many stale [] = refl
as_many stale (b ∷ bs) =
    ==_ne (suc (length (map (reread stale) bs))) 0 (omega arith)
    ∙ sym (==_ne (suc (length bs)) 0 (omega arith))

-- The report of a peer is noted.
pub dispatch-report :
    (p : ReceiverReport) (few : length p.report_blocks < 32) (stale now : ℕ) (more : List ℕ)
    (s : Parsing)
    → IsU32 p.sender_ssrc
    → All IsBlock p.report_blocks
    → s.receiver.remote_ssrc ≡ p.sender_ssrc
    → dispatch stale now (image_header (report_image p) more) s
      ≡ some (record s {
        type_flags =
            if length p.report_blocks == 0
            then bit_or s.type_flags 0x0004
            else bit_or (bit_or s.type_flags 0x0004) 0x0001;
      })
unfolding dispatch parse_receiver_report
dispatch-report p few stale now more s hs hb peer =
    let found = store_report-bytes p few stale more hs hb in
    let same = (==_iff s.receiver.remote_ssrc p.sender_ssrc).1 peer in
    rw (dispatch, parse_receiver_report, found, same, as_many stale p.report_blocks) refl

pub dispatch-sdes :
    (p : Sdes) (v : IsSdes p) (stale now : ℕ) (more : List ℕ) (s : Parsing)
    → 0 < sizes p.chunks
    → describes s.receiver.remote_ssrc p.chunks ≡ true
    → dispatch stale now (image_header (sdes_image p) more) s
      ≡ some (record s { type_flags = bit_or s.type_flags 0x0008 })
unfolding dispatch parse_sdes
dispatch-sdes p v stale now more s some_chunks described =
    let words = sizes p.chunks / 4 in
    let some_payload : true ≡ ltb 0 (words * 4) =
      sym (lt→ltb 0 (words * 4) (omega (arith, (lengths p v).3, some_chunks))) in
    let found : store_sdes (image_header (sdes_image p) more) ≡ some p =
      ap
        (λ b. store_sdes (record (header_found (length p.chunks) 202 words []) {
          payload = if b then some (chunks_bytes p.chunks ++ more) else none;
        }))
        some_payload
      ∙ store_sdes-found p v more in
    rw (dispatch, parse_sdes, found, described) refl

pub dispatch-bye :
    (p : Bye) (v : IsBye p) (stale now : ℕ) (more : List ℕ) (s : Parsing)
    → s.receiver.remote_ssrc ≡ p.sender_ssrc
    → dispatch stale now (image_header (bye_image p v) more) s
      ≡ some (record {
        receiver = record s.receiver { has_received_bye = true };
        type_flags = bit_or s.type_flags 0x0010;
        called = s.called ++ (bye_received ∷ []);
      })
unfolding dispatch parse_bye
dispatch-bye p v stale now more s peer =
    let found = store_bye-bytes p v more in
    let same = (==_iff s.receiver.remote_ssrc p.sender_ssrc).1 peer in
    rw (dispatch, parse_bye, found, same) refl

pub dispatch-nack :
    (p : Nack) (v : IsNack p) (stale now : ℕ) (more : List ℕ) (s : Parsing)
    → s.receiver.remote_ssrc ≡ p.sender_ssrc
    → dispatch stale now (image_header (nack_image p) more) s
      ≡ some (record s {
        type_flags = bit_or s.type_flags 0x0020;
        called = s.called ++ (nack_received (unpack p.packed) ∷ []);
      })
unfolding dispatch parse_nacks store_nack
dispatch-nack p v stale now more s peer =
    let long = le→ltb ((length p.packed + 2) * 4) 12 (omega (arith, v.some_items)) in
    let found = store_nack-bytes p v more in
    let same = (==_iff s.receiver.remote_ssrc p.sender_ssrc).1 peer in
    rw (dispatch, parse_nacks, store_nack, long, found, same) refl
