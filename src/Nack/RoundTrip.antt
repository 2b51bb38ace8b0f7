-- ===== src/Nack/RoundTrip.antt =====
-- A NACK of src/rtp_rtcp/nack.cc through a buffer: `SetPacketIds`, `LoadPacket`, and `StorePacket`
-- of the header and of the packet.
use mathlib.Core.List.{append_assoc}
use qo_srtp.Common.{
  ℕ, ◌+◌, ◌-◌, ◌*◌, ◌/◌, ◌≤◌, ◌<◌, ◌≡◌, refl, sym, ap, ap₂, ◌∙◌, true, none, some, List, ◌++◌,
  arith, ltb, if◌then◌else◌, le→ltb, ==_ne, length, drop, All, length-append, drop-length-append,
  drop-add, drop_front, u16, u32, IsU32,
}
use qo_srtp.ByteIo.{write_big_endian, read_big_endian}
use qo_srtp.ByteIo.RoundTrip.{read-write, length-write_big_endian}
use qo_srtp.DataBuffer.Filling.{write_twice}
use qo_srtp.Nack.Defs.{Nack, unpack, pack, set_packet_ids, new_nack}
use qo_srtp.Nack.Header.{
  CommonHeader, accepted, store_header, header_bytes, store_header-header_bytes,
}
use qo_srtp.Nack.Written.{create_header-bytes}
use qo_srtp.Nack.Items.{item_bytes, load_items-bytes, read_items-bytes}
use qo_srtp.Nack.Packet.{
  block_length, load_common_feedback, load_items, load_nack, loaded, read_items, store_payload,
  store_nack, stored,
}
use qo_srtp.Nack.Packing.{AreIncreasing, unpack-pack, IsItem, pack-IsItem}

-- A NACK that can be written: it has items, and their number fits the length of the header.
pub record IsNack (self : Nack) : Type 0 where
  pub some_items : 0 < length self.packed
  pub few_items : length self.packed < 65534
  pub items : All IsItem self.packed
  pub sender : IsU32 self.sender_ssrc
  pub media : IsU32 self.media_ssrc

unfoldable pub feedback_bytes : Nack → List ℕ
feedback_bytes self =
    write_big_endian 4 self.sender_ssrc
    ++ (write_big_endian 4 self.media_ssrc ++ item_bytes self.packed)

unfoldable pub nack_bytes : Nack → List ℕ
nack_bytes self = header_bytes 1 205 (length self.packed + 2) ++ feedback_bytes self

module _ (self : Nack) (v : IsNack self) where
  abbrev items : ℕ
  items = length self.packed

  block : block_length self ≡ 12 + items * 4
  unfolding block_length
  block = omega (arith, v.few_items)

  header_long : length (header_bytes 1 205 (items + 2)) ≡ 4
  unfolding header_bytes
  header_long = refl

  words : u16 ((block_length self - 4) / 4) ≡ items + 2
  unfolding block_length
  words = omega (arith, v.few_items)

  load_common_feedback-bytes :
      (acc rest : List ℕ) (pos : ℕ)
      → length acc ≡ pos
      → load_common_feedback self (acc ++ rest) pos
        ≡ ((acc ++ write_big_endian 4 self.sender_ssrc) ++ write_big_endian 4 self.media_ssrc)
          ++ drop 8 rest
  unfolding load_common_feedback
  load_common_feedback-bytes acc rest pos h =
      write_twice acc rest (write_big_endian 4 self.sender_ssrc)
        (write_big_endian 4 self.media_ssrc) pos (pos + 4) 4 h
        (length-write_big_endian 4 self.sender_ssrc) (length-write_big_endian 4 self.media_ssrc)
        refl

  pub load_nack-bytes :
      (acc rest : List ℕ) (pos max_length : ℕ)
      → length acc ≡ pos
      → pos + 12 + items * 4 ≤ max_length
      → max_length < 4294967296
      → load_nack self (acc ++ rest) pos max_length
        ≡ (loaded, (acc ++ nack_bytes self) ++ drop (12 + items * 4) rest, pos + (12 + items * 4))
  unfolding load_nack nack_bytes feedback_bytes
  load_nack-bytes acc rest pos max_length h hm hs =
      let head = create_header-bytes 1 205 (items + 2) acc rest pos (omega arith) h in
      let e1 = ==_ne items 0 (λ e. omega (arith, v.some_items)) in
      let e2 =
        le→ltb max_length (u32 (pos + block_length self))
          (omega (arith, v.few_items, block, hm, hs)) in
      let H = header_bytes 1 205 (items + 2) in
      let S = write_big_endian 4 self.sender_ssrc in
      let M = write_big_endian 4 self.media_ssrc in
      let l1 : length (acc ++ H) ≡ pos + 4 = omega (arith, length-append acc H, header_long, h) in
      let l2 : length (((acc ++ H) ++ S) ++ M) ≡ pos + 4 + 8 = omega (
        arith,
        l1,
        length-append ((acc ++ H) ++ S) M,
        length-append (acc ++ H) S,
        length-write_big_endian 4 self.sender_ssrc,
        length-write_big_endian 4 self.media_ssrc,
      ) in
      let B = item_bytes self.packed in
      let joined : (((acc ++ H) ++ S) ++ M) ++ B ≡ acc ++ (H ++ (S ++ (M ++ B))) =
        append_assoc ((acc ++ H) ++ S) M B
        ∙ append_assoc (acc ++ H) S (M ++ B)
        ∙ append_assoc acc H (S ++ (M ++ B)) in
      let left : drop (items * 4) (drop 8 (drop 4 rest)) ≡ drop (12 + items * 4) rest =
        ap (drop (items * 4)) (drop-add 4 8 rest) ∙ drop-add 12 (items * 4) rest in
      let end : pos + 4 + 8 + items * 4 ≡ pos + (12 + items * 4) = omega arith in
      rw (load_nack, e1, e2, words, head)
        (ap (λ r. (loaded, r.0, r.1))
          (ap (λ b. load_items self.packed b (pos + 4 + 8))
              (load_common_feedback-bytes (acc ++ H) (drop 4 rest) (pos + 4) l1)
            ∙ load_items-bytes self.packed (((acc ++ H) ++ S) ++ M) (drop 8 (drop 4 rest))
                (pos + 4 + 8) l2
            ∙ ap₂ (λ b p. (b, p)) (ap₂ ◌++◌ joined left) end))

  pub store_nack-bytes :
      (more : List ℕ)
      → store_payload ((items + 2) * 4) (some (feedback_bytes self ++ more))
        ≡ stored (record self { packet_ids = unpack self.packed })
  unfolding store_payload feedback_bytes
  store_nack-bytes more =
      let S = write_big_endian 4 self.sender_ssrc in
      let M = write_big_endian 4 self.media_ssrc in
      let B = item_bytes self.packed in
      let whole : (S ++ (M ++ B)) ++ more ≡ S ++ (M ++ (B ++ more)) =
        append_assoc S (M ++ B) more ∙ ap (λ r. S ++ r) (append_assoc M B more) in
      let d4 : drop 4 (S ++ (M ++ (B ++ more))) ≡ M ++ (B ++ more) =
        drop_front S (M ++ (B ++ more)) 4 (length-write_big_endian 4 self.sender_ssrc) in
      let d8 : drop 8 (S ++ (M ++ (B ++ more))) ≡ B ++ more =
        sym (drop-add 4 4 (S ++ (M ++ (B ++ more))))
        ∙ ap (drop 4) d4
        ∙ drop_front M (B ++ more) 4 (length-write_big_endian 4 self.media_ssrc) in
      let number : ((items + 2) * 4 - 8) / 4 ≡ items = omega arith in
      let s_read = (read-write 4 self.sender_ssrc (M ++ (B ++ more)) v.sender).0 in
      let m_read =
        ap (read_big_endian 4) d4 ∙ (read-write 4 self.media_ssrc (B ++ more) v.media).0 in
      let i_read = ap₂ read_items number d8 ∙ read_items-bytes self.packed more v.items in
      rw (store_payload, whole, s_read, m_read, i_read) refl

nack_bytes-append :
    (self : Nack) (more : List ℕ)
    → nack_bytes self ++ more
      ≡ header_bytes 1 205 (length self.packed + 2) ++ (feedback_bytes self ++ more)
unfolding nack_bytes
nack_bytes-append self more =
    append_assoc (header_bytes 1 205 (length self.packed + 2)) (feedback_bytes self) more

header_accepted :
    (n size_bytes : ℕ) (more : List ℕ) (header : CommonHeader)
    → n < 65534
    → 12 + n * 4 ≤ size_bytes
    → store_header (header_bytes 1 205 (n + 2) ++ more) size_bytes header
      ≡ accepted (record {
        packet_type = 205;
        count_or_format = 1;
        padding_size = 0;
        payload_size = (n + 2) * 4;
        payload = some more;
      })
header_accepted n size_bytes more header few long =
    let some_payload : ltb 0 ((n + 2) * 4) ≡ true = ground arith in
    store_header-header_bytes 1 205 (n + 2) size_bytes more header (omega arith)
      (omega (arith, few)) (omega (arith, long))
    ∙ ap
        (λ b. accepted (record {
          packet_type = 205;
          count_or_format = 1;
          padding_size = 0;
          payload_size = (n + 2) * 4;
          payload = if b then some more else none;
        }))
        some_payload

-- The numbers for a NACK that "increase" with the index go into a buffer behind `acc` and come out
-- of it again, with both ssrcs: `LoadPacket` succeeds, `StorePacket` accepts the header there, and
-- the NACK that is stored from it is the one that was written. There is at least one number, few
-- enough items for the header, and space in the buffer.
pub store_nack-load_nack :
    (ids : List ℕ) (sender media : ℕ) (acc rest : List ℕ) (max_length size_bytes : ℕ)
    (header : CommonHeader)
    → AreIncreasing ids
    → 0 < length (pack ids)
    → length (pack ids) < 65534
    → IsU32 sender
    → IsU32 media
    → length acc + 12 + length (pack ids) * 4 ≤ max_length
    → max_length < 4294967296
    → 12 + length (pack ids) * 4 ≤ size_bytes
    → let self =
        set_packet_ids ids (record new_nack { sender_ssrc = sender; media_ssrc = media }) in
      let out = load_nack self (acc ++ rest) (length acc) max_length in
      (out.0 ≡ loaded)
      × (out.2 ≡ length acc + (12 + length (pack ids) * 4))
      × (parsed : CommonHeader) × (store_header (drop (length acc) out.1) size_bytes header
          ≡ accepted parsed)
      × (store_nack parsed ≡ stored self)
unfolding set_packet_ids store_nack
store_nack-load_nack ids sender media acc rest max_length size_bytes header inc any few hs hm fits
      top long =
    let self = set_packet_ids ids (record new_nack { sender_ssrc = sender; media_ssrc = media }) in
    let v : IsNack self = record {
      some_items = any;
      few_items = few;
      items = pack-IsItem ids inc;
      sender = hs;
      media = hm;
    } in
    let n = length (pack ids) in
    let e = load_nack-bytes self v acc rest (length acc) max_length refl fits top in
    let behind = drop (12 + n * 4) rest in
    let there =
      ap (λ r. drop (length acc) r.1) e
      ∙ ap (drop (length acc)) (append_assoc acc (nack_bytes self) behind)
      ∙ drop-length-append acc (nack_bytes self ++ behind)
      ∙ nack_bytes-append self behind in
    let parsed : CommonHeader = record {
      packet_type = 205;
      count_or_format = 1;
      padding_size = 0;
      payload_size = (n + 2) * 4;
      payload = some (feedback_bytes self ++ behind);
    } in
    (
      ap (λ r. r.0) e,
      ap (λ r. r.2) e,
      parsed,
      ap (λ b. store_header b size_bytes header) there
          ∙ header_accepted n size_bytes (feedback_bytes self ++ behind) header few long,
      rw (store_nack, le→ltb ((n + 2) * 4) 12 (omega (arith, any)))
          (store_nack-bytes self v behind
            ∙ ap (λ found. stored (record self { packet_ids = found })) (unpack-pack ids inc)),
    )
