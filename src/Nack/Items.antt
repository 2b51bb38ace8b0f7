-- ===== src/Nack/Items.antt =====
-- The items of a NACK of src/rtp_rtcp/nack.cc in a buffer.
use mathlib.Core.List.{append_assoc, append-nil}
use qo_srtp.Common.{
  ℕ, suc, ◌+◌, ◌*◌, ◌≡◌, refl, sym, ap, ap₂, ◌∙◌, List, [], ◌∷◌, ◌++◌, arith, length, drop, All,
  length-append, drop-add, drop_front,
}
use qo_srtp.ByteIo.{write_big_endian, read_big_endian, write_big_loop, host_bytes}
use qo_srtp.ByteIo.RoundTrip.{read-write, length-write_big_endian}
use qo_srtp.DataBuffer.Filling.{write_twice}
use qo_srtp.Nack.Defs.{PackedNack}
use qo_srtp.Nack.Packet.{load_items, read_items}
use qo_srtp.Nack.Packing.{IsItem}

-- The items in network order.
pub item_bytes : List PackedNack → List ℕ
item_bytes [] = []
item_bytes (item ∷ items) =
    write_big_endian 2 item.first_pid ++ (write_big_endian 2 item.bitmask ++ item_bytes items)

pub length-item_bytes : (items : List PackedNack) → length (item_bytes items) ≡ length items * 4
unfolding item_bytes write_big_endian write_big_loop host_bytes
length-item_bytes [] = refl
length-item_bytes (item ∷ items) =
    let rest : length (item_bytes items) ≡ length items * 4 = length-item_bytes items in
    omega (arith, rest)

pub load_items-bytes :
    (items : List PackedNack) (acc rest : List ℕ) (pos : ℕ)
    → length acc ≡ pos
    → load_items items (acc ++ rest) pos
      ≡ ((acc ++ item_bytes items) ++ drop (length items * 4) rest, pos + length items * 4)
unfolding load_items item_bytes
load_items-bytes [] acc rest pos h =
    ap₂ (λ xs p. (xs ++ rest, p)) (sym (append-nil acc)) (let e : pos ≡ pos + 0 = omega arith in e)
load_items-bytes (item ∷ items) acc rest pos h =
    let first = write_big_endian 2 item.first_pid in
    let second = write_big_endian 2 item.bitmask in
    let acc' = (acc ++ first) ++ second in
    let long : length acc' ≡ pos + 4 = omega (
      arith,
      h,
      length-append (acc ++ first) second,
      length-append acc first,
      length-write_big_endian 2 item.first_pid,
      length-write_big_endian 2 item.bitmask,
    ) in
    let written =
      write_twice acc rest first second (pos + 0) (pos + 2) 2 (omega (arith, h))
        (length-write_big_endian 2 item.first_pid) (length-write_big_endian 2 item.bitmask)
        (omega arith) in
    let joined : acc' ++ item_bytes items ≡ acc ++ (first ++ (second ++ item_bytes items)) =
      append_assoc (acc ++ first) second (item_bytes items)
      ∙ append_assoc acc first (second ++ item_bytes items) in
    let left : drop (length items * 4) (drop 4 rest) ≡ drop (suc (length items) * 4) rest =
      drop-add 4 (length items * 4) rest
      ∙ ap (λ k. drop k rest)
          (let e : 4 + length items * 4 ≡ suc (length items) * 4 = omega arith in e) in
    let end : pos + 4 + length items * 4 ≡ pos + suc (length items) * 4 = omega arith in
    ap (λ b. load_items items b (pos + 4)) written
    ∙ load_items-bytes items acc' (drop 4 rest) (pos + 4) long
    ∙ ap₂ (λ b p. (b, p)) (ap₂ ◌++◌ joined left) end

pub read_items-bytes :
    (items : List PackedNack) (rest : List ℕ)
    → All IsItem items
    → read_items (length items) (item_bytes items ++ rest) ≡ items
unfolding read_items item_bytes
read_items-bytes [] rest h = refl
read_items-bytes (item ∷ items) rest h =
    let first = write_big_endian 2 item.first_pid in
    let second = write_big_endian 2 item.bitmask in
    let tail = item_bytes items ++ rest in
    let whole : (first ++ (second ++ item_bytes items)) ++ rest ≡ first ++ (second ++ tail) =
      append_assoc first (second ++ item_bytes items) rest
      ∙ ap (λ r. first ++ r) (append_assoc second (item_bytes items) rest) in
    let after : drop 2 (first ++ (second ++ tail)) ≡ second ++ tail =
      drop_front first (second ++ tail) 2 (length-write_big_endian 2 item.first_pid) in
    let behind : drop 4 (first ++ (second ++ tail)) ≡ tail =
      sym (drop-add 2 2 (first ++ (second ++ tail)))
      ∙ ap (drop 2) after
      ∙ drop_front second tail 2 (length-write_big_endian 2 item.bitmask) in
    let pid = (read-write 2 item.first_pid (second ++ tail) h.0.0).0 in
    let mask = ap (read_big_endian 2) after ∙ (read-write 2 item.bitmask tail h.0.1).0 in
    let rest_read = ap (read_items (length items)) behind ∙ read_items-bytes items rest h.1 in
    ap (read_items (suc (length items))) whole
    ∙ ap₂ ◌∷◌ (ap₂ (λ a b. record { first_pid = a; bitmask = b }) pid mask) rest_read
