-- ===== src/RtcpSender/Sent.antt =====
-- The compound packet that `SendRtcp` of src/rtp_rtcp/rtp_rtcp_tranceiver_impl.cc writes is the
-- images of its packets in a row.
use mathlib.Core.List.{append_assoc, append-nil}
use qo_srtp.Common.{
  ℕ, ◌+◌, ◌*◌, ◌≤◌, ◌<◌, ◌≡◌, refl, sym, ap, ap₂, ◌∙◌, true, List, [], ◌∷◌, ◌++◌, arith, ◌==◌,
  ==_iff, ==_ne, length, drop, All, length-append, drop-add, drop-all, u32,
}
use qo_srtp.Report.SenderReport.{done}
use qo_srtp.RtcpReceiver.Compound.{Image, IsImage, image_bytes, compound_bytes, length-image_bytes}
use qo_srtp.RtcpSender.Defs.{RtcpPacket}
use qo_srtp.RtcpSender.Compound.{packet_length, load_packet, total_length, load_all, send_compound}

-- `LoadPacket` of the packet writes the image, wherever there is space.
pub record IsWritten (p : RtcpPacket) (i : Image) : Type 0 where
  pub is_image : IsImage i
  pub right_length : packet_length p ≡ 4 + i.words * 4
  pub loads :
      (acc rest : List ℕ) (max_length : ℕ)
      → length acc + (4 + i.words * 4) ≤ max_length
      → max_length < 4294967296
      → load_packet p (acc ++ rest) (length acc) max_length
        ≡ done
            ((acc ++ image_bytes i) ++ drop (4 + i.words * 4) rest, length acc + (4 + i.words * 4))

unfoldable pub AreWritten : List RtcpPacket → List Image → Type 0
AreWritten [] [] = Unit
AreWritten [] (i ∷ is) = ⊥
AreWritten (p ∷ ps) [] = ⊥
AreWritten (p ∷ ps) (i ∷ is) = IsWritten p i × AreWritten ps is

pub AreWritten-IsImage :
    (ps : List RtcpPacket) (is : List Image) → AreWritten ps is → All IsImage is
unfolding AreWritten
AreWritten-IsImage [] [] w = tt
AreWritten-IsImage [] (i ∷ is) w = absurd w
AreWritten-IsImage (p ∷ ps) [] w = absurd w
AreWritten-IsImage (p ∷ ps) (i ∷ is) w = (w.0.is_image, AreWritten-IsImage ps is w.1)

total_length-bytes :
    (sum : ℕ) (ps : List RtcpPacket) (is : List Image)
    → AreWritten ps is
    → sum + length (compound_bytes is) < 4294967296
    → total_length sum ps ≡ sum + length (compound_bytes is)
unfolding AreWritten total_length compound_bytes
total_length-bytes sum [] [] w small = omega arith
total_length-bytes sum [] (i ∷ is) w small = absurd w
total_length-bytes sum (p ∷ ps) [] w small = absurd w
total_length-bytes sum (p ∷ ps) (i ∷ is) w small =
    let long : length (image_bytes i ++ compound_bytes is)
        ≡ 4 + i.words * 4 + length (compound_bytes is) =
      omega (
        arith,
        length-append (image_bytes i) (compound_bytes is),
        length-image_bytes i w.0.is_image,
      ) in
    let next : u32 (sum + packet_length p) ≡ sum + (4 + i.words * 4) =
      omega (arith, w.0.right_length, small, long) in
    ap (λ k. total_length k ps) next
    ∙ total_length-bytes (sum + (4 + i.words * 4)) ps is w.1 (omega (arith, small, long))
    ∙ (let e : sum + (4 + i.words * 4) + length (compound_bytes is)
            ≡ sum + length (image_bytes i ++ compound_bytes is) =
          omega (arith, long) in
        e)

load_all-bytes :
    (ps : List RtcpPacket) (is : List Image) (acc rest : List ℕ) (pos max_length : ℕ)
    → length acc ≡ pos
    → AreWritten ps is
    → pos + length (compound_bytes is) ≤ max_length
    → max_length < 4294967296
    → load_all ps (acc ++ rest) pos max_length
      ≡ done (
        (acc ++ compound_bytes is) ++ drop (length (compound_bytes is)) rest,
        pos + length (compound_bytes is),
      )
unfolding AreWritten load_all compound_bytes
load_all-bytes [] [] acc rest pos max_length h w fits top =
    ap₂ (λ xs p. done (xs ++ rest, p)) (sym (append-nil acc))
      (let e : pos ≡ pos + 0 = omega arith in e)
load_all-bytes [] (i ∷ is) acc rest pos max_length h w fits top = absurd w
load_all-bytes (p ∷ ps) [] acc rest pos max_length h w fits top = absurd w
load_all-bytes (p ∷ ps) (i ∷ is) acc rest pos max_length h w fits top =
    let I = image_bytes i in
    let n = 4 + i.words * 4 in
    let B = compound_bytes is in
    let whole : length I ≡ n = length-image_bytes i w.0.is_image in
    let long : length (I ++ B) ≡ n + length B = omega (arith, length-append I B, whole) in
    let l1 : length (acc ++ I) ≡ pos + n = omega (arith, h, length-append acc I, whole) in
    let first : load_packet p (acc ++ rest) pos max_length
        ≡ done ((acc ++ I) ++ drop n rest, pos + n) =
      ap (λ k. load_packet p (acc ++ rest) k max_length) (sym h)
      ∙ w.0.loads acc rest max_length (omega (arith, h, fits, long)) top
      ∙ ap (λ k. done ((acc ++ I) ++ drop n rest, k + n)) h in
    let left : drop (length B) (drop n rest) ≡ drop (length (I ++ B)) rest =
      drop-add n (length B) rest ∙ ap (λ k. drop k rest) (sym long) in
    let end : pos + n + length B ≡ pos + length (I ++ B) = omega (arith, long) in
    rw (load_all, first)
      (load_all-bytes ps is (acc ++ I) (drop n rest) (pos + n) max_length l1 w.1
          (omega (arith, fits, long)) top
        ∙ ap₂ (λ b q. done (b, q)) (ap₂ ◌++◌ (append_assoc acc I B) left) end)

-- Packets that write their images, at least one, go to the network as their images in a row, if
-- they fit a `uint32_t`.
pub send_compound-bytes :
    (memory : ℕ → List ℕ) (ps : List RtcpPacket) (is : List Image)
    → ((n : ℕ) → length (memory n) ≡ n)
    → AreWritten ps is
    → 0 < length (compound_bytes is)
    → length (compound_bytes is) < 4294967296
    → send_compound memory ps ≡ done (compound_bytes is)
unfolding send_compound
send_compound-bytes memory ps is allocated w any small =
    let n = length (compound_bytes is) in
    let size : total_length 0 ps ≡ n =
      total_length-bytes 0 ps is w (omega (arith, small))
      ∙ (let e : 0 + n ≡ n = omega arith in e) in
    let some_bytes = ==_ne n 0 (omega (arith, any)) in
    let loads =
      load_all-bytes ps is [] (memory n) 0 n refl w (let e : 0 + n ≤ n = omega arith in e) small in
    let filled : (0 + n == n) ≡ true = (==_iff (0 + n) n).1 (omega arith) in
    let nothing_left : drop n (memory n) ≡ [] =
      drop-all n (memory n) (omega (arith, allocated n)) in
    rw (send_compound, size, some_bytes, loads, size, filled, nothing_left)
      (ap done (append-nil (compound_bytes is)))
