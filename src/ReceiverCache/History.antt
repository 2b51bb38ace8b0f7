-- ===== src/ReceiverCache/History.antt =====
-- A history of arrivals at the cache of src/rtp_rtcp/rtp_receiver.cc.
use qo_srtp.Common.{ℕ, ◌≡◌, ◌∙◌, true, List, [], ◌∷◌, ◌++◌, All, IsU16}
use qo_srtp.RtpPacket.Defs.{RtpPacket}
use qo_srtp.ReceiverCache.Defs.{PacketCache}
use qo_srtp.ReceiverCache.Put.{put_packet}
use qo_srtp.ReceiverCache.Get.{get_packets, get_loss_packet_seqs_for_nack}
use qo_srtp.ReceiverCache.Window.{IsOrdered}
use qo_srtp.ReceiverCache.Insert.{put_packet-IsOrdered, put_packet_called}
use qo_srtp.ReceiverCache.Deliver.{
  Follows, last_seq, Follows-append, get_packets-IsDelivered, get_packets-called,
}

-- A packet, and what the clock says at the three calls.
pub record Arrival : Type 0 where
  pub packet : RtpPacket
  pub put_time : ℕ
  pub nack_time : ℕ
  pub get_time : ℕ

-- The calls of the cache in `RtpReceiver::OnRtpPacket`: the state after them, the numbers for a
-- NACK and the packets for the callback.
unfoldable pub arrive : PacketCache → Arrival → PacketCache × List ℕ × List RtpPacket
arrive cache a =
    let put = put_packet a.packet a.put_time cache in
    let (asked, losses) = get_loss_packet_seqs_for_nack a.nack_time [] put in
    let (after, packets) = get_packets a.get_time [] asked in (after, losses, packets)

-- The packets that a history hands over, and the state that it leaves.
unfoldable pub run : PacketCache → List Arrival → PacketCache × List RtpPacket
run cache [] = (cache, [])
run cache (a ∷ rest) =
    let (after, losses, packets) = arrive cache a in
    let (end, more) = run after rest in (end, packets ++ more)

pub arrive-IsDelivered :
    (base : ℕ) (cache : PacketCache) (a : Arrival)
    → IsU16 a.packet.sequence_number
    → cache.has_callback_packet ≡ true
    → IsOrdered base cache
    → ((arrive cache a).0.has_callback_packet ≡ true)
      × IsOrdered (last_seq base (arrive cache a).2) (arrive cache a).0
      × Follows base (arrive cache a).2
unfolding arrive get_loss_packet_seqs_for_nack
arrive-IsDelivered base cache a word called v =
    let put = put_packet a.packet a.put_time cache in
    let (asked, losses) = get_loss_packet_seqs_for_nack a.nack_time [] put in
    let called' : asked.has_callback_packet ≡ true =
      put_packet_called a.packet a.put_time cache ∙ called in
    let w = (put_packet-IsOrdered base a.packet a.put_time cache v word (λ fresh. absurd (cc))).0 in
    let w' : IsOrdered base asked = record {
      word = w.word;
      latest = w.latest;
      descends = w.descends;
    } in
    let d = get_packets-IsDelivered base a.get_time asked w' in
    (get_packets-called a.get_time asked called', d.ordered, d.follows)

run-Follows_base :
    (rest : List Arrival) (base : ℕ) (cache : PacketCache)
    → All (λ a. IsU16 a.packet.sequence_number) rest
    → cache.has_callback_packet ≡ true
    → IsOrdered base cache
    → Follows base (run cache rest).1
unfolding run
run-Follows_base [] base cache words called v = tt
run-Follows_base (a ∷ rest) base cache words called v =
    let (called', v', f) = arrive-IsDelivered base cache a words.0 called v in
    Follows-append base (arrive cache a).2 (run (arrive cache a).0 rest).1 f (
      run-Follows_base rest (last_seq base (arrive cache a).2) (arrive cache a).0 words.1 called'
        v')

-- Once a packet was handed over, whatever arrives in whatever order, late or twice: all packets
-- handed over from then on are in order, each after the one before it on the circle and the first
-- one after the latest before.
pub run-Follows :
    (rest : List Arrival) (cache : PacketCache)
    → All (λ a. IsU16 a.packet.sequence_number) rest
    → cache.has_callback_packet ≡ true
    → IsOrdered cache.latest_callback_seq cache
    → Follows cache.latest_callback_seq (run cache rest).1
run-Follows rest cache words called v =
    run-Follows_base rest cache.latest_callback_seq cache words called v
