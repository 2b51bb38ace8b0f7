-- ===== src/Receiver/Deliver.antt =====
-- What the calls of `OnRtpPacket` of src/rtp_rtcp/rtp_receiver.cc hand over, one after the other.
use qo_srtp.Common.{
  ℕ, ◌<◌, ◌≡◌, subst, inl, inr, true, ◌&&◌, Option, none, some, List, [], ◌∷◌, ◌++◌, arith, leb,
  ◌==◌, Bool-cases, Option-cases, All, IsU8, IsU16,
}
use qo_srtp.RtpPacket.Defs.{RtpPacket, payload_type, count_csrcs}
use qo_srtp.RtpPacket.Copy.{copy_csrcs}
use qo_srtp.RtpPacket.Store.{store_fields}
use qo_srtp.ByteIo.{read_big_endian, write_big_loop, of_host_bytes}
use qo_srtp.DataBuffer.{DataBuffer}
use qo_srtp.ReceiverCache.Window.{IsOrdered}
use qo_srtp.ReceiverCache.Deliver.{Follows, last_seq, Follows-append}
use qo_srtp.ReceiverCache.History.{Arrival, arrive, arrive-IsDelivered}
use qo_srtp.Receiver.Defs.{RtpReceiver, RtpReceiverConfig}
use qo_srtp.Receiver.Rtx.{
  reconstruct_rtp_from_rtx, reconstruct_from, reconstruct_payload, find_type,
}
use qo_srtp.Receiver.Receive.{
  contains, Clock, Received, dropped, undefined, received, process, update_jitter, on_original,
  on_rtp_packet,
}

-- What follows a call: the calls behind it, unless the call is undefined.
abbrev pub continue :
    Received
    → RtpReceiver
    → (RtpReceiver → RtpReceiver × List RtpPacket)
    → RtpReceiver × List RtpPacket
continue dropped self next = next self
continue undefined self next = (self, [])
continue (received after losses packets) self next =
    let (end, more) = next after in (end, packets ++ more)

-- The packets handed over by calls, up to one that is undefined, and the state then.
unfoldable pub receive_all :
    (ℕ → ℕ) → List (RtpPacket × Clock) → RtpReceiver → RtpReceiver × List RtpPacket
receive_all memory [] self = (self, [])
receive_all memory ((packet, clock) ∷ rest) self =
    continue (on_rtp_packet memory packet clock self) self (λ after. receive_all memory rest after)

-- The cache has handed something over, and is in order from the latest number on.
pub record IsRunning (base : ℕ) (self : RtpReceiver) : Type 0 where
  pub called : self.packet_cache.has_callback_packet ≡ true
  pub ordered : IsOrdered base self.packet_cache

abbrev Delivers : ℕ → RtpReceiver → Received → Type 0
Delivers base self dropped = Unit {0}
Delivers base self undefined = Unit {0}
Delivers base self (received after losses packets) =
    Follows base packets × IsRunning (last_seq base packets) after

process-Delivers :
    (base : ℕ) (packet : RtpPacket) (clock : Clock) (self : RtpReceiver)
    → IsU16 packet.sequence_number
    → IsRunning base self
    → Delivers base self (process packet clock self)
unfolding process arrive
process-Delivers base packet clock self word v =
    let a : Arrival = record {
      packet = packet;
      put_time = clock.put_time;
      nack_time = clock.nack_time;
      get_time = clock.get_time;
    } in
    let (called, ordered, follows) =
      arrive-IsDelivered base self.packet_cache a word v.called v.ordered in
    (follows, record { called = called; ordered = ordered })

on_original-Delivers :
    (base : ℕ) (packet : RtpPacket) (clock : Clock) (self : RtpReceiver)
    → IsU16 packet.sequence_number
    → IsRunning base self
    → Delivers base self (on_original packet clock self)
unfolding on_original
on_original-Delivers base packet clock self word v =
    elim (Bool-cases (packet.ssrc == self.config.remote_ssrc)) [
      | inr e ↦ rw (on_original, e) tt
      | inl e ↦ elim (Bool-cases (contains (payload_type packet) self.config.rtp_payload_types)) [
        | inr f ↦ rw (on_original, e, f) tt
        | inl f ↦
            elim (Option-cases (
              update_jitter self.has_received self.config.rtp_clock_rate_hz packet
                clock.receive_time self.interarrival_jitter_info)) [
                  | inl g ↦ rw (on_original, e, f, g) tt
                  | inr (info, g) ↦
                      rw (on_original, e, f, g)
                        (process-Delivers base packet clock
                          (record self { interarrival_jitter_info = info }) word
                          (record { called = v.called; ordered = v.ordered }))
                ]
      ]
    ]

read-small : (bs : List ℕ) → All IsU8 bs → read_big_endian 2 bs < 65536
unfolding read_big_endian write_big_loop of_host_bytes
read-small [] h = omega arith
read-small (b ∷ []) h = omega (arith, h.0)
read-small (b ∷ c ∷ bs) h = omega (arith, h.0, h.1.0)

-- The payload consists of bytes.
abbrev pub BytesOf : Option DataBuffer → Type 0
BytesOf none = Unit {0}
BytesOf (some b) = All IsU8 b.buffer

reconstruct_from-word :
    (memory : ℕ → ℕ) (config : RtpReceiverConfig) (packet : RtpPacket) (t : ℕ) (b : DataBuffer)
    (csrcs : List ℕ)
    → All IsU8 b.buffer
    → IsU16 (reconstruct_from memory config packet t b csrcs).sequence_number
unfolding reconstruct_from store_fields
reconstruct_from-word memory config packet t b csrcs h = ground (arith, read-small b.buffer h)

abbrev WordOf : Option RtpPacket → Type 0
WordOf none = Unit {0}
WordOf (some original) = IsU16 original.sequence_number

reconstruct_payload-WordOf :
    (memory : ℕ → ℕ) (config : RtpReceiverConfig) (packet : RtpPacket) (t : ℕ)
    (b : Option DataBuffer)
    → BytesOf b
    → WordOf (reconstruct_payload memory config packet t b)
unfolding reconstruct_payload
reconstruct_payload-WordOf memory config packet t none h = tt
reconstruct_payload-WordOf memory config packet t (some b) h = elim (Bool-cases (leb b.size 2)) [
  | inl e ↦ rw (reconstruct_payload, e) tt
  | inr e ↦ elim (Option-cases (copy_csrcs packet (count_csrcs packet) 0 0)) [
    | inl f ↦ rw (reconstruct_payload, e, f) tt
    | inr (csrcs, f) ↦
        rw (reconstruct_payload, e, f) (reconstruct_from-word memory config packet t b csrcs h)
  ]
]

reconstruct-WordOf :
    (memory : ℕ → ℕ) (config : RtpReceiverConfig) (packet : RtpPacket)
    → BytesOf packet.payload_buffer
    → WordOf (reconstruct_rtp_from_rtx memory config packet)
unfolding reconstruct_rtp_from_rtx
reconstruct-WordOf memory config packet h =
    elim (Option-cases (find_type (payload_type packet) config.map_rtx_payload_type)) [
      | inl e ↦ rw (reconstruct_rtp_from_rtx, e) tt
      | inr (t, e) ↦
          rw (reconstruct_rtp_from_rtx, e)
            (reconstruct_payload-WordOf memory config packet t packet.payload_buffer h)
    ]

-- A packet as it may arrive.
pub record Arrives (packet : RtpPacket) : Type 0 where
  pub word : IsU16 packet.sequence_number
  pub bytes : BytesOf packet.payload_buffer

on_rtp_packet-Delivers :
    (memory : ℕ → ℕ) (base : ℕ) (packet : RtpPacket) (clock : Clock) (self : RtpReceiver)
    → Arrives packet
    → IsRunning base self
    → Delivers base self (on_rtp_packet memory packet clock self)
unfolding on_rtp_packet
on_rtp_packet-Delivers memory base packet clock self a v =
    elim (Bool-cases (self.config.rtx_enabled && (packet.ssrc == self.config.rtx_ssrc))) [
      | inr e ↦ rw (on_rtp_packet, e) (on_original-Delivers base packet clock self a.word v)
      | inl e ↦ elim (Option-cases (reconstruct_rtp_from_rtx memory self.config packet)) [
        | inl f ↦ rw (on_rtp_packet, e, f) tt
        | inr (original, f) ↦
            let word = subst WordOf f (reconstruct-WordOf memory self.config packet a.bytes) in
            rw (on_rtp_packet, e, f) (on_original-Delivers base original clock self word v)
      ]
    ]

continue-Follows :
    (base : ℕ) (self : RtpReceiver) (next : RtpReceiver → RtpReceiver × List RtpPacket)
    (out : Received)
    → Delivers base self out
    → IsRunning base self
    → ((base' : ℕ) (after : RtpReceiver) → IsRunning base' after → Follows base' (next after).1)
    → Follows base (continue out self next).1
continue-Follows base self next dropped d v h = h base self v
continue-Follows base self next undefined d v h = tt
continue-Follows base self next (received after losses packets) d v h =
    Follows-append base packets (next after).1 d.0 (h (last_seq base packets) after d.1)

receive_all-Follows_base :
    (memory : ℕ → ℕ) (base : ℕ) (calls : List (RtpPacket × Clock)) (self : RtpReceiver)
    → All (λ c. Arrives c.0) calls
    → IsRunning base self
    → Follows base (receive_all memory calls self).1
unfolding receive_all
receive_all-Follows_base memory base [] self w v = tt
receive_all-Follows_base memory base ((packet, clock) ∷ rest) self w v =
    continue-Follows base self (receive_all memory rest) (on_rtp_packet memory packet clock self)
      (on_rtp_packet-Delivers memory base packet clock self w.0 v) v
      (λ base' after v'. receive_all-Follows_base memory base' rest after w.1 v')

-- Once a receiver has handed a packet over: whatever it receives, original or repeated packets, in
-- whatever order, late, twice or not meant for it, all packets handed over from then on are in
-- order on the circle, the first one after the latest before. This covers the calls up to the first
-- one whose jitter is undefined.
pub receive_all-Follows :
    (memory : ℕ → ℕ) (calls : List (RtpPacket × Clock)) (self : RtpReceiver)
    → All (λ c. Arrives c.0) calls
    → IsRunning self.packet_cache.latest_callback_seq self
    → Follows self.packet_cache.latest_callback_seq (receive_all memory calls self).1
receive_all-Follows memory calls self w v =
    receive_all-Follows_base memory self.packet_cache.latest_callback_seq calls self w v
