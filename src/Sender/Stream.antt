-- ===== src/Sender/Stream.antt =====
-- What the calls of `SendRtp` of src/rtp_rtcp/rtp_sender.cc send, one after the other.
use qo_srtp.Common.{
  ℕ, ◌+◌, ◌≡◌, refl, subst, ◌⊎◌, inl, inr, true, false, Option, none, some, List, [], ◌∷◌, ◌++◌,
  arith, Bool-cases, length, All, u32, IsU16, IsU32, inc16,
}
use qo_srtp.RtpPacket.Defs.{RtpPacket}
use qo_srtp.RtpPacket.Store.{payload_bytes}
use qo_srtp.Sender.Defs.{RtpSenderConfig, RtpSender}
use qo_srtp.Sender.Cache.{Consecutive}
use qo_srtp.Sender.Send.{expected_seq, may_send, count, send_rtp, remember}

-- A call with the clock's answer and the packet.
abbrev pub Call : Type 0
Call = ℕ × Option RtpPacket

unfoldable pub send_all :
    (ℕ → ℕ) → RtpSenderConfig → List Call → RtpSender → RtpSender × List RtpPacket
send_all memory config [] self = (self, [])
send_all memory config ((now, packet) ∷ calls) self =
    let (after, sent) = send_rtp memory config now packet self in
    let (end, more) = send_all memory config calls after in (end, sent ++ more)

-- The number of the first packet and those behind it.
abbrev pub InRow : List RtpPacket → Type 0
InRow [] = Unit {0}
InRow (p ∷ ps) = Consecutive p.sequence_number (p ∷ ps)

abbrev pub IsWordCall : Call → Type 0
IsWordCall (now, none) = Unit {0}
IsWordCall (now, some packet) = IsU16 packet.sequence_number

abbrev pub total_payload : List RtpPacket → ℕ
total_payload [] = 0
total_payload (p ∷ ps) = payload_bytes p.payload_buffer + total_payload ps

may_send-next :
    (config : RtpSenderConfig) (p : RtpPacket) (self : RtpSender)
    → may_send config p self ≡ true
    → self.has_sent ≡ true
    → IsU16 self.last_seq
    → p.sequence_number ≡ inc16 self.last_seq
unfolding may_send expected_seq
may_send-next config p self e h l = ground arith

-- A call sends its packet, or nothing, and then it changes nothing.
send_rtp-cases :
    (memory : ℕ → ℕ) (config : RtpSenderConfig) (now : ℕ) (p : RtpPacket) (self : RtpSender)
    → ((may_send config p self ≡ true)
        × (send_rtp memory config now (some p) self ≡ (
          count config now p (record self { cache = remember memory config p self.cache }),
          p ∷ [],
        )))
      ⊎ (send_rtp memory config now (some p) self ≡ (self, []))
unfolding send_rtp
send_rtp-cases memory config now p self = elim (Bool-cases (may_send config p self)) [
  | inl e ↦ inl (e, rw (send_rtp, e) refl)
  | inr e ↦ inr (rw (send_rtp, e) refl)
]

send_rtp-none :
    (memory : ℕ → ℕ) (config : RtpSenderConfig) (now : ℕ) (self : RtpSender)
    → send_rtp memory config now none self ≡ (self, [])
unfolding send_rtp
send_rtp-none memory config now self = refl

send_all-next :
    (memory : ℕ → ℕ) (config : RtpSenderConfig) (calls : List Call) (self : RtpSender)
    → All IsWordCall calls
    → IsU16 self.last_seq
    → self.has_sent ≡ true
    → Consecutive (inc16 self.last_seq) (send_all memory config calls self).1
unfolding send_all count
send_all-next memory config [] self w l h = tt
send_all-next memory config ((now, none) ∷ calls) self w l h =
    rw (send_all, send_rtp-none memory config now self)
      (send_all-next memory config calls self w.1 l h)
send_all-next memory config ((now, some p) ∷ calls) self w l h =
    elim (send_rtp-cases memory config now p self) [
      | inl (may, e) ↦
          let after =
            count config now p (record self { cache = remember memory config p self.cache }) in
          let next = may_send-next config p self may h l in
          rw (send_all, e)
            (
              next,
              subst (λ s. Consecutive (inc16 s) (send_all memory config calls after).1) next
                  (send_all-next memory config calls after w.1 w.0 refl),
            )
      | inr e ↦ rw (send_all, e) (send_all-next memory config calls self w.1 l h)
    ]

-- Whatever packets are given to a sender that has sent none: those it sends follow each other on the
-- circle without a gap.
pub send_all-InRow :
    (memory : ℕ → ℕ) (config : RtpSenderConfig) (calls : List Call) (self : RtpSender)
    → All IsWordCall calls
    → self.has_sent ≡ false
    → InRow (send_all memory config calls self).1
unfolding send_all count
send_all-InRow memory config [] self w h = tt
send_all-InRow memory config ((now, none) ∷ calls) self w h =
    rw (send_all, send_rtp-none memory config now self)
      (send_all-InRow memory config calls self w.1 h)
send_all-InRow memory config ((now, some p) ∷ calls) self w h =
    elim (send_rtp-cases memory config now p self) [
      | inl (may, e) ↦
          let after =
            count config now p (record self { cache = remember memory config p self.cache }) in
          rw (send_all, e) (refl, send_all-next memory config calls after w.1 w.0 refl)
      | inr e ↦ rw (send_all, e) (send_all-InRow memory config calls self w.1 h)
    ]

-- The counters grow by the number of packets sent and by the bytes of their payloads, on 32 bits.
pub send_all-counts :
    (memory : ℕ → ℕ) (config : RtpSenderConfig) (calls : List Call) (self : RtpSender)
    → IsU32 self.sender_packet_count
    → IsU32 self.sender_octet_count
    → let (after, sent) = send_all memory config calls self in
      (after.sender_packet_count ≡ u32 (self.sender_packet_count + length sent))
      × (after.sender_octet_count ≡ u32 (self.sender_octet_count + total_payload sent))
unfolding send_all count
send_all-counts memory config [] self hp ho = (omega arith, omega arith)
send_all-counts memory config ((now, none) ∷ calls) self hp ho =
    rw (send_all, send_rtp-none memory config now self)
      (send_all-counts memory config calls self hp ho)
send_all-counts memory config ((now, some p) ∷ calls) self hp ho =
    elim (send_rtp-cases memory config now p self) [
      | inl (may, e) ↦
          let after =
            count config now p (record self { cache = remember memory config p self.cache }) in
          let rest = send_all-counts memory config calls after (omega arith) (omega arith) in
          rw (send_all, e) (omega (arith, rest.0), omega (arith, rest.1))
      | inr e ↦ rw (send_all, e) (send_all-counts memory config calls self hp ho)
    ]
