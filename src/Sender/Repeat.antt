-- ===== src/Sender/Repeat.antt =====
-- What `SendRtx` of src/rtp_rtcp/rtp_sender.cc sends for packets of the cache.
use qo_srtp.Common.{
  ℕ, ◌≡◌, refl, sym, ap, subst, inl, inr, some, List, [], ◌∷◌, map, arith, Option-cases, All, IsU16,
  inc16,
}
use qo_srtp.DataBuffer.{DataBuffer}
use qo_srtp.RtpPacket.Defs.{RtpPacket, payload_type, count_csrcs}
use qo_srtp.RtpPacket.Store.{store_fields}
use qo_srtp.RtpPacket.Copy.{copy_csrcs}
use qo_srtp.Sender.Defs.{RtpSenderConfig, RtxContext}
use qo_srtp.Sender.Cache.{Consecutive}
use qo_srtp.Sender.Send.{construct_each}
use qo_srtp.Sender.Rtx.{
  Constructed, undefined, no_packet, constructed, construct_rtx, repeat_packet, store_rtx,
  find_rtx_type, next_rtx_seq,
}

-- A packet of the RTX stream with a number.
abbrev pub IsRtx : RtpSenderConfig → RtpPacket → Type 0
IsRtx config rtx = rtx.ssrc ≡ config.rtx_ssrc

-- Either nothing is sent, and the next number stays the same, or a packet with that number is.
abbrev Steps : RtpSenderConfig → ℕ → RtxContext → Constructed × RtxContext → Type 0
Steps config random context (undefined, after) = ⊥
Steps config random context (no_packet, after) =
    (next_rtx_seq random after ≡ next_rtx_seq random context) × IsU16 after.last_rtx_seq
Steps config random context (constructed rtx, after) =
    (rtx.sequence_number ≡ next_rtx_seq random context)
    × IsRtx config rtx
    × (next_rtx_seq random after ≡ inc16 (next_rtx_seq random context))
    × IsU16 after.last_rtx_seq

repeat_packet-Steps :
    (memory : ℕ → ℕ) (random : ℕ) (config : RtpSenderConfig) (packet : RtpPacket)
    (context : RtxContext) (t : ℕ) (csrcs : List ℕ) (payload : DataBuffer)
    → IsU16 random
    → IsU16 context.last_rtx_seq
    → Steps config random context
        (repeat_packet memory random config packet context t csrcs (some payload))
unfolding repeat_packet store_rtx store_fields next_rtx_seq
repeat_packet-Steps memory random config packet context t csrcs payload hr hc = ground arith

construct_rtx-Steps :
    (memory : ℕ → ℕ) (random : ℕ) (config : RtpSenderConfig) (packet : RtpPacket)
    (context : RtxContext) (payload : DataBuffer)
    → IsU16 random
    → IsU16 context.last_rtx_seq
    → packet.payload_buffer ≡ some payload
    → Steps config random context (construct_rtx memory random config packet context)
unfolding construct_rtx
construct_rtx-Steps memory random config packet context payload hr hc has =
    elim (Option-cases (find_rtx_type (payload_type packet) config.map_rtx_payload_type)) [
      | inl e ↦ rw (construct_rtx, e) (refl, hc)
      | inr (t, e) ↦ elim (Option-cases (copy_csrcs packet (count_csrcs packet) 0 0)) [
        | inl f ↦ rw (construct_rtx, e, f) (refl, hc)
        | inr (csrcs, f) ↦
            rw (construct_rtx, e, f)
              (subst
                (λ b.
                  Steps config random context
                    (repeat_packet memory random config packet context t csrcs b))
                (sym has)
                (repeat_packet-Steps memory random config packet context t csrcs payload hr hc))
      ]
    ]

abbrev pub HasPayload : RtpPacket → Type 0
HasPayload packet = (payload : DataBuffer) × (packet.payload_buffer ≡ some payload)

-- The loop ends, and what it sends.
abbrev pub Repeats : (ℕ → ℕ) → ℕ → RtpSenderConfig → List RtpPacket → RtxContext → Type 0
Repeats memory random config packets context =
    (end : RtxContext) × (sent : List RtpPacket) × (construct_each memory random config
        (map some packets) context
      ≡ some (end, sent))
    × Consecutive (next_rtx_seq random context) sent
    × All (IsRtx config) sent

construct_each-step :
    (memory : ℕ → ℕ) (random : ℕ) (config : RtpSenderConfig) (p : RtpPacket) (ps : List RtpPacket)
    (context : RtxContext)
    → ((after : RtxContext) → IsU16 after.last_rtx_seq → Repeats memory random config ps after)
    → (out : Constructed × RtxContext) → construct_rtx memory random config p context ≡ out
    → Steps config random context out
    → Repeats memory random config (p ∷ ps) context
unfolding construct_each
construct_each-step memory random config p ps context rest (undefined, after) e s = absurd s
construct_each-step memory random config p ps context rest (no_packet, after) e s =
    let (end, sent, f, c, r) = rest after s.1 in
    (
      end,
      sent,
      rw (construct_each, ap (λ o. o.0) e, ap (λ o. o.1) e) f,
      subst (λ n. Consecutive n sent) s.0 c,
      r,
    )
construct_each-step memory random config p ps context rest (constructed rtx, after) e s =
    let (end, sent, f, c, r) = rest after s.3 in
    (
      end,
      rtx ∷ sent,
      rw (construct_each, ap (λ o. o.0) e, ap (λ o. o.1) e, f) refl,
      (s.0, subst (λ n. Consecutive n sent) s.2 c),
      (s.1, r),
    )

-- For packets that have a payload the loop of `SendRtx` ends, and what it sends are packets of the
-- RTX ssrc whose numbers follow each other without a gap, from the next one of the RTX stream on.
pub construct_each-Repeats :
    (memory : ℕ → ℕ) (random : ℕ) (config : RtpSenderConfig) (packets : List RtpPacket)
    (context : RtxContext)
    → IsU16 random
    → IsU16 context.last_rtx_seq
    → All HasPayload packets
    → Repeats memory random config packets context
unfolding construct_each
construct_each-Repeats memory random config [] context hr hc has = (context, [], refl, tt, tt)
construct_each-Repeats memory random config (p ∷ ps) context hr hc has =
    construct_each-step memory random config p ps context
      (λ after h. construct_each-Repeats memory random config ps after hr h has.1)
      (construct_rtx memory random config p context) refl
      (construct_rtx-Steps memory random config p context has.0.0 hr hc has.0.1)
