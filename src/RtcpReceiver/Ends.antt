-- ===== src/RtcpReceiver/Ends.antt =====
-- The loop of `Parse` of src/rtp_rtcp/rtcp_receiver.cc ends.
use qo_srtp.Common.{
  ℕ, zero, suc, ◌+◌, ◌-◌, ◌≤◌, ◌<◌, ◌≡◌, refl, ◌⊎◌, inl, inr, Bool, true, false, List, [], ◌++◌,
  arith, ltb, ◌==◌, ==_iff, ==_ne, Bool-cases, Option-cases, drop,
}
use qo_srtp.Nack.Header.{
  CommonHeader, HeaderError, Stored, new_header, store_header, header_bytes, undefined, refused,
  accepted, store_header-header_bytes,
}
use qo_srtp.RtcpReceiver.Defs.{
  RtcpReceiver, Parsing, dispatch, Parsed, outside, rejected, parsed, endless, parse,
  on_rtcp_packet,
}

-- Whether the rounds were enough.
unfoldable pub ends : Parsed → Bool
ends outside = true
ends (rejected s) = true
ends (parsed s) = true
ends endless = false

Stored-cases :
    (x : Stored)
    → (x ≡ undefined)
      ⊎ (((e : HeaderError) × (x ≡ refused e)) ⊎ ((c : CommonHeader) × (x ≡ accepted c)))
Stored-cases undefined = inl refl
Stored-cases (refused e) = inr (inl (e, refl))
Stored-cases (accepted c) = inr (inr (c, refl))

ends-parse :
    (n stale now : ℕ) (header : CommonHeader) (next_packet : List ℕ) (remain_length : ℕ)
    (s : Parsing)
    → remain_length ≤ n
    → ends (parse n stale now header next_packet remain_length s) ≡ true
unfolding parse ends
ends-parse zero stale now header next_packet remain_length s h =
    let none_left : (remain_length == 0) ≡ true = (==_iff remain_length 0).1 (omega arith) in
    rw (parse, none_left) refl
ends-parse (suc n) stale now header next_packet remain_length s h =
    elim (Bool-cases (remain_length == 0)) [
      | inl empty ↦ rw (parse, empty) refl
      | inr any ↦ elim (Stored-cases (store_header next_packet remain_length header)) [
        | inl u ↦ rw (parse, any, u) refl
        | inr (inl (e, r)) ↦ rw (parse, any, r) refl
        | inr (inr (compound, a)) ↦ elim (Option-cases compound.payload) [
          | inl null ↦ rw (parse, any, a, null) refl
          | inr (payload, p) ↦ elim (Option-cases (dispatch stale now compound s)) [
            | inl u ↦ rw (parse, any, a, p, u) refl
            | inr (s', d) ↦
                let behind = compound.payload_size + compound.padding_size in
                elim (Bool-cases (ltb remain_length (4 + behind))) [
                  | inl short ↦ rw (parse, any, a, p, d, short) refl
                  | inr long ↦
                      rw (parse, any, a, p, d, long)
                        (ends-parse n stale now compound (drop behind payload)
                          (remain_length - (4 + behind)) s' (omega arith))
                ]
          ]
        ]
      ]
    ]

-- For every buffer, size, time and state of the receiver: the loop over the packets of a compound
-- ends within one round for each byte.
pub ends-on_rtcp_packet :
    (stale now : ℕ) (buffer : List ℕ) (size : ℕ) (self : RtcpReceiver)
    → ends (on_rtcp_packet stale now buffer size self) ≡ true
unfolding on_rtcp_packet ends
ends-on_rtcp_packet stale now buffer size self = elim (Bool-cases self.has_received_bye) [
  | inl gone ↦ rw (on_rtcp_packet, gone) refl
  | inr here ↦
      rw (on_rtcp_packet, here)
        (ends-parse size stale now new_header buffer size
          (record {
            receiver = record self { has_received_bye = false };
            type_flags = 0;
            called = [];
          })
          (let e : size ≤ size = omega arith in e))
]

-- A buffer that starts with the header of a packet without content, as of a BYE without sources or
-- an SDES without chunks, of any type and count: once it is handled, the loop looks for the next
-- packet from a null pointer on, whatever follows, unless the receiver heard a BYE before.
pub on_rtcp_packet_empty :
    (stale now c t size : ℕ) (more : List ℕ) (self : RtcpReceiver)
    → self.has_received_bye ≡ false
    → c < 32
    → 4 ≤ size
    → on_rtcp_packet stale now (header_bytes c t 0 ++ more) size self ≡ outside
unfolding on_rtcp_packet parse
on_rtcp_packet_empty stale now c t zero more self here few long = absurd (omega arith)
on_rtcp_packet_empty stale now c t (suc n) more self here few long =
    let any : (suc n == 0) ≡ false = ==_ne (suc n) 0 (omega arith) in
    let found =
      store_header-header_bytes c t 0 (suc n) more new_header few (omega arith)
        (omega (arith, long)) in
    rw (on_rtcp_packet, here, any, found) refl
