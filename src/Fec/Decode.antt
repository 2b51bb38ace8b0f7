-- ===== src/Fec/Decode.antt =====
-- `UlpFecDecoder` of src/rtp_rtcp/ulp_fec.cc: its cache, and `Decode`.
use qo_srtp.Common.{
  ℕ, Bool, true, false, not, ◌&&◌, ◌||◌, Option, none, some, List, [], ◌∷◌, ◌++◌, map, leb, ◌==◌,
  if◌then◌else◌,
}
use qo_srtp.Seq.{is_seq_after, is_seq_before, is_seq_before_in_range, is_next_seq}
use qo_srtp.DataBuffer.{DataBuffer}
use qo_srtp.RtpPacket.Defs.{RtpPacket}
use qo_srtp.RtpPacket.Load.{load_packet}
use qo_srtp.RtpPacket.Copy.{create_copy}
use qo_srtp.Fec.Decoder.{FecDecoderConfig, CachedPacket, decode_fec_info, fec_recover_packet}

-- `cached_packets_` is in order on the circle, and no number is in it twice.
pub record UlpFecDecoder : Type 0 where
  pub config : FecDecoderConfig
  pub cached_packets : List CachedPacket
  pub has_output : Bool
  pub seq_last_output : ℕ

-- `FecDecoderConfigImpl::Configure`; `none` is an error.
unfoldable pub configure_decoder_config : ℕ → ℕ → ℕ → Option FecDecoderConfig
configure_decoder_config max_cache_seq_difference ssrc payload_type =
    if leb 128 payload_type
    then none
    else some (record {
      max_cache_seq_difference = max_cache_seq_difference;
      ssrc = ssrc;
      payload_type = payload_type;
    })

-- A new decoder that `Configure` is called on; `none` is an error.
unfoldable pub configure_decoder : Option FecDecoderConfig → Option UlpFecDecoder
configure_decoder none = none
configure_decoder (some config) =
    if leb 128 config.payload_type
    then none
    else some
        (record { config = config; cached_packets = []; has_output = false; seq_last_output = 0 })

unfoldable pub seq_of_cached : CachedPacket → ℕ
seq_of_cached c = c.rtp_struct.sequence_number

-- The search for the place, and the insertion there unless the number is cached.
unfoldable pub insert_cached : CachedPacket → List CachedPacket → List CachedPacket
insert_cached new [] = new ∷ []
insert_cached new (c ∷ cs) =
    let rest = insert_cached new cs in
    if seq_of_cached c == seq_of_cached new
    then c ∷ cs
    else if is_seq_before (seq_of_cached new) (seq_of_cached c)
    then new ∷ c ∷ cs
    else c ∷ rest

unfoldable pub find_cached : ℕ → List CachedPacket → Option CachedPacket
find_cached seq [] = none
find_cached seq (c ∷ cs) = if seq_of_cached c == seq then some c else find_cached seq cs

-- A change of the packet that a pointer into the cache stands for.
unfoldable pub replace_cached : CachedPacket → List CachedPacket → List CachedPacket
replace_cached new [] = []
replace_cached new (c ∷ cs) =
    if seq_of_cached c == seq_of_cached new then new ∷ cs else c ∷ replace_cached new cs

unfoldable pub new_cached : (ℕ → ℕ) → ℕ → RtpPacket → CachedPacket
new_cached memory fec_pt packet = decode_fec_info fec_pt (record {
  rtp_struct = packet;
  rtp_buffer = load_packet memory packet;
  is_fec = false;
  protected_seqs = [];
  media_packets = [];
  invalid_fec = false;
})

-- Whether a received packet is looked at.
unfoldable pub is_taken : UlpFecDecoder → RtpPacket → Bool
is_taken self packet =
    self.config.ssrc == packet.ssrc
    && not (self.has_output && is_seq_before packet.sequence_number self.seq_last_output)

unfoldable pub cache_packets : (ℕ → ℕ) → List RtpPacket → UlpFecDecoder → UlpFecDecoder
cache_packets memory [] self = self
cache_packets memory (packet ∷ packets) self =
    let new = new_cached memory self.config.payload_type packet in
    cache_packets memory packets (
      if is_taken self packet
      then record self { cached_packets = insert_cached new self.cached_packets }
      else self)

-- What the loop over the numbers that a FEC packet protects makes of them.
pub record Protected : Type 0 where
  pub entries : List (ℕ × Bool)
  pub found : List DataBuffer
  pub missing : List ℕ
  pub valid : Bool
  pub stale : Bool

abbrev nothing_protected : Protected
nothing_protected = record { entries = []; found = []; missing = []; valid = true; stale = false }

unfoldable pub look_for : UlpFecDecoder → ℕ → List (ℕ × Bool) → Protected
look_for self last_seq [] = nothing_protected
look_for self last_seq ((seq, received) ∷ rest) =
    let others = look_for self last_seq rest in
    let here : Protected = record others { entries = (seq, true) ∷ others.entries } in
    if self.has_output && not (is_seq_after self.seq_last_output seq)
    then record nothing_protected { entries = (seq, received) ∷ rest; valid = false; stale = true }
    else if is_seq_after last_seq seq
    then record nothing_protected { entries = (seq, received) ∷ rest; valid = false }
    else if received
    then here
    else elim (find_cached seq self.cached_packets) [
      | some c ↦ record here { found = c.rtp_buffer ∷ others.found }
      | none ↦ record others {
        entries = (seq, false) ∷ others.entries;
        missing = seq ∷ others.missing;
      }
    ]

-- The number of the last cached packet; `none` is the back of an empty vector.
unfoldable pub last_cached_seq : List CachedPacket → Option ℕ
last_cached_seq [] = none
last_cached_seq (c ∷ []) = some (seq_of_cached c)
last_cached_seq (c ∷ c' ∷ cs) = last_cached_seq (c' ∷ cs)

-- Whether a missing number is behind the last output and not behind the last cached packet.
unfoldable pub is_wanted : UlpFecDecoder → ℕ → Bool
is_wanted self seq = elim (last_cached_seq self.cached_packets) [
  | none ↦ false
  | some last ↦ not (is_seq_before seq self.seq_last_output) && not (is_seq_after last seq)
]

-- `need_insert` after the search for the place.
unfoldable pub needs_insert : CachedPacket → List CachedPacket → Bool
needs_insert new [] = true
needs_insert new (c ∷ cs) =
    if seq_of_cached c == seq_of_cached new
    then false
    else if is_seq_before (seq_of_cached new) (seq_of_cached c)
    then true
    else needs_insert new cs

-- A recovered packet goes into the cache, unless its number is there; the FEC packet is done then.
unfoldable pub keep_recovered : CachedPacket → CachedPacket → List CachedPacket → List CachedPacket
keep_recovered fec recovered cache =
    if needs_insert recovered cache
    then insert_cached recovered (replace_cached (record fec { invalid_fec = true }) cache)
    else cache

module _ (memory : ℕ → ℕ) (beyond : List ℕ) where
  -- What a FEC packet recovers of the missing numbers, if it is exactly one.
  unfoldable pub recover_missing : UlpFecDecoder → CachedPacket → List ℕ → List CachedPacket
  recover_missing self fec [] = self.cached_packets
  recover_missing self fec (seq ∷ seq' ∷ seqs) = self.cached_packets
  recover_missing self fec (seq ∷ []) =
      if not (is_wanted self seq)
      then self.cached_packets
      else elim (fec_recover_packet memory beyond self.config fec.rtp_buffer seq
          fec.media_packets) [
            | none ↦ self.cached_packets
            | some recovered ↦
                if seq_of_cached recovered == seq
                then keep_recovered fec recovered self.cached_packets
                else self.cached_packets
          ]

  -- The body of the loop over the FEC packets.
  unfoldable pub use_fec_packet : ℕ → UlpFecDecoder → CachedPacket → UlpFecDecoder
  use_fec_packet last_seq self fec =
      let seen = look_for self last_seq fec.protected_seqs in
      let fec' : CachedPacket = record fec {
        protected_seqs = seen.entries;
        media_packets = fec.media_packets ++ seen.found;
        invalid_fec = seen.stale;
      } in
      let marked : UlpFecDecoder = record self {
        cached_packets = replace_cached fec' self.cached_packets;
      } in
      if fec.invalid_fec
      then self
      else if not seen.valid
      then marked
      else record marked { cached_packets = recover_missing marked fec' seen.missing }

  -- The loop over the numbers of the FEC packets, which stand for the pointers to them.
  unfoldable pub use_fec_packets : ℕ → List ℕ → UlpFecDecoder → UlpFecDecoder
  use_fec_packets last_seq [] self = self
  use_fec_packets last_seq (seq ∷ seqs) self =
      use_fec_packets last_seq seqs (elim (find_cached seq self.cached_packets) [
        | none ↦ self
        | some fec ↦ use_fec_packet last_seq self fec
      ])

  unfoldable pub fec_seqs : List CachedPacket → List ℕ
  fec_seqs [] = []
  fec_seqs (c ∷ cs) = if c.is_fec then seq_of_cached c ∷ fec_seqs cs else fec_seqs cs

  -- `RcoverPackets`; `none` is the back of an empty vector.
  unfoldable pub recover_packets : UlpFecDecoder → Option UlpFecDecoder
  recover_packets self = elim (last_cached_seq self.cached_packets) [
    | none ↦ none
    | some last_seq ↦ some (use_fec_packets last_seq (fec_seqs self.cached_packets) self)
  ]

-- The first loop of `Decode`: what it hands over of the packets out of range, and what stays.
unfoldable pub take_old : UlpFecDecoder → ℕ → List CachedPacket → List RtpPacket × List CachedPacket
take_old self latest [] = ([], [])
take_old self latest (c ∷ cs) =
    let rest = take_old self latest cs in
    if is_seq_before_in_range (seq_of_cached c) latest self.config.max_cache_seq_difference
    then ([], c ∷ cs)
    else if not self.has_output || is_seq_after self.seq_last_output (seq_of_cached c)
    then (c.rtp_struct ∷ rest.0, rest.1)
    else rest

-- The second loop, with the number of the last packet that is handed over in this call, if any.
unfoldable pub follow :
    (ℕ → ℕ) → UlpFecDecoder → Option ℕ → List CachedPacket → Option (List RtpPacket)
follow memory self last [] = some []
follow memory self last (c ∷ cs) =
    let stops : Bool = elim last [
      | none ↦ self.has_output && not (is_seq_after self.seq_last_output (seq_of_cached c))
      | some seq ↦ not (is_next_seq seq (seq_of_cached c))
    ] in
    let rest = follow memory self (some (seq_of_cached c)) cs in
    let copied : Option (List RtpPacket) = elim (create_copy memory c.rtp_struct) [
      | none ↦ none
      | some packet ↦ elim rest [ none ↦ none | some packets ↦ some (packet ∷ packets) ]
    ] in
    if stops then some [] else copied

unfoldable pub last_seq_of : List RtpPacket → Option ℕ
last_seq_of [] = none
last_seq_of (packet ∷ []) = some packet.sequence_number
last_seq_of (packet ∷ packet' ∷ packets) = last_seq_of (packet' ∷ packets)

unfoldable pub note_output : List RtpPacket → UlpFecDecoder → UlpFecDecoder
note_output packets self = elim (last_seq_of packets) [
  | none ↦ self
  | some seq ↦ record self { has_output = true; seq_last_output = seq }
]

-- `Decode` into an empty vector; `none` is undefined behaviour.
unfoldable pub decode :
    (ℕ → ℕ) → List ℕ → List RtpPacket → UlpFecDecoder → Option (List RtpPacket × UlpFecDecoder)
decode memory beyond received_packets self =
    elim (recover_packets memory beyond (cache_packets memory received_packets self)) [
      | none ↦ none
      | some recovered ↦ elim (last_cached_seq recovered.cached_packets) [
        | none ↦ none
        | some latest ↦
            let old = take_old recovered latest recovered.cached_packets in
            elim (follow memory recovered (last_seq_of old.0) old.1) [
              | none ↦ none
              | some following ↦
                  let packets = old.0 ++ following in
                  some (packets, note_output packets (record recovered { cached_packets = old.1 }))
            ]
      ]
    ]

unfoldable pub flush : UlpFecDecoder → List RtpPacket × UlpFecDecoder
flush self =
    let packets = map (λ (c : CachedPacket). c.rtp_struct) self.cached_packets in
    (packets, note_output packets (record self { cached_packets = [] }))
