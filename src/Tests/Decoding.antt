-- ===== src/Tests/Decoding.antt =====
-- `UlpFecDecoder` of src/rtp_rtcp/ulp_fec.cc at concrete inputs.
use qo_srtp.Common.{ℕ, ◌<◌, ◌≡◌, refl, ◌↔◌, ◌⊎◌, true, false, [], ◌∷◌, arith}
use qo_srtp.RtpPacket.Defs.{payload_type}
use qo_srtp.ReceiverCache.Window.{InWindow}
use qo_srtp.Fec.Decoder.{CachedPacket, decode_fec_info}
use qo_srtp.Fec.Decode.{
  UlpFecDecoder, seq_of_cached, new_cached, is_taken, cache_packets, recover_missing,
}
use qo_srtp.Fec.Cache.{Ascends, IsCached, IsReceived, cache_packets-Ascends}
use qo_srtp.Fec.Stalls.{recover_missing_before_output}
use qo_srtp.Tests.Protecting.{media, stale, decoder_config}

-- Packet 65535 was handed over and is still cached; packet 0 arrives.
abbrev cached_last : CachedPacket
cached_last = new_cached stale 100 (media 65535 1)

abbrev waiting : UlpFecDecoder
waiting = record {
  config = decoder_config;
  cached_packets = cached_last ∷ [];
  has_output = true;
  seq_last_output = 65535;
}

abbrev arrived : UlpFecDecoder
arrived = cache_packets stale (media 0 2 ∷ []) waiting

abbrev started : UlpFecDecoder
started = record {
  config = decoder_config;
  cached_packets = cached_last ∷ [];
  has_output = false;
  seq_last_output = 0;
}

recover_missing_before_output_example :
    recover_missing stale [] started (new_cached stale 100 (media 40002 1)) (40001 ∷ [])
    ≡ started.cached_packets
recover_missing_before_output_example =
    recover_missing_before_output stale [] started (new_cached stale 100 (media 40002 1))
      (40001 ∷ []) refl (omega arith)

near-InWindow : (s : ℕ) → s < 2 → InWindow 65534 s
near-InWindow s h = record { word = omega arith; low = omega arith; high = omega arith }

last-InWindow : InWindow 65534 65535
last-InWindow = record { word = omega arith; low = omega arith; high = omega arith }

cache_packets-Ascends_example :
    let out = cache_packets stale (media 1 1 ∷ media 0 2 ∷ []) waiting in
    Ascends 65534 0 out.cached_packets
    × ((n : ℕ)
        → IsCached n out.cached_packets ↔ (
            IsCached n waiting.cached_packets
            ⊎ IsReceived (is_taken waiting) n (media 1 1 ∷ media 0 2 ∷ [])))
unfolding seq_of_cached new_cached decode_fec_info payload_type
cache_packets-Ascends_example =
    cache_packets-Ascends stale 65534 (media 1 1 ∷ media 0 2 ∷ []) waiting (omega arith)
      (λ _. near-InWindow 1 (omega arith), (λ _. near-InWindow 0 (omega arith), tt))
      (last-InWindow, omega arith, tt)
