-- ===== src/ByteIo.antt =====
-- src/utils/byte_io.h: fixed-width numbers in byte buffers, for unsigned types. The host that the
-- program is built for keeps the least significant byte of a number first.
pub mod RoundTrip
use qo_srtp.Common.{
  ℕ, zero, suc, ◌+◌, ◌-◌, ◌*◌, ◌/◌, ◌%◌, ◌^◌, ◌≤◌, ◌<◌, min, max, bit_and, bit_or, bit_xor, ◌≡◌,
  refl, sym, ap, ap₂, subst, ◌∙◌, ◌≢◌, ◌↔◌, ◌⊎◌, inl, inr, Bool, true, false, not, ◌&&◌, ◌||◌,
  Option, none, some, List, [], ◌∷◌, ◌++◌, map, reverse, arith, ltb, leb, ◌==◌, if◌then◌else◌,
  ltb→lt, lt→ltb, le→ltb, leb→le, ==_iff, ==_ne, Bool-cases, Option-cases, length, get_or, take,
  drop, replicate, All, length-append, length-take, length-drop, length-replicate, take-append-drop,
  take-length-append, drop-length-append, take-all, u8, u16, u32, IsU8, IsU16, IsU32, inc16, sub16,
  sub32,
}

-- The bytes of a variable of `n` bytes in the memory of the host.
unfoldable pub host_bytes : ℕ → ℕ → List ℕ
host_bytes zero value = []
host_bytes (suc n) value = value % 256 ∷ host_bytes n (value / 256)

-- The number that bytes in the memory of the host stand for.
unfoldable pub of_host_bytes : List ℕ → ℕ
of_host_bytes [] = 0
of_host_bytes (b ∷ bs) = b + 256 * of_host_bytes bs

-- Round i stores byte i of the number at `buffer + (B - 1) - i`, in front of the earlier ones.
unfoldable pub write_big_loop : List ℕ → List ℕ → List ℕ
write_big_loop [] out = out
write_big_loop (b ∷ bs) out = write_big_loop bs (b ∷ out)

unfoldable pub write_big_endian : ℕ → ℕ → List ℕ
unfolding host_bytes write_big_loop
write_big_endian size value = write_big_loop (host_bytes size value) []

unfoldable pub write_little_endian : ℕ → ℕ → List ℕ
unfolding host_bytes
write_little_endian size value = host_bytes size value

-- Round i stores `buffer[(B - 1) - i]` as byte i of the number: the buffer, last byte first.
unfoldable pub read_big_endian : ℕ → List ℕ → ℕ
unfolding write_big_loop of_host_bytes
read_big_endian size buffer = of_host_bytes (write_big_loop (take size buffer) [])

unfoldable pub read_little_endian : ℕ → List ℕ → ℕ
unfolding of_host_bytes
read_little_endian size buffer = of_host_bytes (take size buffer)
