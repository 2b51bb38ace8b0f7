-- ===== src/DataBuffer.antt =====
-- src/utils/data_buffer_impl.cc and .h: a byte buffer with a fixed capacity and a current size.
pub mod Bounds
pub mod Filling
use qo_srtp.Common.{
  ℕ, zero, suc, ◌+◌, ◌-◌, ◌*◌, ◌/◌, ◌%◌, ◌^◌, ◌≤◌, ◌<◌, min, max, bit_and, bit_or, bit_xor, ◌≡◌,
  refl, sym, ap, ap₂, subst, ◌∙◌, ◌≢◌, ◌↔◌, ◌⊎◌, inl, inr, Bool, true, false, not, ◌&&◌, ◌||◌,
  Option, none, some, List, [], ◌∷◌, ◌++◌, map, reverse, arith, ltb, leb, ◌==◌, if◌then◌else◌,
  ltb→lt, lt→ltb, le→ltb, leb→le, ==_iff, ==_ne, Bool-cases, Option-cases, length, get_or, take,
  drop, replicate, All, length-append, length-take, length-drop, length-replicate, take-append-drop,
  take-length-append, drop-length-append, take-all, u8, u16, u32, IsU8, IsU16, IsU32, inc16, sub16,
  sub32,
}

-- `buffer` is the allocated block. A `memcpy` or `memset` past its end is undefined in C++; here
-- the list then grows beyond the capacity, which the invariant of the buffer excludes.
pub record DataBuffer : Type 0 where
  pub size : ℕ
  pub capacity : ℕ
  pub buffer : List ℕ

-- The first `n` bytes of memory, from the address `from` on.
unfoldable pub block : (ℕ → ℕ) → ℕ → ℕ → List ℕ
block memory from zero = []
block memory from (suc n) = memory from ∷ block memory (from + 1) n

-- `new uint8_t[capacity]` does not initialise: `memory` is what the block held before.
unfoldable pub create : (ℕ → ℕ) → ℕ → DataBuffer
unfolding block
create memory capacity = record { size = 0; capacity = capacity; buffer = block memory 0 capacity }

unfoldable pub append : DataBuffer → ℕ → ℕ × DataBuffer
append b size_appended =
    let real =
      if ltb b.capacity (u32 (b.size + size_appended))
      then sub32 b.capacity b.size
      else size_appended in
    (real, record b { size = u32 (b.size + real) })

-- The difference is unsigned, so the comparison with 0 is written out as it is made.
unfoldable pub cut_tail : DataBuffer → ℕ → ℕ × DataBuffer
cut_tail b size_cut =
    let real = if ltb (sub32 b.size size_cut) 0 then b.size else size_cut in
    (real, record b { size = sub32 b.size real })

unfoldable pub set_size : DataBuffer → ℕ → ℕ × DataBuffer
set_size b size =
    let size' = if ltb b.capacity size then b.capacity else size in
    (size', record b { size = size' })

-- `memcpy(buffer + pos, from, length from)`.
unfoldable pub write : List ℕ → ℕ → List ℕ → List ℕ
write buffer pos from = take pos buffer ++ (from ++ drop (pos + length from) buffer)

unfoldable pub modify_at : DataBuffer → ℕ → List ℕ → ℕ → Bool × DataBuffer
unfolding write
modify_at b pos from size_modified =
    if ltb b.size pos || ltb b.size (u32 (pos + size_modified))
    then (false, b)
    else (true, record b { buffer = write b.buffer pos (take size_modified from) })

unfoldable pub mem_set : DataBuffer → ℕ → ℕ → ℕ → Bool × DataBuffer
unfolding write
mem_set b pos value size_set =
    if ltb b.size pos || ltb b.size (u32 (pos + size_set))
    then (false, b)
    else (true, record b { buffer = write b.buffer pos (replicate size_set value) })

-- The bytes from `pos` on, where the code returns a pointer to them; `none` is `nullptr`.
unfoldable pub at : DataBuffer → ℕ → Option (List ℕ)
at b pos = if ltb b.size pos then none else some (drop pos b.buffer)
