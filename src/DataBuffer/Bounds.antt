-- ===== src/DataBuffer/Bounds.antt =====
-- Sizes and bounds of the buffer of src/utils/data_buffer_impl.cc.
use mathlib.Core.List.{append-nil}
use qo_srtp.Common.{
  ℕ, zero, suc, ◌+◌, ◌-◌, ◌≤◌, ◌<◌, min, ◌≡◌, refl, ap, ◌⊎◌, inl, inr, true, false, List, [], ◌++◌,
  arith, ltb, ltb→lt, Bool-cases, length, take, drop, length-append, length-take, length-drop,
  take-all, drop-all, IsU32,
}
use qo_srtp.DataBuffer.{DataBuffer, block, create, append, cut_tail, set_size, write, modify_at}

-- The size is within the capacity, and the block is as long as the capacity says.
pub record IsValid (b : DataBuffer) : Type 0 where
  pub fits : b.size ≤ b.capacity
  pub whole : length b.buffer ≡ b.capacity
  pub small : b.capacity < 4294967296

pub length-block : (memory : ℕ → ℕ) (from n : ℕ) → length (block memory from n) ≡ n
unfolding block
length-block memory from zero = refl
length-block memory from (suc n) = ap suc (length-block memory (from + 1) n)

pub length-write :
    (buffer : List ℕ) (pos : ℕ) (from : List ℕ)
    → pos + length from ≤ length buffer
    → length (write buffer pos from) ≡ length buffer
unfolding write
length-write buffer pos from h = omega (
  arith,
  length-append (take pos buffer) (from ++ drop (pos + length from) buffer),
  length-append from (drop (pos + length from) buffer),
  length-take pos buffer,
  length-drop (pos + length from) buffer,
)

-- `Create`, `SetSize`, `Append` and `CutTail` (of no more than the size) give a valid buffer, and
-- the returned number is the change: as many bytes as asked for, or as fit.
pub sizes-IsValid :
    (memory : ℕ → ℕ) (capacity : ℕ) (b : DataBuffer) (n : ℕ)
    → IsU32 capacity
    → IsValid b
    → IsValid (create memory capacity)
      × (IsValid (set_size b n).1 × ((set_size b n).1.size ≡ min n b.capacity))
      × (b.size + n < 4294967296
          → IsValid (append b n).1
            × ((append b n).0 ≡ min n (b.capacity - b.size))
            × ((append b n).1.size ≡ b.size + (append b n).0))
      × (n ≤ b.size
          → IsValid (cut_tail b n).1
            × ((cut_tail b n).0 ≡ n)
            × ((cut_tail b n).1.size + n ≡ b.size))
unfolding create set_size append cut_tail
sizes-IsValid memory capacity b n hc v = (
  record { fits = omega arith; whole = length-block memory 0 capacity; small = hc },
  (ground arith, ground arith),
  λ h. (ground arith, ground arith, ground arith),
  λ h. (ground arith, ground arith, ground arith),
)

-- `CutTail` of more than the size does not stop at 0: the unsigned difference is never negative,
-- so the guard never holds, all of `n` is reported as cut and the size wraps round.
pub cut_tail_wraps :
    (b : DataBuffer) (n : ℕ)
    → IsValid b
    → IsU32 n
    → b.size < n
    → ((cut_tail b n).0 ≡ n) × ((cut_tail b n).1.size ≡ b.size + 4294967296 - n)
unfolding cut_tail
cut_tail_wraps b n v hn h = (ground arith, ground arith)

-- Where `pos + n` does not wrap, `ModifyAt` accepts exactly the ranges within the size, and then
-- exactly the bytes of the range become those given: what stands before and behind it, the size
-- and the capacity stay, and the buffer stays valid. Refused, it changes nothing.
pub modify_at_lem :
    (b : DataBuffer) (pos : ℕ) (from : List ℕ)
    → IsValid b
    → pos + length from < 4294967296
    → ((pos + length from ≤ b.size)
        × ((modify_at b pos from (length from)).0 ≡ true)
        × IsValid (modify_at b pos from (length from)).1
        × ((modify_at b pos from (length from)).1.size ≡ b.size)
        × ((modify_at b pos from (length from)).1.buffer
            ≡ take pos b.buffer ++ (from ++ drop (pos + length from) b.buffer)))
      ⊎ ((b.size < pos + length from) × (modify_at b pos from (length from) ≡ (false, b)))
unfolding modify_at
modify_at_lem b pos from v h = elim (Bool-cases (ltb b.size (pos + length from))) [
  | inl over ↦ inr (ltb→lt _ _ over, ground arith)
  | inr within ↦
      let le : pos + length from ≤ b.size = ground arith in
      inl (
        le,
        ground arith,
        ground (arith, take-all from, length-write b.buffer pos from),
        ground arith,
        ground (arith, take-all from),
      )
]

-- Where `pos + n` wraps round, `ModifyAt` may accept a range that leaves the block.
pub modify_at_overruns :
    (b : DataBuffer) (pos : ℕ) (from : List ℕ)
    → IsValid b
    → pos ≤ b.size
    → 4294967296 ≤ pos + length from
    → pos + length from ≤ 4294967296 + b.size
    → ((modify_at b pos from (length from)).0 ≡ true)
      × ¬ IsValid (modify_at b pos from (length from)).1
unfolding modify_at write
modify_at_overruns b pos from v hp lo hi = (
  ground arith,
  λ w. absurd (
      ground (
        arith,
        take-all from,
        length-append (take pos b.buffer) (from ++ drop (pos + length from) b.buffer),
        length-append from (drop (pos + length from) b.buffer),
        length-take pos b.buffer,
        w.whole,
        w.small,
      )),
)

-- A buffer made for `n` bytes, set to its full size and filled: nothing is left of what the
-- allocated block held before.
pub modify_at_fills :
    (memory : ℕ → ℕ) (n : ℕ) (from : List ℕ)
    → IsU32 n
    → n ≤ length from
    → (modify_at (set_size (create memory n) n).1 0 from n).1
      ≡ record { size = n; capacity = n; buffer = take n from }
unfolding create set_size modify_at write
modify_at_fills memory n from hn h =
    let e = length-take n from in
    let b : drop (0 + length (take n from)) (block memory 0 n) ≡ [] =
      drop-all (0 + length (take n from)) (block memory 0 n)
        (omega (arith, e, length-block memory 0 n)) in
    ground (arith, b, append-nil (take n from))

-- A buffer that is set to its whole capacity, and what fills it then.
pub set_size-capacity :
    (memory : ℕ → ℕ) (n : ℕ) → (set_size (create memory n) (create memory n).capacity).1.size ≡ n
unfolding create set_size
set_size-capacity memory n = ground arith

pub modify_at_capacity :
    (memory : ℕ → ℕ) (n : ℕ) (from : List ℕ)
    → IsU32 n
    → n ≤ length from
    → (modify_at (set_size (create memory n) (create memory n).capacity).1 0 from n).1
      ≡ record { size = n; capacity = n; buffer = take n from }
unfolding create
modify_at_capacity memory n from hn h = modify_at_fills memory n from hn h
