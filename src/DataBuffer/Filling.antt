-- ===== src/DataBuffer/Filling.antt =====
-- A buffer that is filled from its front on, with `write` of src/utils/data_buffer_impl.cc.
use mathlib.Core.List.{append_assoc}
use qo_srtp.Common.{
  ℕ, ◌+◌, ◌≡◌, sym, ap, ap₂, ◌∙◌, List, ◌++◌, arith, length, drop, length-append, drop-add,
  drop_front, take_front,
}
use qo_srtp.DataBuffer.{write}

-- A write where the buffer is filled so far.
pub write_next :
    (acc rest from : List ℕ) (pos n : ℕ)
    → length acc ≡ pos
    → length from ≡ n
    → write (acc ++ rest) pos from ≡ (acc ++ from) ++ drop n rest
unfolding write
write_next acc rest from pos n h hn =
    let front = take_front acc rest pos h in
    let back =
      sym (drop-add pos (length from) (acc ++ rest))
      ∙ ap (drop (length from)) (drop_front acc rest pos h)
      ∙ ap (λ k. drop k rest) hn in
    ap₂ (λ xs ys. xs ++ (from ++ ys)) front back ∙ sym (append_assoc acc from (drop n rest))

-- Two writes, one after the other.
pub write_twice :
    (acc rest first second : List ℕ) (pos pos' n : ℕ)
    → length acc ≡ pos
    → length first ≡ n
    → length second ≡ n
    → pos' ≡ pos + n
    → write (write (acc ++ rest) pos first) pos' second
      ≡ ((acc ++ first) ++ second) ++ drop (n + n) rest
write_twice acc rest first second pos pos' n h hf hs hp =
    ap (λ b. write b pos' second) (write_next acc rest first pos n h hf)
    ∙ write_next (acc ++ first) (drop n rest) second pos' n
        (omega (arith, length-append acc first, h, hf, hp)) hs
    ∙ ap (λ r. ((acc ++ first) ++ second) ++ r) (drop-add n n rest)
