-- ===== src/ByteIo/RoundTrip.antt =====
-- Reading and writing of src/utils/byte_io.h undo one another.
use mathlib.Core.List.{reverse-reverse, reverse-append, append_assoc, append-nil}
use native.Mathlib.Nat.{pow-suc}
use qo_srtp.Common.{
  ℕ, zero, suc, ◌+◌, ◌*◌, ◌/◌, ◌^◌, ◌<◌, ◌≡◌, refl, sym, ap, ap₂, subst, ◌∙◌, List, [], ◌∷◌, ◌++◌,
  reverse, arith, length, take, All, take-length-append, IsU8,
}
use qo_srtp.ByteIo.{
  host_bytes, of_host_bytes, write_big_loop, write_big_endian, write_little_endian, read_big_endian,
  read_little_endian,
}

pub length-host_bytes : (n value : ℕ) → length (host_bytes n value) ≡ n
unfolding host_bytes
length-host_bytes zero value = refl
length-host_bytes (suc n) value = ap suc (length-host_bytes n (value / 256))

pub host_bytes-IsU8 : (n value : ℕ) → All IsU8 (host_bytes n value)
unfolding host_bytes
host_bytes-IsU8 zero value = tt
host_bytes-IsU8 (suc n) value = (omega arith, host_bytes-IsU8 n (value / 256))

pub write_big_loop-reverse : (bs out : List ℕ) → write_big_loop bs out ≡ reverse bs ++ out
unfolding write_big_loop
write_big_loop-reverse [] out = refl
write_big_loop-reverse (b ∷ bs) out =
    write_big_loop-reverse bs (b ∷ out)
    ∙ sym (ap (λ l. l ++ out) (reverse-append (b ∷ []) bs) ∙ append_assoc (reverse bs) (b ∷ []) out)

pub write_big_endian-reverse :
    (n value : ℕ) → write_big_endian n value ≡ reverse (host_bytes n value)
unfolding write_big_endian
write_big_endian-reverse n value = write_big_loop-reverse (host_bytes n value) [] ∙ append-nil _

length-write_big_loop : (bs out : List ℕ) → length (write_big_loop bs out) ≡ length bs + length out
unfolding write_big_loop
length-write_big_loop [] out = omega arith
length-write_big_loop (b ∷ bs) out = omega (arith, length-write_big_loop bs (b ∷ out))

pub length-write_big_endian : (n value : ℕ) → length (write_big_endian n value) ≡ n
unfolding write_big_endian
length-write_big_endian n value =
    omega (arith, length-write_big_loop (host_bytes n value) [], length-host_bytes n value)

pub of_host_bytes-host_bytes :
    (n value : ℕ) → value < 256 ^ n → of_host_bytes (host_bytes n value) ≡ value
unfolding host_bytes of_host_bytes
of_host_bytes-host_bytes zero value h = omega arith
of_host_bytes-host_bytes (suc n) value h =
    omega (arith, of_host_bytes-host_bytes n (value / 256) (omega (arith, pow-suc 256 n)))

pub host_bytes-of_host_bytes :
    (bs : List ℕ) → All IsU8 bs → host_bytes (length bs) (of_host_bytes bs) ≡ bs
unfolding host_bytes of_host_bytes
host_bytes-of_host_bytes [] h = refl
host_bytes-of_host_bytes (b ∷ bs) (hb, hbs) =
    let high : (b + 256 * of_host_bytes bs) / 256 ≡ of_host_bytes bs = omega arith in
    ap₂ ◌∷◌ (omega arith) (ap (host_bytes (length bs)) high ∙ host_bytes-of_host_bytes bs hbs)

-- A number that fits `n` bytes is read back from what was written, whatever follows it, in
-- network order and in the order of the host.
pub read-write :
    (n value : ℕ) (rest : List ℕ)
    → value < 256 ^ n
    → (read_big_endian n (write_big_endian n value ++ rest) ≡ value)
      × (read_little_endian n (write_little_endian n value ++ rest) ≡ value)
read-write n value rest h = (big, little)
  where
    front : take n (write_big_endian n value ++ rest) ≡ write_big_endian n value
    front =
        subst (λ k. take k (write_big_endian n value ++ rest) ≡ write_big_endian n value)
          (length-write_big_endian n value) (take-length-append (write_big_endian n value) rest)

    twice : write_big_loop (write_big_endian n value) [] ≡ host_bytes n value
    twice =
        write_big_loop-reverse (write_big_endian n value) []
        ∙ append-nil _
        ∙ ap reverse (write_big_endian-reverse n value)
        ∙ reverse-reverse (host_bytes n value)

    big : read_big_endian n (write_big_endian n value ++ rest) ≡ value
    big =
        unfold read_big_endian in
        ap (λ l. of_host_bytes (write_big_loop l [])) front
        ∙ ap of_host_bytes twice
        ∙ of_host_bytes-host_bytes n value h

    front' : take n (host_bytes n value ++ rest) ≡ host_bytes n value
    front' =
        subst (λ k. take k (host_bytes n value ++ rest) ≡ host_bytes n value)
          (length-host_bytes n value) (take-length-append (host_bytes n value) rest)

    little : read_little_endian n (write_little_endian n value ++ rest) ≡ value
    little =
        unfold read_little_endian write_little_endian in
        ap of_host_bytes front' ∙ of_host_bytes-host_bytes n value h
