-- ===== src/Sdes/Chunks.antt =====
-- The chunks of src/rtp_rtcp/sdes.cc, as they are written and read.
use mathlib.Core.List.{append_assoc, append-nil}
use qo_srtp.Common.{
  ℕ, zero, suc, ◌+◌, ◌-◌, ◌%◌, ◌≤◌, ◌<◌, ◌≡◌, refl, sym, ap, ap₂, ◌∙◌, false, Option, none, some,
  List, [], ◌∷◌, ◌++◌, arith, ltb, le→ltb, length, take, drop, replicate, All, length-append,
  length-drop, length-replicate, take-length-append, drop-length-append, drop-add, drop_front, u8,
  u32, IsU32,
}
use qo_srtp.ByteIo.{write_big_endian, read_big_endian}
use qo_srtp.ByteIo.RoundTrip.{read-write, length-write_big_endian}
use qo_srtp.DataBuffer.{write}
use qo_srtp.DataBuffer.Filling.{write_next}
use qo_srtp.Sdes.Defs.{Chunk, chunk_size, chunk_bytes, load_chunks, read_items, align, read_chunks}

-- With as much fuel as there are bytes the loop over the items ends by itself: more changes nothing.
read_items_fuel :
    (n m : ℕ) (cname : Option (List ℕ)) (bytes : List ℕ)
    → length bytes ≤ n
    → length bytes ≤ m
    → read_items (suc n) cname bytes ≡ read_items (suc m) cname bytes
unfolding read_items
read_items_fuel n m cname [] hn hm = refl
read_items_fuel n m cname (zero ∷ bytes) hn hm = refl
read_items_fuel n m cname (suc t ∷ []) hn hm = refl
read_items_fuel zero m cname (suc t ∷ l ∷ bytes) hn hm = absurd (omega arith)
read_items_fuel (suc n) zero cname (suc t ∷ l ∷ bytes) hn hm = absurd (omega arith)
read_items_fuel (suc n) (suc m) none (suc zero ∷ l ∷ bytes) hn hm =
    rw
      (read_items_fuel n m (some (take l bytes)) (drop l bytes) (omega (arith, length-drop l bytes))
        (omega (arith, length-drop l bytes)))
      refl
read_items_fuel (suc n) (suc m) (some x) (suc zero ∷ l ∷ bytes) hn hm = refl
read_items_fuel (suc n) (suc m) cname (suc (suc t) ∷ l ∷ bytes) hn hm =
    rw
      (read_items_fuel n m cname (drop l bytes) (omega (arith, length-drop l bytes))
        (omega (arith, length-drop l bytes)))
      refl

pub record IsChunk (c : Chunk) : Type 0 where
  pub source : IsU32 c.ssrc
  pub short_name : length c.cname ≤ 255

abbrev pub padding : Chunk → ℕ
padding c = 4 - (6 + length c.cname) % 4

-- A chunk with the zeros behind it.
pub padded_bytes : Chunk → List ℕ
padded_bytes c = chunk_bytes c ++ replicate (padding c) 0

pub chunks_bytes : List Chunk → List ℕ
chunks_bytes [] = []
chunks_bytes (c ∷ cs) = padded_bytes c ++ chunks_bytes cs

unfoldable pub sizes : List Chunk → ℕ
sizes [] = 0
sizes (c ∷ cs) = 6 + length c.cname + padding c + sizes cs

length-chunk_bytes : (c : Chunk) → length (chunk_bytes c) ≡ 6 + length c.cname
unfolding chunk_bytes
length-chunk_bytes c = omega (
  arith,
  length-append (write_big_endian 4 c.ssrc) (1 ∷ u8 (length c.cname) ∷ c.cname),
  length-write_big_endian 4 c.ssrc,
)

length-padded_bytes : (c : Chunk) → length (padded_bytes c) ≡ 6 + length c.cname + padding c
unfolding padded_bytes
length-padded_bytes c =
    let zeros : length {A = ℕ} (replicate (padding c) 0) ≡ padding c =
      length-replicate (padding c) 0 in
    omega
      (arith, length-append (chunk_bytes c) (replicate (padding c) 0), length-chunk_bytes c, zeros)

pub length-chunks_bytes : (cs : List Chunk) → length (chunks_bytes cs) ≡ sizes cs
unfolding chunks_bytes sizes
length-chunks_bytes [] = refl
length-chunks_bytes (c ∷ cs) = omega (
  arith,
  length-append (padded_bytes c) (chunks_bytes cs),
  length-padded_bytes c,
  length-chunks_bytes cs,
)

pub sizes_aligned : (cs : List Chunk) → sizes cs % 4 ≡ 0
unfolding sizes
sizes_aligned [] = refl
sizes_aligned (c ∷ cs) = omega (arith, sizes_aligned cs)

pub load_chunks-bytes :
    (cs : List Chunk) (acc rest : List ℕ) (pos : ℕ)
    → length acc ≡ pos
    → load_chunks cs (acc ++ rest) pos
      ≡ ((acc ++ chunks_bytes cs) ++ drop (sizes cs) rest, pos + sizes cs)
unfolding load_chunks chunks_bytes sizes padded_bytes
load_chunks-bytes [] acc rest pos h =
    ap₂ (λ xs p. (xs ++ rest, p)) (sym (append-nil acc)) (let e : pos ≡ pos + 0 = omega arith in e)
load_chunks-bytes (c ∷ cs) acc rest pos h =
    let n = 6 + length c.cname in
    let K = chunk_bytes c in
    let Z : List ℕ = replicate (padding c) 0 in
    let zeros : length Z ≡ padding c = length-replicate (padding c) 0 in
    let l1 : length (acc ++ K) ≡ pos + n =
      omega (arith, h, length-append acc K, length-chunk_bytes c) in
    let l2 : length ((acc ++ K) ++ Z) ≡ pos + n + padding c =
      omega (arith, l1, length-append (acc ++ K) Z, zeros) in
    let first = write_next acc rest K pos n h (length-chunk_bytes c) in
    let second = write_next (acc ++ K) (drop n rest) Z (pos + n) (padding c) l1 zeros in
    let left : drop (sizes cs) (drop (padding c) (drop n rest))
        ≡ drop (n + padding c + sizes cs) rest =
      ap (drop (sizes cs)) (drop-add n (padding c) rest)
      ∙ drop-add (n + padding c) (sizes cs) rest in
    let joined : ((acc ++ K) ++ Z) ++ chunks_bytes cs ≡ acc ++ ((K ++ Z) ++ chunks_bytes cs) =
      append_assoc (acc ++ K) Z (chunks_bytes cs)
      ∙ append_assoc acc K (Z ++ chunks_bytes cs)
      ∙ ap (λ l. acc ++ l) (sym (append_assoc K Z (chunks_bytes cs))) in
    let end : pos + n + padding c + sizes cs ≡ pos + (n + padding c + sizes cs) = omega arith in
    ap (λ p. load_chunks cs (write p (pos + n) Z) (pos + n + padding c)) first
    ∙ ap (λ p. load_chunks cs p (pos + n + padding c)) second
    ∙ load_chunks-bytes cs ((acc ++ K) ++ Z) (drop (padding c) (drop n rest)) (pos + n + padding c)
        l2
    ∙ ap₂ (λ p q. (p, q)) (ap₂ ◌++◌ joined left) end

read_items-name :
    (k : ℕ) (name z : List ℕ)
    → read_items (suc (suc k)) none (1 ∷ length name ∷ (name ++ (0 ∷ z))) ≡ some (some name, z)
unfolding read_items
read_items-name k name z =
    let fits : ltb (length (name ++ (0 ∷ z))) (length name + 1) ≡ false =
      le→ltb (length (name ++ (0 ∷ z))) (length name + 1)
        (omega (arith, length-append name (0 ∷ z))) in
    rw (fits, drop-length-append name (0 ∷ z), take-length-append name (0 ∷ z)) refl

-- The zeros behind the first one.
abbrev filling : Chunk → List ℕ
filling c = replicate (3 - (6 + length c.cname) % 4) 0

padded_bytes-parts :
    (c : Chunk) (tail : List ℕ)
    → IsChunk c
    → padded_bytes c ++ tail
      ≡ write_big_endian 4 c.ssrc ++ (1 ∷ length c.cname ∷ (c.cname ++ (0 ∷ (filling c ++ tail))))
unfolding padded_bytes chunk_bytes
padded_bytes-parts c tail v =
    let S = write_big_endian 4 c.ssrc in
    let Z : List ℕ = replicate (padding c) 0 in
    let few : u8 (length c.cname) ≡ length c.cname = omega (arith, v.short_name) in
    let one : padding c ≡ suc (3 - (6 + length c.cname) % 4) = omega arith in
    append_assoc (S ++ (1 ∷ u8 (length c.cname) ∷ c.cname)) Z tail
    ∙ append_assoc S (1 ∷ u8 (length c.cname) ∷ c.cname) (Z ++ tail)
    ∙ ap₂ (λ n k. S ++ (1 ∷ n ∷ (c.cname ++ (replicate k 0 ++ tail)))) few one

-- A chunk is read: its source, its name, and what is left at the end of the word.
chunk_found :
    (c : Chunk) (tail : List ℕ)
    → IsChunk c
    → length tail % 4 ≡ 0
    → (ltb (length (padded_bytes c ++ tail)) 8 ≡ false)
      × (read_big_endian 4 (padded_bytes c ++ tail) ≡ c.ssrc)
      × (read_items (length (padded_bytes c ++ tail)) none (drop 4 (padded_bytes c ++ tail))
          ≡ some (some c.cname, filling c ++ tail))
      × (align (filling c ++ tail) ≡ tail)
unfolding align
chunk_found c tail v aligned =
    let S = write_big_endian 4 c.ssrc in
    let B = padded_bytes c ++ tail in
    let I = 1 ∷ length c.cname ∷ (c.cname ++ (0 ∷ (filling c ++ tail))) in
    let parts = padded_bytes-parts c tail v in
    let long : length B ≡ 6 + length c.cname + padding c + length tail =
      omega (arith, length-append (padded_bytes c) tail, length-padded_bytes c) in
    let fuel : length B ≡ suc (suc (length B - 2)) = omega (arith, long) in
    let behind : drop 4 B ≡ I =
      ap (drop 4) parts ∙ drop_front S I 4 (length-write_big_endian 4 c.ssrc) in
    let zeros : length (filling c) ≡ 3 - (6 + length c.cname) % 4 =
      length-replicate (3 - (6 + length c.cname) % 4) 0 in
    let odd : length (filling c ++ tail) % 4 ≡ length (filling c) =
      omega (arith, length-append (filling c) tail, zeros, aligned) in
    (
      le→ltb (length B) 8 (omega (arith, long)),
      ap (read_big_endian 4) parts ∙ (read-write 4 c.ssrc I v.source).0,
      ap₂ (λ n l. read_items n none l) fuel behind
          ∙ read_items-name (length B - 2) c.cname (filling c ++ tail),
      ap (λ k. drop k (filling c ++ tail)) odd ∙ drop-length-append (filling c) tail,
    )

pub chunk_size-sum : (c : Chunk) → IsChunk c → chunk_size c ≡ 6 + length c.cname + padding c
unfolding chunk_size
chunk_size-sum c v = omega (arith, v.short_name)

pub read_chunks-bytes :
    (cs read : List Chunk) (total : ℕ)
    → All IsChunk cs
    → total + sizes cs < 4294967296
    → read_chunks (length cs) read total (chunks_bytes cs)
      ≡ some (record { chunks = read ++ cs; chunks_buffer_length = total + sizes cs })
unfolding read_chunks chunks_bytes sizes
read_chunks-bytes [] read total h small = λ i. some (record {
  chunks = sym (append-nil read) i;
  chunks_buffer_length = (let e : total ≡ total + 0 = omega arith in e) i;
})
read_chunks-bytes (c ∷ cs) read total h small =
    let aligned : length (chunks_bytes cs) % 4 ≡ 0 =
      ap (λ n. n % 4) (length-chunks_bytes cs) ∙ sizes_aligned cs in
    let found = chunk_found c (chunks_bytes cs) h.0 aligned in
    let more : u32 (total + chunk_size c) ≡ total + (6 + length c.cname + padding c) =
      omega (arith, chunk_size-sum c h.0, small) in
    let next =
      read_chunks-bytes cs (read ++ (c ∷ [])) (total + (6 + length c.cname + padding c)) h.1
        (omega (arith, small)) in
    rw (read_chunks, found.0, found.2, found.1, found.3, more, next)
      (λ i. some (record {
        chunks = append_assoc read (c ∷ []) cs i;
        chunks_buffer_length =
            (let e : total + (6 + length c.cname + padding c) + sizes cs
                    ≡ total + (6 + length c.cname + padding c + sizes cs) =
                  omega arith in
                e)
              i;
      }))
