-- ===== src/Bye/Parts.antt =====
-- The sources and the reason of src/rtp_rtcp/bye.cc, as they are written and read.
use mathlib.Core.List.{append_assoc, append-nil}
use qo_srtp.Common.{
  ℕ, zero, suc, ◌+◌, ◌-◌, ◌*◌, ◌/◌, ◌%◌, ◌≤◌, ◌≡◌, refl, sym, ap, ap₂, ◌∙◌, false, ◌&&◌, List, [],
  ◌∷◌, ◌++◌, arith, ltb, if◌then◌else◌, lt→ltb, le→ltb, length, get_or, take, drop, replicate, All,
  length-append, length-replicate, take-length-append, take-all, drop-add, drop_front, u8, IsU32,
  sub32,
}
use qo_srtp.ByteIo.{write_big_endian, read_big_endian}
use qo_srtp.ByteIo.RoundTrip.{read-write, length-write_big_endian}
use qo_srtp.DataBuffer.Filling.{write_next}
use qo_srtp.Bye.Defs.{Bye, reason_words, load_csrcs, pad_zeros, load_reason, read_csrcs}

-- What `SetCsrcs` and `SetReason` accept.
pub record IsBye (self : Bye) : Type 0 where
  pub sender : IsU32 self.sender_ssrc
  pub sources : All IsU32 self.csrcs
  pub few_sources : length self.csrcs ≤ 30
  pub short_reason : length self.reason ≤ 255

-- Numbers of four bytes in a row.
unfoldable pub csrcs_bytes : List ℕ → List ℕ
csrcs_bytes [] = []
csrcs_bytes (c ∷ cs) = write_big_endian 4 c ++ csrcs_bytes cs

pub length-csrcs_bytes : (cs : List ℕ) → length (csrcs_bytes cs) ≡ length cs * 4
unfolding csrcs_bytes
length-csrcs_bytes [] = refl
length-csrcs_bytes (c ∷ cs) = omega (
  arith,
  length-append (write_big_endian 4 c) (csrcs_bytes cs),
  length-write_big_endian 4 c,
  length-csrcs_bytes cs,
)

pub load_csrcs-bytes :
    (cs acc rest : List ℕ) (pos : ℕ)
    → length acc ≡ pos
    → load_csrcs cs (acc ++ rest) pos
      ≡ ((acc ++ csrcs_bytes cs) ++ drop (length cs * 4) rest, pos + length cs * 4)
unfolding load_csrcs csrcs_bytes
load_csrcs-bytes [] acc rest pos h =
    ap₂ (λ xs p. (xs ++ rest, p)) (sym (append-nil acc)) (let e : pos ≡ pos + 0 = omega arith in e)
load_csrcs-bytes (c ∷ cs) acc rest pos h =
    let W = write_big_endian 4 c in
    let long : length (acc ++ W) ≡ pos + 4 =
      omega (arith, h, length-append acc W, length-write_big_endian 4 c) in
    let left : drop (length cs * 4) (drop 4 rest) ≡ drop (suc (length cs) * 4) rest =
      drop-add 4 (length cs * 4) rest
      ∙ ap (λ k. drop k rest)
          (let e : 4 + length cs * 4 ≡ suc (length cs) * 4 = omega arith in e) in
    let end : pos + 4 + length cs * 4 ≡ pos + suc (length cs) * 4 = omega arith in
    ap (λ p. load_csrcs cs p (pos + 4))
      (write_next acc rest W pos 4 h (length-write_big_endian 4 c))
    ∙ load_csrcs-bytes cs (acc ++ W) (drop 4 rest) (pos + 4) long
    ∙ ap₂ (λ p q. (p, q)) (ap₂ ◌++◌ (append_assoc acc W (csrcs_bytes cs)) left) end

pub read_csrcs-bytes :
    (cs rest : List ℕ) → All IsU32 cs → read_csrcs (length cs) (csrcs_bytes cs ++ rest) ≡ cs
unfolding read_csrcs csrcs_bytes
read_csrcs-bytes [] rest h = refl
read_csrcs-bytes (c ∷ cs) rest h =
    let W = write_big_endian 4 c in
    let whole = append_assoc W (csrcs_bytes cs) rest in
    let behind =
      ap (drop 4) whole ∙ drop_front W (csrcs_bytes cs ++ rest) 4 (length-write_big_endian 4 c) in
    ap₂ ◌∷◌ (ap (read_big_endian 4) whole ∙ (read-write 4 c (csrcs_bytes cs ++ rest) h.0).0)
      (ap (read_csrcs (length cs)) behind ∙ read_csrcs-bytes cs rest h.1)

-- The characters with their number in front and zeros behind, up to the end of a word.
pub reason_bytes : List ℕ → List ℕ
reason_bytes [] = []
reason_bytes (r ∷ rs) = length (r ∷ rs) ∷ ((r ∷ rs) ++ replicate (3 - length (r ∷ rs) % 4) 0)

pad_zeros-bytes :
    (n : ℕ) (acc rest : List ℕ) (pos : ℕ)
    → length acc ≡ pos
    → pad_zeros n (acc ++ rest) pos ≡ ((acc ++ replicate n 0) ++ drop n rest, pos + n)
unfolding pad_zeros
pad_zeros-bytes zero acc rest pos h =
    ap₂ (λ xs p. (xs ++ rest, p)) (sym (append-nil acc)) (let e : pos ≡ pos + 0 = omega arith in e)
pad_zeros-bytes (suc n) acc rest pos h =
    let some_zeros = lt→ltb 0 (suc n) (omega arith) in
    rw (pad_zeros, some_zeros)
      (ap (λ b. (b, pos + suc n))
        (write_next acc rest (replicate (suc n) 0) pos (suc n) h (length-replicate (suc n) 0)))

pub load_reason-bytes :
    (reason acc rest : List ℕ) (pos index_end : ℕ)
    → length acc ≡ pos
    → length reason ≤ 255
    → index_end ≡ pos + 4 * reason_words reason
    → IsU32 index_end
    → load_reason reason index_end (acc ++ rest) pos
      ≡ ((acc ++ reason_bytes reason) ++ drop (4 * reason_words reason) rest, index_end)
unfolding load_reason reason_bytes reason_words
load_reason-bytes [] acc rest pos index_end h short he small =
    ap₂ (λ xs p. (xs ++ rest, p)) (sym (append-nil acc))
      (let e : pos ≡ index_end = omega (arith, he) in e)
load_reason-bytes (r ∷ rs) acc rest pos index_end h short he small =
    let reason = r ∷ rs in
    let n = length reason in
    let N = n ∷ [] in
    let counted : u8 n ≡ n = omega (arith, short) in
    let padding : sub32 index_end (pos + 1 + n) ≡ 3 - n % 4 = omega (arith, he, small) in
    let l1 : length (acc ++ N) ≡ pos + 1 = omega (arith, h, length-append acc N) in
    let l2 : length ((acc ++ N) ++ reason) ≡ pos + 1 + n =
      omega (arith, l1, length-append (acc ++ N) reason) in
    let first = write_next acc rest N pos 1 h refl in
    let second = write_next (acc ++ N) (drop 1 rest) reason (pos + 1) n l1 refl in
    let third =
      pad_zeros-bytes (3 - n % 4) ((acc ++ N) ++ reason) (drop n (drop 1 rest)) (pos + 1 + n) l2 in
    let joined : ((acc ++ N) ++ reason) ++ replicate (3 - n % 4) 0
        ≡ acc ++ (n ∷ (reason ++ replicate (3 - n % 4) 0)) =
      append_assoc (acc ++ N) reason _ ∙ append_assoc acc N _ in
    let left : drop (3 - n % 4) (drop n (drop 1 rest)) ≡ drop (4 * (n / 4 + 1)) rest =
      ap (drop (3 - n % 4)) (drop-add 1 n rest)
      ∙ drop-add (1 + n) (3 - n % 4) rest
      ∙ ap (λ k. drop k rest) (let e : 1 + n + (3 - n % 4) ≡ 4 * (n / 4 + 1) = omega arith in e) in
    let end : pos + 1 + n + (3 - n % 4) ≡ index_end = omega (arith, he) in
    rw (load_reason, counted, take-all reason, padding, first, second, third)
      (ap₂ (λ b p. (b, p)) (ap₂ ◌++◌ joined left) end)

pub length-reason_bytes : (reason : List ℕ) → length (reason_bytes reason) ≡ 4 * reason_words reason
unfolding reason_bytes reason_words
length-reason_bytes [] = refl
length-reason_bytes (r ∷ rs) =
    let n = length (r ∷ rs) in
    let Z : List ℕ = replicate (3 - n % 4) 0 in
    let zeros : length Z ≡ 3 - n % 4 = length-replicate (3 - n % 4) 0 in
    omega (arith, length-append (r ∷ rs) Z, zeros)

pub reason_words_few : (reason : List ℕ) → length reason ≤ 255 → reason_words reason ≤ 64
unfolding reason_words
reason_words_few [] h = omega arith
reason_words_few (r ∷ rs) h = omega (arith, h)

get_or-drop : (n : ℕ) (xs : List ℕ) → get_or xs n 0 ≡ get_or (drop n xs) 0 0
get_or-drop zero xs = refl
get_or-drop (suc n) [] = refl
get_or-drop (suc n) (x ∷ xs) = get_or-drop n xs

-- What `StorePacket` reads of a reason that stands at `n` and ends the payload.
pub reason_found :
    (reason payload more : List ℕ) (n size : ℕ)
    → length reason ≤ 255
    → drop n payload ≡ reason_bytes reason ++ more
    → size ≡ n + 4 * reason_words reason
    → (ltb size n ≡ false)
      × ((ltb n size && ltb (size - n) (1 + (if ltb n size then get_or payload n 0 else 0)))
          ≡ false)
      × ((if ltb n size
            then take (if ltb n size then get_or payload n 0 else 0) (drop (n + 1) payload)
            else [])
          ≡ reason)
unfolding reason_bytes reason_words
reason_found [] payload more n size short there e =
    let no_reason = le→ltb n size (omega (arith, e)) in
    (le→ltb size n (omega (arith, e)), rw (no_reason) refl, rw (no_reason) refl)
reason_found (r ∷ rs) payload more n size short there e =
    let reason = r ∷ rs in
    let a_reason = lt→ltb n size (omega (arith, e)) in
    let count : get_or payload n 0 ≡ length reason =
      get_or-drop n payload ∙ ap (λ l. get_or l 0 0) there in
    let fits = le→ltb (size - n) (1 + length reason) (omega (arith, e)) in
    let behind : drop (n + 1) payload ≡ reason ++ (replicate (3 - length reason % 4) 0 ++ more) =
      sym (drop-add n 1 payload)
      ∙ ap (drop 1) there
      ∙ append_assoc reason (replicate (3 - length reason % 4) 0) more in
    (
      le→ltb size n (omega (arith, e)),
      rw (a_reason, count, fits) refl,
      rw (a_reason, count, behind) (take-length-append reason _),
    )
