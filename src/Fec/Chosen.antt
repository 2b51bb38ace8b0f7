-- ===== src/Fec/Chosen.antt =====
-- The groups of packets that `GenerateFecPackets` of src/rtp_rtcp/ulp_fec.cc gathers by a mask.
use qo_srtp.Common.{
  ℕ, zero, suc, ◌+◌, ◌≤◌, ◌<◌, max, ◌≡◌, refl, ap, ◌∙◌, inl, inr, true, false, some, List, [], ◌∷◌,
  map, arith, if◌then◌else◌, Bool-cases, length, All,
}
use qo_srtp.Fec.Masks.{has_bit}
use qo_srtp.Fec.Packet.{RtpPacketData, source_length}
use qo_srtp.Fec.Encoder.{gather}

-- The elements whose bits of a row are set, for a list that starts with bit i.
unfoldable pub chosen {ℓ} : {A : Type ℓ} → List ℕ → ℕ → List A → List A
chosen row i [] = []
chosen row i (x ∷ xs) = let rest = chosen row (i + 1) xs in if has_bit row i then x ∷ rest else rest

pub chosen-map {ℓ κ} :
    {A : Type ℓ} {B : Type κ} (f : A → B) (row : List ℕ) (i : ℕ) (xs : List A)
    → chosen row i (map f xs) ≡ map f (chosen row i xs)
unfolding chosen
chosen-map f row i [] = refl
chosen-map f row i (x ∷ xs) = elim (Bool-cases (has_bit row i)) [
  | inl e ↦ rw (e, chosen-map f row (i + 1) xs) refl
  | inr e ↦ rw (e, chosen-map f row (i + 1) xs) refl
]

pub chosen-All {ℓ κ} :
    {A : Type ℓ} (P : A → Type κ) (row : List ℕ) (i : ℕ) (xs : List A)
    → All P xs
    → All P (chosen row i xs)
unfolding chosen
chosen-All P row i [] h = tt
chosen-All P row i (x ∷ xs) (h, hs) = elim (Bool-cases (has_bit row i)) [
  | inl e ↦ rw e (h, chosen-All P row (i + 1) xs hs)
  | inr e ↦ rw e (chosen-All P row (i + 1) xs hs)
]

-- A set bit of an element chooses one.
pub chosen_some {ℓ} :
    {A : Type ℓ} (row : List ℕ) (i k : ℕ) (xs : List A)
    → k < length xs
    → has_bit row (i + k) ≡ true
    → (x : A) × (rest : List A) × (chosen row i xs ≡ x ∷ rest)
unfolding chosen
chosen_some row i k [] h e = absurd (omega arith)
chosen_some row i zero (x ∷ xs) h e =
    let here : has_bit row i ≡ true = ap (has_bit row) (let z : i ≡ i + 0 = omega arith in z) ∙ e in
    (x, chosen row (i + 1) xs, rw here refl)
chosen_some row i (suc k) (x ∷ xs) h e =
    let later : has_bit row (i + 1 + k) ≡ true =
      ap (has_bit row) (let z : i + 1 + k ≡ i + suc k = omega arith in z) ∙ e in
    let (y, rest, found) = chosen_some row (i + 1) k xs (omega arith) later in
    elim (Bool-cases (has_bit row i)) [
      | inl here ↦ (x, chosen row (i + 1) xs, rw here refl)
      | inr other ↦ (y, rest, rw other found)
    ]

-- The greatest length of packets, and at least `max_length`.
pub longest : ℕ → List RtpPacketData → ℕ
longest max_length [] = max_length
longest max_length (packet ∷ packets) = longest (max max_length (source_length packet)) packets

pub longest-le :
    (m : ℕ) (xs : List RtpPacketData)
    → (m ≤ longest m xs) × All (λ p. source_length p ≤ longest m xs) xs
unfolding longest
longest-le m [] = (omega arith, tt)
longest-le m (x ∷ xs) =
    let (here, later) = longest-le (max m (source_length x)) xs in
    (omega (arith, here), (omega (arith, here), later))

pub longest_bound :
    (m bound : ℕ) (xs : List RtpPacketData)
    → m ≤ bound
    → All (λ p. source_length p ≤ bound) xs
    → longest m xs ≤ bound
unfolding longest
longest_bound m bound [] h hs = h
longest_bound m bound (x ∷ xs) h (hx, hs) =
    longest_bound (max m (source_length x)) bound xs (omega (arith, h, hx)) hs

-- Without bits behind the last packet, the packets of a row are gathered with their greatest length.
pub gather-chosen :
    (row : List ℕ) (rounds i : ℕ) (media : List RtpPacketData) (m : ℕ)
    → length media ≤ rounds
    → ((x : ℕ) → i + length media ≤ x → x < i + rounds → has_bit row x ≡ false)
    → gather row rounds i media m ≡ some (chosen row i media, longest m (chosen row i media))
unfolding gather chosen longest
gather-chosen row zero i [] m h none_behind = refl
gather-chosen row zero i (p ∷ media) m h none_behind = absurd (omega arith)
gather-chosen row (suc rounds) i [] m h none_behind =
    let here = none_behind i (omega arith) (omega arith) in
    let later =
      gather-chosen row rounds (i + 1) [] m (omega arith)
        (λ x lo hi. none_behind x (omega arith) (omega arith)) in
    rw (gather, here, later) refl
gather-chosen row (suc rounds) i (p ∷ media) m h none_behind =
    let behind = λ (x : ℕ) (lo : i + 1 + length media ≤ x) (hi : x < i + 1 + rounds).
      none_behind x (omega arith) (omega arith) in
    let skipped = gather-chosen row rounds (i + 1) media m (omega arith) behind in
    let taken =
      gather-chosen row rounds (i + 1) media (max m (source_length p)) (omega arith) behind in
    elim (Bool-cases (has_bit row i)) [
      | inl e ↦ rw (gather, e, taken, longest) refl
      | inr e ↦ rw (gather, e, skipped) refl
    ]
