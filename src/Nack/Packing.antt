-- ===== src/Nack/Packing.antt =====
-- `Unpack` of what `Pack` of src/rtp_rtcp/nack.cc makes.
use mathlib.Core.List.{append_assoc}
use native.Mathlib.Nat.{pow-suc}
use qo_srtp.Common.{
  ℕ, zero, suc, ◌+◌, ◌-◌, ◌/◌, ◌%◌, ◌^◌, ◌≤◌, ◌<◌, bit_or, ◌≡◌, refl, sym, ap, ap₂, ◌∙◌, inl, inr,
  true, false, ◌||◌, List, [], ◌∷◌, ◌++◌, arith, ltb, ◌==◌, if◌then◌else◌, ==_ne, Bool-cases, All,
  u16, IsU16,
}
use qo_srtp.Bits.{bit_or-power}
use qo_srtp.Seq.{is_seq_after, is_seq_after_in_range}
use qo_srtp.Nack.Defs.{PackedNack, shift_of, pack_from, pack, unpack_mask, unpack_item, unpack}

unpack_mask-zero : (rounds pid : ℕ) → unpack_mask rounds 0 pid ≡ []
unfolding unpack_mask
unpack_mask-zero zero pid = refl
unpack_mask-zero (suc rounds) pid = refl

-- A mask that fits the rounds has run out: more rounds change nothing.
pub unpack_mask-enough :
    (rounds bitmask pid : ℕ)
    → bitmask < 2 ^ rounds
    → unpack_mask (suc rounds) bitmask pid ≡ unpack_mask rounds bitmask pid
unfolding unpack_mask
unpack_mask-enough zero bitmask pid h = ground arith
unpack_mask-enough (suc rounds) bitmask pid h =
    let smaller : bitmask / 2 < 2 ^ rounds = omega (arith, pow-suc 2 rounds) in
    rw (unpack_mask, unpack_mask-enough rounds (bitmask / 2) (u16 (pid + 1)) smaller) refl

-- One round, whether the mask has run out or not.
abbrev pick : ℕ → ℕ → List ℕ → List ℕ
pick bit pid rest = if bit == 1 then pid ∷ rest else rest

unpack_mask-pick :
    (rounds bitmask pid : ℕ)
    → unpack_mask (suc rounds) bitmask pid
      ≡ pick (bitmask % 2) pid (unpack_mask rounds (bitmask / 2) (u16 (pid + 1)))
unfolding unpack_mask
unpack_mask-pick rounds zero pid = sym (unpack_mask-zero rounds (u16 (pid + 1)))
unpack_mask-pick rounds (suc bitmask) pid =
    rw (unpack_mask, ==_ne (suc bitmask) 0 (λ e. omega arith)) refl

pick-append : (bit pid : ℕ) (xs ys : List ℕ) → pick bit pid (xs ++ ys) ≡ pick bit pid xs ++ ys
pick-append bit pid xs ys = elim (Bool-cases (bit == 1)) [
  | inl e ↦ rw (e) refl
  | inr e ↦ rw (e) refl
]

-- A new highest digit adds its number at the end.
unpack_mask-power :
    (s rounds bitmask pid : ℕ)
    → s < rounds
    → bitmask < 2 ^ s
    → IsU16 pid
    → unpack_mask rounds (bitmask + 2 ^ s) pid
      ≡ unpack_mask rounds bitmask pid ++ (u16 (pid + s) ∷ [])
unpack_mask-power s zero bitmask pid hs hm hp = absurd (omega arith)
unpack_mask-power zero (suc rounds) bitmask pid hs hm hp =
    let none_set : bitmask ≡ 0 = omega arith in
    let same : pid ≡ u16 (pid + 0) = omega arith in
    ap (λ k. unpack_mask (suc rounds) (k + 1) pid) none_set
    ∙ unpack_mask-pick rounds 1 pid
    ∙ ap (pick 1 pid) (unpack_mask-zero rounds (u16 (pid + 1)))
    ∙ ap (λ k. k ∷ []) same
    ∙ sym (
        ap (λ k. unpack_mask (suc rounds) k pid ++ (u16 (pid + 0) ∷ [])) none_set
        ∙ ap (λ r. r ++ (u16 (pid + 0) ∷ [])) (unpack_mask-zero (suc rounds) pid))
unpack_mask-power (suc s) (suc rounds) bitmask pid hs hm hp =
    let half : (bitmask + 2 ^ suc s) / 2 ≡ bitmask / 2 + 2 ^ s = omega (arith, pow-suc 2 s) in
    let bit : (bitmask + 2 ^ suc s) % 2 ≡ bitmask % 2 = omega (arith, pow-suc 2 s) in
    let next : u16 (u16 (pid + 1) + s) ≡ u16 (pid + suc s) = omega arith in
    let rest =
      unpack_mask-power s rounds (bitmask / 2) (u16 (pid + 1)) (omega arith)
        (omega (arith, pow-suc 2 s)) (omega arith) in
    unpack_mask-pick rounds (bitmask + 2 ^ suc s) pid
    ∙ ap₂ (λ b h. pick b pid (unpack_mask rounds h (u16 (pid + 1)))) bit half
    ∙ ap (pick (bitmask % 2) pid) rest
    ∙ pick-append (bitmask % 2) pid _ _
    ∙ ap₂ (λ xs k. xs ++ (k ∷ [])) (sym (unpack_mask-pick rounds bitmask pid)) next

-- The numbers "increase" with the index: each is after the one before it on the circle.
abbrev pub Increases : ℕ → List ℕ → Type 0
Increases last [] = Unit {0}
Increases last (id ∷ ids) = IsU16 id × (is_seq_after last id ≡ true) × Increases id ids

abbrev pub AreIncreasing : List ℕ → Type 0
AreIncreasing [] = Unit {0}
AreIncreasing (id ∷ ids) = IsU16 id × Increases id ids

-- Behind the last number of an item, a number belongs to it only above all digits of its mask.
shift_of-above :
    (first last id : ℕ)
    → first ≤ last
    → last ≤ first + 16
    → IsU16 last
    → IsU16 id
    → is_seq_after last id ≡ true
    → (ltb id first || ltb 15 (shift_of first id)) ≡ false
    → (first + 1 + shift_of first id ≡ id) × (last < id) × (shift_of first id < 16)
unfolding shift_of is_seq_after is_seq_after_in_range
shift_of-above first last id hf hl wl wi ha hs = (ground arith, ground arith, ground arith)

pow_pos : (n : ℕ) → 0 < 2 ^ n
pow_pos zero = omega arith
pow_pos (suc n) = omega (arith, pow-suc 2 n, pow_pos n)

pow_mono : (n k : ℕ) → n ≤ k → 2 ^ n ≤ 2 ^ k
pow_mono zero k h = pow_pos k
pow_mono (suc n) zero h = absurd (omega arith)
pow_mono (suc n) (suc k) h = omega (arith, pow-suc 2 n, pow-suc 2 k, pow_mono n k (omega arith))

-- A number that is added to an item comes out of it as the last one.
unpack_item-add :
    (item : PackedNack) (last id : ℕ)
    → item.first_pid ≤ last
    → IsU16 id
    → item.bitmask < 2 ^ (last - item.first_pid)
    → (item.first_pid + 1 + shift_of item.first_pid id ≡ id)
      × (last < id)
      × (shift_of item.first_pid id < 16)
    → let added = bit_or item.bitmask (2 ^ shift_of item.first_pid id) in
      (added < 2 ^ (id - item.first_pid))
      × (unpack_item (record item { bitmask = added }) ≡ unpack_item item ++ (id ∷ []))
unfolding unpack_item
unpack_item-add item last id hf wi hm (sum, later, small) =
    let s = shift_of item.first_pid id in
    let low : item.bitmask < 2 ^ s =
      omega (arith, hm, pow_mono (last - item.first_pid) s (omega (arith, sum, later))) in
    let e = bit_or-power s item.bitmask low in
    let up : id - item.first_pid ≡ suc s = omega (arith, sum) in
    let here : u16 (u16 (item.first_pid + 1) + s) ≡ id = omega (arith, sum) in
    let mask =
      unpack_mask-power s 16 item.bitmask (u16 (item.first_pid + 1)) small low (omega arith) in
    (
      omega (arith, e, low, ap (λ k. 2 ^ k) up, pow-suc 2 s),
      ap (λ k. item.first_pid ∷ unpack_mask 16 k (u16 (item.first_pid + 1))) e
          ∙ ap (◌∷◌ item.first_pid) (
              mask
              ∙ ap (λ k. unpack_mask 16 item.bitmask (u16 (item.first_pid + 1)) ++ (k ∷ [])) here),
    )

unpack_item-begun : (id : ℕ) → unpack_item (record { first_pid = id; bitmask = 0 }) ≡ id ∷ []
unfolding unpack_item
unpack_item-begun id = ap (◌∷◌ id) (unpack_mask-zero 16 (u16 (id + 1)))

unpack-pack_from :
    (item : PackedNack) (last : ℕ) (ids : List ℕ)
    → item.first_pid ≤ last
    → last ≤ item.first_pid + 16
    → IsU16 last
    → item.bitmask < 2 ^ (last - item.first_pid)
    → Increases last ids
    → unpack (pack_from item ids) ≡ unpack_item item ++ ids
unfolding pack_from unpack
unpack-pack_from item last [] hf hl wl hm inc = refl
unpack-pack_from item last (id ∷ ids) hf hl wl hm inc =
    elim (Bool-cases (ltb id item.first_pid || ltb 15 (shift_of item.first_pid id))) [
      | inl e ↦
          let begun : PackedNack = record { first_pid = id; bitmask = 0 } in
          let rest =
            unpack-pack_from begun id ids (omega arith) (omega arith) inc.0 (pow_pos (id - id))
              inc.2 in
          rw (pack_from, e)
            (ap (λ r. unpack_item item ++ r) (rest ∙ ap (λ r. r ++ ids) (unpack_item-begun id)))
      | inr e ↦
          let parts = shift_of-above item.first_pid last id hf hl wl inc.0 inc.1 e in
          let added = unpack_item-add item last id hf inc.0 hm parts in
          let more : PackedNack = record item {
            bitmask = bit_or item.bitmask (2 ^ shift_of item.first_pid id);
          } in
          let rest =
            unpack-pack_from more id ids (omega (arith, parts.0)) (omega (arith, parts.0, parts.2))
              inc.0 added.0 inc.2 in
          rw (pack_from, e)
            (rest ∙ ap (λ r. r ++ ids) added.1 ∙ append_assoc (unpack_item item) (id ∷ []) ids)
    ]

-- `Unpack` of what `Pack` makes are the numbers again, if they "increase" with the index, as the
-- header asks: each one is after the one before it on the circle. A wrap begins a new item.
pub unpack-pack : (ids : List ℕ) → AreIncreasing ids → unpack (pack ids) ≡ ids
unfolding pack unpack
unpack-pack [] h = refl
unpack-pack (id ∷ ids) h =
    let begun : PackedNack = record { first_pid = id; bitmask = 0 } in
    unpack-pack_from begun id ids (omega arith) (omega arith) h.0 (pow_pos (id - id)) h.1
    ∙ ap (λ r. r ++ ids) (unpack_item-begun id)

-- Both numbers of an item fit a `uint16_t`.
abbrev pub IsItem : PackedNack → Type 0
IsItem item = IsU16 item.first_pid × IsU16 item.bitmask

pack_from-IsItem :
    (item : PackedNack) (last : ℕ) (ids : List ℕ)
    → item.first_pid ≤ last
    → last ≤ item.first_pid + 16
    → IsU16 last
    → item.bitmask < 2 ^ (last - item.first_pid)
    → Increases last ids
    → All IsItem (pack_from item ids)
unfolding pack_from
pack_from-IsItem item last [] hf hl wl hm inc =
    ((omega arith, omega (arith, hm, pow_mono (last - item.first_pid) 16 (omega arith))), tt)
pack_from-IsItem item last (id ∷ ids) hf hl wl hm inc =
    elim (Bool-cases (ltb id item.first_pid || ltb 15 (shift_of item.first_pid id))) [
      | inl e ↦
          let begun : PackedNack = record { first_pid = id; bitmask = 0 } in
          let rest =
            pack_from-IsItem begun id ids (omega arith) (omega arith) inc.0 (pow_pos (id - id))
              inc.2 in
          rw (pack_from, e)
            (
              (omega arith, omega (arith, hm, pow_mono (last - item.first_pid) 16 (omega arith))),
              rest,
            )
      | inr e ↦
          let parts = shift_of-above item.first_pid last id hf hl wl inc.0 inc.1 e in
          let added = unpack_item-add item last id hf inc.0 hm parts in
          let more : PackedNack = record item {
            bitmask = bit_or item.bitmask (2 ^ shift_of item.first_pid id);
          } in
          rw (pack_from, e)
            (pack_from-IsItem more id ids (omega (arith, parts.0)) (omega (arith, parts.0, parts.2))
              inc.0 added.0 inc.2)
    ]

pub pack-IsItem : (ids : List ℕ) → AreIncreasing ids → All IsItem (pack ids)
unfolding pack
pack-IsItem [] h = tt
pack-IsItem (id ∷ ids) h =
    pack_from-IsItem (record { first_pid = id; bitmask = 0 }) id ids (omega arith) (omega arith) h.0
      (pow_pos (id - id)) h.1
