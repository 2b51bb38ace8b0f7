-- ===== src/Fec/Tables.antt =====
-- What the tables of masks hold, and that `LookUpInFecTable` of src/rtp_rtcp/ulp_fec.cc finds it.
use qo_srtp.Common.{
  ℕ, ◌+◌, ◌-◌, ◌*◌, ◌≤◌, ◌<◌, ◌≡◌, refl, sym, ap₂, subst, ◌∙◌, Bool, true, false, not, ◌&&◌, List,
  [], ◌∷◌, arith, leb, ◌==◌, if◌then◌else◌, ==_iff, length, get_or, drop, passes, passes-at,
  some_passes, some_passes-at, &&-left, &&-right,
}
use qo_srtp.Fec.Random.{random_masks, packet_mask_random_tbl}
use qo_srtp.Fec.Bursty.{bursty_masks, packet_mask_bursty_tbl}
use qo_srtp.Fec.Masks.{
  FecMaskType, random, bursty, pick_table, skip_data, skip_media, look_up_in_fec_table, has_bit,
}

unfoldable pub masks_of : FecMaskType → List (List (List ℕ))
masks_of random = random_masks
masks_of bursty = bursty_masks

-- The macro for m media packets and f FEC packets.
unfoldable pub macro_of : FecMaskType → ℕ → ℕ → List ℕ
unfolding masks_of
macro_of t m f = get_or (get_or (masks_of t) (m - 1) []) (f - 1) []

-- Row r of a mask with rows of `mask_size` bytes.
abbrev pub row_of : ℕ → List ℕ → ℕ → List ℕ
row_of mask_size masks r = drop (r * mask_size) masks

same_list : List ℕ → List ℕ → Bool
same_list [] [] = true
same_list [] (y ∷ ys) = false
same_list (x ∷ xs) [] = false
same_list (x ∷ xs) (y ∷ ys) = x == y && same_list xs ys

same_list-eq : (xs ys : List ℕ) → same_list xs ys ≡ true → xs ≡ ys
unfolding same_list
same_list-eq [] [] h = refl
same_list-eq [] (y ∷ ys) h = cc
same_list-eq (x ∷ xs) [] h = cc
same_list-eq (x ∷ xs) (y ∷ ys) h =
    ap₂ ◌∷◌ ((==_iff x y).0 (&&-left (x == y) (same_list xs ys) h))
      (same_list-eq xs ys (&&-right (x == y) (same_list xs ys) h))

found_at : FecMaskType → ℕ → ℕ → Bool
unfolding same_list
found_at t m f = same_list (look_up_in_fec_table (pick_table t m) (m - 1) f) (macro_of t m f)

-- Each row protects a packet, each packet is in a row, and there is no bit behind the last packet.
rows_protect : FecMaskType → ℕ → ℕ → Bool
rows_protect t m f = passes (λ r. some_passes (has_bit (row_of 2 (macro_of t m f) r)) m) f

packets_protected : FecMaskType → ℕ → ℕ → Bool
packets_protected t m f =
    passes (λ x. some_passes (λ r. has_bit (row_of 2 (macro_of t m f) r) x) f) m

none_behind : FecMaskType → ℕ → ℕ → Bool
none_behind t m f =
    passes
      (λ r.
        passes (λ x. if leb m x then not (has_bit (row_of 2 (macro_of t m f) r) x) else true) 16)
      f

right_at : FecMaskType → ℕ → ℕ → Bool
unfolding found_at rows_protect packets_protected none_behind
right_at t m f =
    found_at t m f
    && (rows_protect t m f
        && (packets_protected t m f && (none_behind t m f && length (macro_of t m f) == f * 2)))

right_table : FecMaskType → Bool
right_table t = passes (λ m. passes (λ f. right_at t (m + 1) (f + 1)) (m + 1)) 12

random_right : right_table random ≡ true
unfolding right_table right_at macro_of masks_of passes pick_table skip_data skip_media
    look_up_in_fec_table has_bit random_masks packet_mask_random_tbl
random_right = refl

bursty_right : right_table bursty ≡ true
unfolding right_table right_at macro_of masks_of passes pick_table skip_data skip_media
    look_up_in_fec_table has_bit bursty_masks packet_mask_bursty_tbl
bursty_right = refl

table_right : (t : FecMaskType) → right_table t ≡ true
table_right random = random_right
table_right bursty = bursty_right

at_entry : (t : FecMaskType) (m f : ℕ) → 0 < m → m ≤ 12 → 0 < f → f ≤ m → right_at t m f ≡ true
unfolding right_table
at_entry t m f hm hm' hf hf' =
    let em : m - 1 + 1 ≡ m = omega arith in
    let ef : f - 1 + 1 ≡ f = omega arith in
    let outer =
      passes-at (λ m. passes (λ f. right_at t (m + 1) (f + 1)) (m + 1)) 12 (m - 1) (omega arith)
        (table_right t) in
    let inner =
      passes-at (λ f. right_at t (m - 1 + 1) (f + 1)) (m - 1 + 1) (f - 1) (omega arith) outer in
    ap₂ (right_at t) (sym em) (sym ef) ∙ inner

-- For up to 12 media packets and at most as many FEC packets, at least one of each, and both
-- tables: LookUpInFecTable returns the macro that is named for the two numbers, which has two bytes
-- for each FEC packet. Every FEC packet of it protects a media packet, every media packet is
-- protected by a FEC packet, and none that is not there is.
pub look_up_in_fec_table_protects :
    (t : FecMaskType) (m f : ℕ)
    → 0 < m
    → m ≤ 12
    → 0 < f
    → f ≤ m
    → let masks = look_up_in_fec_table (pick_table t m) (m - 1) f in
      (masks ≡ macro_of t m f)
      × (length masks ≡ f * 2)
      × ((r : ℕ) → r < f → (x : ℕ) × (x < m) × (has_bit (row_of 2 masks r) x ≡ true))
      × ((x : ℕ) → x < m → (r : ℕ) × (r < f) × (has_bit (row_of 2 masks r) x ≡ true))
      × ((r x : ℕ) → r < f → m ≤ x → x < 16 → has_bit (row_of 2 masks r) x ≡ false)
unfolding right_at found_at rows_protect packets_protected none_behind
look_up_in_fec_table_protects t m f hm hm' hf hf' =
    let M = macro_of t m f in
    let all = at_entry t m f hm hm' hf hf' in
    let found = &&-left (found_at t m f) _ all in
    let rest = &&-right (found_at t m f) _ all in
    let rows = &&-left (rows_protect t m f) _ rest in
    let rest2 = &&-right (rows_protect t m f) _ rest in
    let packets = &&-left (packets_protected t m f) _ rest2 in
    let rest3 = &&-right (packets_protected t m f) _ rest2 in
    let behind = &&-left (none_behind t m f) _ rest3 in
    let long = &&-right (none_behind t m f) _ rest3 in
    let e = same_list-eq (look_up_in_fec_table (pick_table t m) (m - 1) f) M found in
    subst
      (λ masks.
        (masks ≡ M)
        × (length masks ≡ f * 2)
        × ((r : ℕ) → r < f → (x : ℕ) × (x < m) × (has_bit (row_of 2 masks r) x ≡ true))
        × ((x : ℕ) → x < m → (r : ℕ) × (r < f) × (has_bit (row_of 2 masks r) x ≡ true))
        × ((r x : ℕ) → r < f → m ≤ x → x < 16 → has_bit (row_of 2 masks r) x ≡ false))
      (sym e)
      (
        refl,
        (==_iff (length M) (f * 2)).0 long,
        λ r hr.
            some_passes-at (has_bit (row_of 2 M r)) m
              (passes-at (λ r. some_passes (has_bit (row_of 2 M r)) m) f r hr rows),
        λ x hx.
            some_passes-at (λ r. has_bit (row_of 2 M r) x) f
              (passes-at (λ x. some_passes (λ r. has_bit (row_of 2 M r) x) f) m x hx packets),
        λ r x hr hx hx'.
            let at_r =
              passes-at
                (λ r. passes (λ x. if leb m x then not (has_bit (row_of 2 M r) x) else true) 16) f r
                hr behind in
            let at_x =
              passes-at (λ x. if leb m x then not (has_bit (row_of 2 M r) x) else true) 16 x hx'
                at_r in
            ground (arith, at_x),
      )
