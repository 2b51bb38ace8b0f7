-- ===== src/Fec/Folds.antt =====
-- Operations that undo themselves, such as the exclusive or of src/rtp_rtcp/ulp_fec.cc, folded over
-- a list.
use qo_srtp.Common.{
  ℕ, zero, suc, ◌-◌, ◌≤◌, ◌≡◌, refl, sym, ap, ap₂, subst, ◌∙◌, List, [], ◌∷◌, ◌++◌, arith, length,
  replicate,
}
use qo_srtp.Bits.Xor.{bit_xor-cancel, bit_xor-swap, bit_xor-zero, zero-bit_xor}
use qo_srtp.Fec.Packet.{xor_into}

unfoldable pub fold {ℓ κ} : {A : Type ℓ} {B : Type κ} → (A → B → A) → A → List B → A
fold op d [] = d
fold op d (x ∷ xs) = fold op (op d x) xs

pub fold-append {ℓ κ} :
    {A : Type ℓ} {B : Type κ} (op : A → B → A) (d : A) (xs ys : List B)
    → fold op d (xs ++ ys) ≡ fold op (fold op d xs) ys
unfolding fold
fold-append op d [] ys = refl
fold-append op d (x ∷ xs) ys = fold-append op (op d x) xs ys

module _ {ℓ κ} {A : Type ℓ} {B : Type κ} (op : A → B → A)
    (swap : (d : A) (a b : B) → op (op d a) b ≡ op (op d b) a)
    (cancel : (d : A) (a : B) → op (op d a) a ≡ d) where
  fold-pull : (d : A) (a : B) (xs : List B) → fold op (op d a) xs ≡ op (fold op d xs) a
  unfolding fold
  fold-pull d a [] = refl
  fold-pull d a (x ∷ xs) = ap (λ e. fold op e xs) (swap d a x) ∙ fold-pull (op d x) a xs

  fold-step : (d : A) (a : B) (xs : List B) → fold op d (a ∷ xs) ≡ op (fold op d xs) a
  unfolding fold
  fold-step d a xs = fold-pull d a xs

  fold-cancel : (d : A) (xs : List B) → fold op (fold op d xs) xs ≡ d
  unfolding fold
  fold-cancel d [] = refl
  fold-cancel d (x ∷ xs) =
      ap (λ e. fold op (op e x) xs) (fold-pull d x xs)
      ∙ ap (λ e. fold op e xs) (cancel (fold op d xs) x)
      ∙ fold-cancel d xs

  -- Folded over all elements, and over all but one again, the one is left.
  pub fold_but :
      (d : A) (before : List B) (x : B) (after : List B)
      → fold op (fold op d (before ++ x ∷ after)) (before ++ after) ≡ op d x
  fold_but d before x after =
      let whole : fold op d (before ++ x ∷ after) ≡ op (fold op d (before ++ after)) x =
        fold-append op d before (x ∷ after)
        ∙ fold-step (fold op d before) x after
        ∙ ap (λ e. op e x) (sym (fold-append op d before after)) in
      ap (λ e. fold op e (before ++ after)) whole
      ∙ fold-pull (fold op d (before ++ after)) x (before ++ after)
      ∙ ap (λ e. op e x) (fold-cancel d (before ++ after))

pub xor_into-swap : (d a b : List ℕ) → xor_into (xor_into d a) b ≡ xor_into (xor_into d b) a
unfolding xor_into
xor_into-swap [] a b = refl
xor_into-swap (d ∷ ds) [] [] = refl
xor_into-swap (d ∷ ds) [] (b ∷ bs) = refl
xor_into-swap (d ∷ ds) (a ∷ as') [] = refl
xor_into-swap (d ∷ ds) (a ∷ as') (b ∷ bs) = ap₂ ◌∷◌ (bit_xor-swap d a b) (xor_into-swap ds as' bs)

pub xor_into-cancel : (d a : List ℕ) → xor_into (xor_into d a) a ≡ d
unfolding xor_into
xor_into-cancel [] a = refl
xor_into-cancel (d ∷ ds) [] = refl
xor_into-cancel (d ∷ ds) (a ∷ as') = ap₂ ◌∷◌ (bit_xor-cancel d a) (xor_into-cancel ds as')

pub xor_into-nil : (d : List ℕ) → xor_into d [] ≡ d
unfolding xor_into
xor_into-nil [] = refl
xor_into-nil (d ∷ ds) = refl

pub xor_into-zeros : (d : List ℕ) (n : ℕ) → xor_into d (replicate n 0) ≡ d
unfolding xor_into
xor_into-zeros d zero = xor_into-nil d
xor_into-zeros [] (suc n) = refl
xor_into-zeros (d ∷ ds) (suc n) = ap₂ ◌∷◌ (bit_xor-zero d) (xor_into-zeros ds n)

pub length-xor_into : (d a : List ℕ) → length (xor_into d a) ≡ length d
unfolding xor_into
length-xor_into [] a = refl
length-xor_into (d ∷ ds) [] = refl
length-xor_into (d ∷ ds) (a ∷ as') = ap suc (length-xor_into ds as')

-- Zeros become a list that is not longer, and zeros behind it.
pub zeros-xor_into :
    (n : ℕ) (a : List ℕ)
    → length a ≤ n
    → xor_into (replicate n 0) a ≡ a ++ replicate (n - length a) 0
unfolding xor_into
zeros-xor_into n [] h =
    let e : n ≡ n - 0 = omega arith in xor_into-nil (replicate n 0) ∙ ap (λ k. replicate k 0) e
zeros-xor_into zero (a ∷ as') h = absurd (omega arith)
zeros-xor_into (suc n) (a ∷ as') h =
    let e : n - length as' ≡ suc n - length (a ∷ as') = omega arith in
    subst (λ k. xor_into (replicate (suc n) 0) (a ∷ as') ≡ a ∷ (as' ++ replicate k 0)) e
      (ap₂ ◌∷◌ (zero-bit_xor a) (zeros-xor_into n as' (omega arith)))

-- What holds of the length holds along a fold.
pub length-fold {κ} :
    {B : Type κ} (f : B → List ℕ) (d : List ℕ) (xs : List B)
    → length (fold (λ e x. xor_into e (f x)) d xs) ≡ length d
unfolding fold
length-fold f d [] = refl
length-fold f d (x ∷ xs) = length-fold f (xor_into d (f x)) xs ∙ length-xor_into d (f x)
