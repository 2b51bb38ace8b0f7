-- ===== src/Router/Destinations.antt =====
-- The destinations of src/rtp_rtcp/rtp_rtcp_router.cc.
use qo_srtp.Common.{
  ℕ, ◌≡◌, refl, sym, ap, subst, ◌∙◌, inl, inr, Bool, true, false, ◌||◌, Option, none, some, List,
  [], ◌∷◌, ◌++◌, map, arith, ◌==◌, if◌then◌else◌, ==_iff, Bool-cases, Option-cases, All,
}
use qo_srtp.RtpPacket.Defs.{RtpPacket}
use qo_srtp.Router.{is_among, add_dst, remove_dst, find_dst, on_rtp}

-- No destination stands in the list twice.
abbrev pub AreDistinct : List ℕ → Type 0
AreDistinct [] = Unit {0}
AreDistinct (d ∷ ds) = (is_among d ds ≡ false) × AreDistinct ds

is_among-append :
    (d dst : ℕ) (ds : List ℕ) → is_among d (ds ++ (dst ∷ [])) ≡ (is_among d ds || (dst == d))
is_among-append d dst [] = ground arith
is_among-append d dst (x ∷ ds) = ground (arith, is_among-append d dst ds)

append-AreDistinct :
    (dst : ℕ) (ds : List ℕ)
    → is_among dst ds ≡ false
    → AreDistinct ds
    → AreDistinct (ds ++ (dst ∷ []))
append-AreDistinct dst [] h d = (refl, tt)
append-AreDistinct dst (x ∷ ds) h d =
    ground (arith, is_among-append x dst ds, append-AreDistinct dst ds)

remove-is_among :
    (d dst : ℕ) (ds : List ℕ) → is_among d ds ≡ false → is_among d (remove_dst dst ds) ≡ false
unfolding remove_dst
remove-is_among d dst [] h = refl
remove-is_among d dst (x ∷ ds) h = ground (arith, remove-is_among d dst ds)

removed : (dst : ℕ) (ds : List ℕ) → AreDistinct ds → is_among dst (remove_dst dst ds) ≡ false
unfolding remove_dst
removed dst [] d = refl
removed dst (x ∷ ds) d = elim (Bool-cases (x == dst)) [
  | inl e ↦ rw (remove_dst, e) (subst (λ k. is_among k ds ≡ false) ((==_iff x dst).0 e) d.0)
  | inr e ↦ rw (remove_dst, e, removed dst ds d.1) (ap (λ b. b || false) e)
]

remove-AreDistinct : (dst : ℕ) (ds : List ℕ) → AreDistinct ds → AreDistinct (remove_dst dst ds)
unfolding remove_dst
remove-AreDistinct dst [] d = tt
remove-AreDistinct dst (x ∷ ds) d = elim (Bool-cases (x == dst)) [
  | inl e ↦ rw (remove_dst, e) d.1
  | inr e ↦ rw (remove_dst, e) (remove-is_among x dst ds d.0, remove-AreDistinct dst ds d.1)
]

-- A destination that is added is in the list, one that is removed is not, and neither makes the
-- list hold a destination twice.
pub destinations_lem :
    (dst : ℕ) (ds : List ℕ)
    → AreDistinct ds
    → AreDistinct (add_dst dst ds)
      × (is_among dst (add_dst dst ds) ≡ true)
      × AreDistinct (remove_dst dst ds)
      × (is_among dst (remove_dst dst ds) ≡ false)
unfolding add_dst
destinations_lem dst ds d = (
  elim (Bool-cases (is_among dst ds)) [
    | inl e ↦ rw (add_dst, e) d
    | inr e ↦ rw (add_dst, e) (append-AreDistinct dst ds e d)
  ],
  ground (arith, is_among-append dst dst ds),
  remove-AreDistinct dst ds d,
  removed dst ds d,
)

module _ (expected : ℕ → ℕ → Bool) where
  -- Whether some destination expects an ssrc, and the packets for which one does.
  abbrev pub any_expects : ℕ → List ℕ → Bool
  any_expects ssrc [] = false
  any_expects ssrc (d ∷ ds) = expected d ssrc || any_expects ssrc ds

  abbrev pub expected_packets : List ℕ → List RtpPacket → List RtpPacket
  expected_packets ds [] = []
  expected_packets ds (p ∷ ps) =
      let rest = expected_packets ds ps in if any_expects p.ssrc ds then p ∷ rest else rest

  -- The destination that is found.
  abbrev Finds : ℕ → List ℕ → Option ℕ → Type 0
  Finds ssrc ds none = any_expects ssrc ds ≡ false
  Finds ssrc ds (some d) =
      (any_expects ssrc ds ≡ true) × (expected d ssrc ≡ true) × (is_among d ds ≡ true)

  Finds-cons :
      (ssrc d : ℕ) (ds : List ℕ) (o : Option ℕ)
      → expected d ssrc ≡ false
      → Finds ssrc ds o
      → Finds ssrc (d ∷ ds) o
  Finds-cons ssrc d ds none e h = rw (e) h
  Finds-cons ssrc d ds (some k) e h = (rw (e) h.0, h.1, ground (arith, h.2))

  find_dst-Finds : (ssrc : ℕ) (ds : List ℕ) → Finds ssrc ds (find_dst expected ssrc ds)
  unfolding find_dst
  find_dst-Finds ssrc [] = refl
  find_dst-Finds ssrc (d ∷ ds) = elim (Bool-cases (expected d ssrc)) [
    | inl e ↦ rw (find_dst, e) (ap (λ b. b || any_expects ssrc ds) e, e, ground arith)
    | inr e ↦
        rw (find_dst, e)
          (Finds-cons ssrc d ds (find_dst expected ssrc ds) e (find_dst-Finds ssrc ds))
  ]

  abbrev pub IsMeant : List ℕ → ℕ × RtpPacket → Type 0
  IsMeant ds (d, p) = (expected d p.ssrc ≡ true) × (is_among d ds ≡ true)

  -- The packets that `OnRtp` gives to a destination are those that some destination expects, each
  -- once and in their order, and each goes to a destination of the list that expects it.
  pub on_rtp-IsMeant :
      (ps : List RtpPacket) (ds : List ℕ)
      → (map (λ c. c.1) (on_rtp expected ps ds) ≡ expected_packets ds ps)
        × All (IsMeant ds) (on_rtp expected ps ds)
  unfolding on_rtp
  on_rtp-IsMeant [] ds = (refl, tt)
  on_rtp-IsMeant (p ∷ ps) ds =
      let rest = on_rtp-IsMeant ps ds in
      let found = find_dst-Finds p.ssrc ds in
      elim (Option-cases (find_dst expected p.ssrc ds)) [
        | inl e ↦
            let none_found = subst (Finds p.ssrc ds) e found in
            rw (on_rtp, e)
              (
                rest.0
                    ∙ sym (
                        ap (λ b. if b then p ∷ expected_packets ds ps else expected_packets ds ps)
                          none_found),
                rest.1,
              )
        | inr (d, e) ↦
            let one_found = subst (Finds p.ssrc ds) e found in
            rw (on_rtp, e)
              (
                ap (◌∷◌ p) rest.0
                    ∙ sym (
                        ap (λ b. if b then p ∷ expected_packets ds ps else expected_packets ds ps)
                          one_found.0),
                ((one_found.1, one_found.2), rest.1),
              )
      ]
