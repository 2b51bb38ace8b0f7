-- ===== src/Fec/Joined.antt =====
-- Lists put one behind the other, as the preprocessor does with the macros of
-- src/rtp_rtcp/fec_private_tables_random.cc and src/rtp_rtcp/fec_private_tables_bursty.cc.
use qo_srtp.Common.{ℕ, List, [], ◌∷◌, ◌++◌}

unfoldable pub joined : List (List ℕ) → List ℕ
joined [] = []
joined (xs ∷ xss) = xs ++ joined xss
