-- ===== src/RtcpReceiver/Compound.antt =====
-- A compound packet of several RTCP packets through `Parse` of src/rtp_rtcp/rtcp_receiver.cc.
use mathlib.Core.List.{append_assoc}
use qo_srtp.Common.{
  ℕ, zero, suc, ◌+◌, ◌-◌, ◌*◌, ◌≤◌, ◌<◌, ◌≡◌, refl, ap, ◌∙◌, false, some, List, [], ◌∷◌, ◌++◌,
  arith, ◌==◌, le→ltb, ==_ne, length, drop, All, length-append, drop_front,
}
use qo_srtp.Nack.Header.{CommonHeader, header_bytes}
use qo_srtp.Nack.Written.{length-header_bytes, header_found, store_header-found}
use qo_srtp.RtcpReceiver.Defs.{Parsing, dispatch, parsed, parse}

-- A packet as it stands in a buffer: what its header says, and what follows the header.
pub record Image : Type 0 where
  pub format : ℕ
  pub kind : ℕ
  pub words : ℕ
  pub body : List ℕ

pub record IsImage (i : Image) : Type 0 where
  pub small_format : i.format < 32
  pub some_words : 0 < i.words
  pub few_words : i.words < 65536
  pub whole_body : length i.body ≡ i.words * 4

abbrev pub image_bytes : Image → List ℕ
image_bytes i = header_bytes i.format i.kind i.words ++ i.body

abbrev pub image_header : Image → List ℕ → CommonHeader
image_header i more = record (header_found i.format i.kind i.words []) {
  payload = some (i.body ++ more);
}

unfoldable pub compound_bytes : List Image → List ℕ
compound_bytes [] = []
compound_bytes (i ∷ is) = image_bytes i ++ compound_bytes is

-- The packets are handled one after the other, from the first state to the last; `behind` is what
-- the buffer holds after them.
unfoldable pub AreHandled : ℕ → ℕ → List Image → List ℕ → Parsing → Parsing → Type 0
AreHandled stale now [] behind s s' = s ≡ s'
AreHandled stale now (i ∷ is) behind s s' =
    (next : Parsing) × (dispatch stale now (image_header i (compound_bytes is ++ behind)) s
      ≡ some next)
    × AreHandled stale now is behind next s'

pub length-image_bytes : (i : Image) → IsImage i → length (image_bytes i) ≡ 4 + i.words * 4
length-image_bytes i v = omega (
  arith,
  length-append (header_bytes i.format i.kind i.words) i.body,
  length-header_bytes i.format i.kind i.words,
  v.whole_body,
)

parse_step :
    (n stale now : ℕ) (header : CommonHeader) (i : Image) (more : List ℕ) (remain_length : ℕ)
    (s s' : Parsing)
    → IsImage i
    → 4 + i.words * 4 ≤ remain_length
    → dispatch stale now (image_header i more) s ≡ some s'
    → parse (suc n) stale now header (image_bytes i ++ more) remain_length s
      ≡ parse n stale now (image_header i more) more (remain_length - (4 + i.words * 4)) s'
unfolding parse
parse_step n stale now header i more remain_length s s' v long handled =
    let any : (remain_length == 0) ≡ false = ==_ne remain_length 0 (omega (arith, long)) in
    let found =
      store_header-found i.format i.kind i.words remain_length [] i.body more header v.small_format
        v.some_words v.few_words long in
    let taken : 4 + (i.words * 4 + 0) ≡ 4 + i.words * 4 = omega arith in
    let fits = le→ltb remain_length (4 + (i.words * 4 + 0)) (omega (arith, long)) in
    let behind : drop (i.words * 4 + 0) (i.body ++ more) ≡ more =
      drop_front i.body more (i.words * 4 + 0) (omega (arith, v.whole_body)) in
    rw (parse, any, found, handled, fits, behind, taken) refl

-- Packets of which the handlers take one state to another, in a row in the buffer: the loop takes
-- the first state to the second, if it has a round for each packet. The header object may hold
-- anything.
pub parse-compound_bytes :
    (is : List Image) (n stale now : ℕ) (header : CommonHeader) (behind : List ℕ) (s s' : Parsing)
    → All IsImage is
    → length is ≤ n
    → AreHandled stale now is behind s s'
    → parse n stale now header (compound_bytes is ++ behind) (length (compound_bytes is)) s
      ≡ parsed s'
unfolding compound_bytes AreHandled parse
parse-compound_bytes [] zero stale now header behind s s' v few handled = ap parsed handled
parse-compound_bytes [] (suc n) stale now header behind s s' v few handled = ap parsed handled
parse-compound_bytes (i ∷ is) zero stale now header behind s s' v few handled = absurd (omega arith)
parse-compound_bytes (i ∷ is) (suc n) stale now header behind s s' v few handled =
    let more = compound_bytes is ++ behind in
    let long : length (image_bytes i ++ compound_bytes is)
        ≡ 4 + i.words * 4 + length (compound_bytes is) =
      omega (arith, length-append (image_bytes i) (compound_bytes is), length-image_bytes i v.0) in
    let left : length (image_bytes i ++ compound_bytes is) - (4 + i.words * 4)
        ≡ length (compound_bytes is) =
      omega (arith, long) in
    ap (λ b. parse (suc n) stale now header b (length (image_bytes i ++ compound_bytes is)) s)
      (append_assoc (image_bytes i) (compound_bytes is) behind)
    ∙ parse_step n stale now header i more (length (image_bytes i ++ compound_bytes is)) s handled.0
        v.0 (omega (arith, long)) handled.1
    ∙ ap (λ k. parse n stale now (image_header i more) more k handled.0) left
    ∙ parse-compound_bytes is n stale now (image_header i more) behind handled.0 s' v.1
        (omega arith) handled.2
