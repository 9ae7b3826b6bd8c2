-- ===== src/Server/Session/Redirect.antt =====
-- The redirect target: local to the host, and read back from the query string by percent decoding.
use etunl_cli.Base.{
  ℕ, ◌+◌, ◌-◌, ◌*◌, ◌/◌, ◌%◌, ◌<◌, ◌≡◌, ◌↔◌, refl, sym, ◌∙◌, inl, inr, Bool, true, false, not, ◌&&◌,
  ◌||◌, Option, none, some, [], ◌∷◌, leb, ◌==◌, if◌then◌else◌, arith, All, Bool-cases,
  true_ne_false,
}
use etunl_cli.Base.Bytes.{Bytes, IsByte, codes, cut_prefix, has_prefix, is_empty}
use etunl_cli.Server.Session.{
  safe_redirect, safe_redirect_url_value, escape, hex_nibble, is_unreserved,
}

-- A path on this host: one `/` in front, and not two, which a browser reads as another host.
abbrev pub IsLocal : Bytes → Type 0
IsLocal s = (rest : Bytes) × (s ≡ b'/' ∷ rest) × (has_prefix rest (codes "/") ≡ false)

-- The test of safeRedirect.
abbrev turned_away : Bytes → Bool
turned_away raw = is_empty raw || not (has_prefix raw (codes "/")) || has_prefix raw (codes "//")

IsLocal-iff : (raw : Bytes) → (turned_away raw ≡ false) ↔ IsLocal raw
unfolding cut_prefix
IsLocal-iff [] = (λ h. cc, λ (rest, e, n). cc)
IsLocal-iff (c ∷ []) = (λ h. ([], ground arith, refl), λ (rest, e, n). ground arith)
IsLocal-iff (c ∷ d ∷ s) = (λ h. (d ∷ s, ground arith, ground arith), λ (rest, e, n). ground arith)

-- What safeRedirect gives is a path with one `/` in front, and such a path it leaves alone, and
-- nothing else.
pub safe_redirect_lem :
    (raw : Bytes) → IsLocal (safe_redirect raw) × ((safe_redirect raw ≡ raw) ↔ IsLocal raw)
unfolding safe_redirect cut_prefix
safe_redirect_lem raw = elim (Bool-cases (turned_away raw)) [
  | inl bad ↦
      let home : safe_redirect raw ≡ codes "/" = rw (safe_redirect, bad) refl in
      rw home (
        ([], refl, refl),
        (
          λ e.
              (let good : turned_away raw ≡ false = rw (← e) refl in
                absurd (true_ne_false (sym bad ∙ good))),
          λ l. absurd (true_ne_false (sym bad ∙ (IsLocal-iff raw).1 l)),
        ),
      )
  | inr good ↦
      let kept : safe_redirect raw ≡ raw = rw (safe_redirect, good) refl in
      rw kept ((IsLocal-iff raw).0 good, (λ _. (IsLocal-iff raw).0 good, λ _. refl))
]

-- Percent decoding of RFC 3986: the state between two bytes, and the rest of the text.
pub data Pending : Type 0 where
  nothing percent : Pending
  high : ℕ → Pending

hex_value : ℕ → Option ℕ
hex_value c =
    if leb b'0' c && leb c b'9'
    then some (c - b'0')
    else if leb b'a' c && leb c b'f'
    then some (c - b'a' + 10)
    else if leb b'A' c && leb c b'F'
    then some (c - b'A' + 10)
    else none

in_front : ℕ → Option Bytes → Option Bytes
in_front c none = none
in_front c (some s) = some (c ∷ s)

pub percent_decode : Pending → Bytes → Option Bytes
unfolding hex_value in_front
percent_decode nothing [] = some []
percent_decode percent [] = none
percent_decode (high h) [] = none
percent_decode nothing (c ∷ s) =
    let plain = percent_decode nothing s in
    let coded = percent_decode percent s in if c == b'%' then coded else in_front c plain
percent_decode percent (c ∷ s) = elim (hex_value c) [
  | none ↦ none
  | some h ↦ percent_decode (high h) s
]
percent_decode (high h) (c ∷ s) =
    let rest = percent_decode nothing s in
    elim (hex_value c) [ none ↦ none | some l ↦ in_front (h * 16 + l) rest ]

hex_value-hex_nibble : (d : ℕ) → d < 16 → hex_value (hex_nibble d) ≡ some d
unfolding hex_value hex_nibble
hex_value-hex_nibble d h = ground arith

unreserved-other : (c : ℕ) → is_unreserved c ≡ true → (c == b'%') ≡ false
unfolding is_unreserved
unreserved-other c h = ground arith

percent_decode-percent :
    (d h : ℕ) (s : Bytes)
    → hex_value d ≡ some h
    → percent_decode percent (d ∷ s) ≡ percent_decode (high h) s
unfolding percent_decode
percent_decode-percent d h s e = rw (percent_decode, e) refl

percent_decode-high :
    (h d l : ℕ) (s : Bytes)
    → hex_value d ≡ some l
    → percent_decode (high h) (d ∷ s) ≡ in_front (h * 16 + l) (percent_decode nothing s)
unfolding percent_decode
percent_decode-high h d l s e = rw (percent_decode, e) refl

percent_decode-escape : (s : Bytes) → All IsByte s → percent_decode nothing (escape s) ≡ some s
unfolding percent_decode escape in_front
percent_decode-escape [] h = refl
percent_decode-escape (c ∷ s) (hc, h) = elim (Bool-cases (is_unreserved c)) [
  | inl plain ↦
      let other = unreserved-other c plain in
      rw (plain, percent_decode, other, percent_decode-escape s h) refl
  | inr coded ↦
      let whole : c / 16 * 16 + c % 16 ≡ c = omega arith in
      rw coded (
        percent_decode-percent (hex_nibble (c / 16)) (c / 16) (hex_nibble (c % 16) ∷ escape s)
          (hex_value-hex_nibble (c / 16) (omega arith))
        ∙ percent_decode-high (c / 16) (hex_nibble (c % 16)) (c % 16) (escape s)
            (hex_value-hex_nibble (c % 16) (omega arith))
        ∙ rw (percent_decode-escape s h, whole) refl)
]

safe_redirect-bytes : (s : Bytes) → All IsByte s → All IsByte (safe_redirect s)
unfolding safe_redirect
safe_redirect-bytes s h =
    elim (Bool-cases (is_empty s || not (has_prefix s (codes "/")) || has_prefix s (codes "//"))) [
      | inl bad ↦ rw (safe_redirect, bad) (omega arith, tt)
      | inr good ↦ rw (safe_redirect, good) h
    ]

-- The query string that the login page is given decodes to the redirect target, for every target of
-- bytes.
pub percent_decode-safe_redirect_url_value :
    (s : Bytes)
    → All IsByte s
    → percent_decode nothing (safe_redirect_url_value s) ≡ some (safe_redirect s)
unfolding safe_redirect_url_value
percent_decode-safe_redirect_url_value s h =
    percent_decode-escape (safe_redirect s) (safe_redirect-bytes s h)
