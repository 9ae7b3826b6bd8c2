-- ===== src/Server/Session/Signing.antt =====
-- Session cookies: what signSession writes, verifySession takes for its user until it expires, and
-- nothing that the secret's code does not authenticate is taken.
use etunl_cli.Base.{
  ℕ, ◌^◌, ◌<◌, ◌≡◌, ◌≢◌, refl, ap, sym, ◌∙◌, inl, inr, false, Option, none, some, [], ◌∷◌, ◌++◌,
  leb, ◌=?◌, if◌then◌else◌, arith, All, All-append, Bool-cases, Option-cases, beq_refl,
}
use etunl_cli.Base.Bytes.{
  Bytes, IsByte, Lacks, bytes_is_eq, cut_first, cut_first-append, cut_first_sound,
}
use etunl_cli.Base.Int.{ℤ, pos, leb_ℤ}
use etunl_cli.Base.Decimal.{IsDigit, format_int, parse_int, parse_int-format_int, format_int-shape}
use etunl_cli.Server.Session.{
  Crypto, payload_of, sign_session, user_of, verify_parts, verify_session,
}

digit_bytes : (s : Bytes) → All IsDigit s → All IsByte s
digit_bytes [] h = tt
digit_bytes (c ∷ s) (hc, h) = (omega arith, digit_bytes s h)

format_int-bytes : (n : ℕ) → n < 2 ^ 63 → All IsByte (format_int n)
format_int-bytes n h =
    let (c, s, shape, ds) = format_int-shape n h in rw shape (digit_bytes (c ∷ s) ds)

payload_of-bytes :
    (user : Bytes) (exp : ℕ) → All IsByte user → exp < 2 ^ 63 → All IsByte (payload_of user exp)
unfolding payload_of
payload_of-bytes user exp hu he =
    All-append IsByte user (b'|' ∷ format_int exp) hu (omega arith, format_int-bytes exp he)

user_of-payload_of :
    (user : Bytes) (exp now : ℕ)
    → Lacks b'|' user
    → exp < 2 ^ 63
    → user_of (payload_of user exp) now ≡ (if leb exp now then [] else user)
unfolding user_of payload_of
user_of-payload_of user exp now hu he =
    rw
      (
        user_of,
        payload_of,
        cut_first-append b'|' user (format_int exp) hu,
        parse_int-format_int exp he,
      )
      (ground arith)

verify_session-cut :
    (c : Crypto) (value payload64 sig64 secret : Bytes) (now : ℕ)
    → cut_first b'.' value ≡ some (payload64, sig64)
    → verify_session c value secret now
      ≡ verify_parts c (c.decode64 payload64) (c.decode64 sig64) secret now
unfolding verify_session
verify_session-cut c value payload64 sig64 secret now cut = rw (verify_session, cut) refl

verify_parts-signed :
    (c : Crypto) (payload secret : Bytes) (now : ℕ)
    → verify_parts c (some payload) (some (c.mac secret payload)) secret now ≡ user_of payload now
unfolding verify_parts
verify_parts-signed c payload secret now = rw (verify_parts, beq_refl (c.mac secret payload)) refl

-- Where base64 decodes what it encodes and writes no `.`, and the code is made of bytes: a cookie of
-- signSession is its user's under the same secret as long as the time is before its expiry, and no
-- one's from then on, for a user name of bytes without `|`.
pub verify_session-sign_session :
    (c : Crypto) (user secret : Bytes) (exp now : ℕ)
    → (decode-encode : (s : Bytes) → All IsByte s → c.decode64 (c.encode64 s) ≡ some s)
    → (encode-Lacks : (s : Bytes) → All IsByte s → Lacks b'.' (c.encode64 s))
    → (mac-bytes : (key s : Bytes) → All IsByte (c.mac key s)) → All IsByte user
    → Lacks b'|' user
    → exp < 2 ^ 63
    → verify_session c (sign_session c user exp secret) secret now
      ≡ (if leb exp now then [] else user)
unfolding sign_session
verify_session-sign_session c user secret exp now decode-encode encode-Lacks mac-bytes hu hn he =
    let p = payload_of user exp in
    let sig = c.mac secret p in
    let whole = payload_of-bytes user exp hu he in
    verify_session-cut c (c.encode64 p ++ b'.' ∷ c.encode64 sig) (c.encode64 p) (c.encode64 sig)
      secret now (cut_first-append b'.' (c.encode64 p) (c.encode64 sig) (encode-Lacks p whole))
    ∙ rw (decode-encode p whole, decode-encode sig (mac-bytes secret p))
        (verify_parts-signed c p secret now ∙ user_of-payload_of user exp now hn he)

user_of_sound :
    (payload user : Bytes) (now : ℕ)
    → user_of payload now ≡ user
    → user ≢ []
    → (exp : Bytes) × (at : ℤ) × (payload ≡ user ++ b'|' ∷ exp)
      × (parse_int exp ≡ some at)
      × (leb_ℤ at (pos now) ≡ false)
unfolding user_of
user_of_sound payload user now h ne = elim (Option-cases (cut_first b'|' payload)) [
  | inl whole ↦ absurd (ne (sym h ∙ rw (user_of, whole) refl))
  | inr ((before, exp), cut) ↦ elim (Option-cases (parse_int exp)) [
    | inl bad ↦ absurd (ne (sym h ∙ rw (user_of, cut, bad) refl))
    | inr (at, parsed) ↦ elim (Bool-cases (leb_ℤ at (pos now))) [
      | inl late ↦ absurd (ne (sym h ∙ rw (user_of, cut, parsed, late) refl))
      | inr early ↦
          let named : before ≡ user = sym (rw (user_of, cut, parsed, early) refl) ∙ h in
          (
            exp,
            at,
            (let (e, l) = cut_first_sound b'|' payload before exp cut in rw (← named) e),
            parsed,
            early,
          )
    ]
  ]
]

verify_parts_sound :
    (c : Crypto) (first second : Option Bytes) (secret user : Bytes) (now : ℕ)
    → verify_parts c first second secret now ≡ user
    → user ≢ []
    → (payload : Bytes) × (first ≡ some payload)
      × (second ≡ some (c.mac secret payload))
      × (user_of payload now ≡ user)
unfolding verify_parts
verify_parts_sound c none second secret user now h ne = absurd (ne (sym h))
verify_parts_sound c (some payload) none secret user now h ne = absurd (ne (sym h))
verify_parts_sound c (some payload) (some got) secret user now h ne =
    elim (Bool-cases (got =? c.mac secret payload)) [
      | inl same ↦ (
        payload,
        refl,
        ap some ((bytes_is_eq.beq_iff got (c.mac secret payload)).0 same),
        sym (rw (verify_parts, same) refl) ∙ h,
      )
      | inr differ ↦ absurd (ne (sym h ∙ rw (verify_parts, differ) refl))
    ]

-- A value that verifySession takes for a user is two base64 texts around a `.`: one of a payload that
-- names this user and an expiry after the given time, the other of the payload's code under the
-- secret.
pub verify_session_sound :
    (c : Crypto) (value secret user : Bytes) (now : ℕ)
    → verify_session c value secret now ≡ user
    → user ≢ []
    → (payload64 : Bytes) × (sig64 : Bytes) × (payload : Bytes) × (exp : Bytes) × (at : ℤ) × (value
        ≡ payload64 ++ b'.' ∷ sig64)
      × (c.decode64 payload64 ≡ some payload)
      × (c.decode64 sig64 ≡ some (c.mac secret payload))
      × (payload ≡ user ++ b'|' ∷ exp)
      × (parse_int exp ≡ some at)
      × (leb_ℤ at (pos now) ≡ false)
unfolding verify_session
verify_session_sound c value secret user now h ne = elim (Option-cases (cut_first b'.' value)) [
  | inl whole ↦ absurd (ne (sym h ∙ rw (verify_session, whole) refl))
  | inr ((payload64, sig64), cut) ↦
      let parts = sym (rw (verify_session, cut) refl) ∙ h in
      let (payload, first, second, taken) =
        verify_parts_sound c (c.decode64 payload64) (c.decode64 sig64) secret user now parts ne in
      let (exp, at, named, parsed, early) = user_of_sound payload user now taken ne in
      let (split, lacks) = cut_first_sound b'.' value payload64 sig64 cut in
      (payload64, sig64, payload, exp, at, split, first, second, named, parsed, early)
]
