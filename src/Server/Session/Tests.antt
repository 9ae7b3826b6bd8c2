-- ===== src/Server/Session/Tests.antt =====
-- Runs of the session cookie and the redirect target, and their theorems at concrete inputs.
use etunl_cli.Base.{All, ◌≡◌, refl, some, [], ◌∷◌, ◌++◌, arith, false, leb, if◌then◌else◌}
use etunl_cli.Base.Bytes.{Bytes, IsByte, Lacks, codes, cut_prefix}
use etunl_cli.Base.Int.{ℤ, pos, leb_ℤ}
use etunl_cli.Base.Decimal.{parse_int}
use etunl_cli.Server.Session.{sign_session, verify_session, safe_redirect, safe_redirect_url_value}
use etunl_cli.Server.Session.Hex.{hex, decode-encode, encode-Lacks, mac-bytes}
use etunl_cli.Server.Session.Signing.{verify_session-sign_session, verify_session_sound}

abbrev ann : Bytes
ann = codes "ann"

ann_bytes : All IsByte ann
ann_bytes = (omega arith, (omega arith, (omega arith, tt)))

ann_plain : Lacks b'|' ann
ann_plain = ((λ e. omega arith), ((λ e. omega arith), ((λ e. omega arith), tt)))

abbrev key : Bytes
key = codes "k"

escape_space : safe_redirect_url_value (codes "/a b") ≡ codes "/a%20b"
unfolding safe_redirect_url_value cut_prefix
escape_space = refl

other_host : safe_redirect (codes "//evil.com") ≡ codes "/"
unfolding safe_redirect cut_prefix
other_host = refl

verify_session-sign_session_example :
    verify_session hex (sign_session hex ann 1000 key) key 999 ≡ (if leb 1000 999 then [] else ann)
verify_session-sign_session_example =
    verify_session-sign_session hex ann key 1000 999 decode-encode encode-Lacks mac-bytes ann_bytes
      ann_plain (omega arith)

signed_taken : verify_session hex (sign_session hex ann 1000 key) key 999 ≡ ann
signed_taken = verify_session-sign_session_example

verify_session_sound_example :
    (payload64 : Bytes) × (sig64 : Bytes) × (payload : Bytes) × (exp : Bytes) × (at : ℤ)
    × (sign_session hex ann 1000 key ≡ payload64 ++ b'.' ∷ sig64)
    × (hex.decode64 payload64 ≡ some payload)
    × (hex.decode64 sig64 ≡ some (hex.mac key payload))
    × (payload ≡ ann ++ b'|' ∷ exp)
    × (parse_int exp ≡ some at)
    × (leb_ℤ at (pos 999) ≡ false)
verify_session_sound_example =
    verify_session_sound hex (sign_session hex ann 1000 key) key ann 999 signed_taken (λ e. cc)
