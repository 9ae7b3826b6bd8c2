-- ===== src/Client/Wire/Tests.antt =====
-- The delays of backoff, and the protection of a route at a concrete input.
use etunl_cli.Base.{◌≡◌, ◌⊎◌, refl, inl, true, none, some, [], ◌*◌, ◌=?◌, if◌then◌else◌}
use etunl_cli.Base.Bytes.{codes, bytes_eq, bytes_is_eq, cut_prefix}
use etunl_cli.Base.Int.{pos, negsuc}
use etunl_cli.Config.Auth.{Auth, validate}
use etunl_cli.Config.Auth.Forms.{validate_iff}
use etunl_cli.Tunnel.Auth.{Headers, authorization, check, has_session}
use etunl_cli.Client.Wire.{auth_to_wire, backoff, second}
use etunl_cli.Client.Wire.Protection.{Carries, auth_to_wire-protects}

first_delay : backoff 1 ≡ pos (2 * second)
unfolding backoff
first_delay = refl

fifth_delay : backoff 5 ≡ pos (30 * second)
unfolding backoff
fifth_delay = refl

-- The product overflows: `time.Sleep` returns at once on such a delay.
delay_34 : backoff 34 ≡ negsuc 1266874889709551615
unfolding backoff
delay_34 = refl

delay_55 : backoff 55 ≡ pos 0
unfolding backoff
delay_55 = refl

abbrev token_auth : Auth
token_auth = record { bearer = codes "t"; header = []; value = []; users = [] }

abbrev headers : Headers
headers n = if n =? authorization then codes "Bearer t" else []

accepted : validate (some token_auth) ≡ none
accepted = (validate_iff token_auth).1 (inl ((λ e. cc), refl, refl, refl))

passed : check (auth_to_wire (some token_auth)) headers ≡ true
unfolding auth_to_wire check bytes_eq cut_prefix
passed = refl

auth_to_wire-protects_example :
    (has_session (auth_to_wire (some token_auth)) ≡ true) ⊎ Carries token_auth headers
auth_to_wire-protects_example = auth_to_wire-protects token_auth headers accepted passed
