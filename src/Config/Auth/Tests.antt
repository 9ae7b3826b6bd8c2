-- ===== src/Config/Auth/Tests.antt =====
-- The checks of an auth block at concrete inputs.
use etunl_cli.Base.{◌≡◌, refl, some, []}
use etunl_cli.Base.Bytes.{codes}
use etunl_cli.Config.Auth.{Auth, validate, several_forms}

abbrev bearer_only : Auth
bearer_only = record { bearer = codes "t"; header = []; value = []; users = [] }

abbrev two_forms : Auth
two_forms = record { bearer = codes "t"; header = codes "X-Key"; value = codes "v"; users = [] }

two_forms_refused : validate (some two_forms) ≡ some several_forms
unfolding validate
two_forms_refused = refl
