-- ===== src/Server/Session/Hex.antt =====
-- A concrete `Crypto` for the runs: two letters for each byte, and a sum for the code.
use etunl_cli.Base.{ℕ, ◌+◌, ◌-◌, ◌*◌, ◌/◌, ◌%◌, ◌≡◌, refl, Option, none, some, [], ◌∷◌, arith, All}
use etunl_cli.Base.Bytes.{Bytes, IsByte, Lacks}
use etunl_cli.Server.Session.{Crypto}

abbrev pub sum : Bytes → ℕ
sum [] = 0
sum (c ∷ s) = c + sum s

abbrev pub encode : Bytes → Bytes
encode [] = []
encode (c ∷ s) = (97 + c / 16) ∷ (97 + c % 16) ∷ encode s

abbrev pub in_front : ℕ → Option Bytes → Option Bytes
in_front c none = none
in_front c (some s) = some (c ∷ s)

abbrev pub decode : Bytes → Option Bytes
decode [] = some []
decode (h ∷ []) = none
decode (h ∷ l ∷ s) = in_front ((h - 97) * 16 + (l - 97)) (decode s)

abbrev pub hex : Crypto
hex = record { mac = λ key s. (sum key + sum s) % 256 ∷ []; encode64 = encode; decode64 = decode }

pub decode-encode : (s : Bytes) → All IsByte s → hex.decode64 (hex.encode64 s) ≡ some s
decode-encode [] h = refl
decode-encode (c ∷ s) (hc, h) =
    let whole : (97 + c / 16 - 97) * 16 + (97 + c % 16 - 97) ≡ c = omega arith in
    rw (decode-encode s h, whole) refl

pub encode-Lacks : (s : Bytes) → All IsByte s → Lacks b'.' (hex.encode64 s)
encode-Lacks [] h = tt
encode-Lacks (c ∷ s) (hc, h) = ((λ e. omega arith), ((λ e. omega arith), encode-Lacks s h))

pub mac-bytes : (key s : Bytes) → All IsByte (hex.mac key s)
mac-bytes key s = (omega arith, tt)
