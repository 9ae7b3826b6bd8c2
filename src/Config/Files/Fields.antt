-- ===== src/Config/Files/Fields.antt =====
-- A form in which the tests keep the fields of a configuration: each behind its length.
use etunl_cli.Base.{Option, none, [], ◌∷◌, ◌++◌, length, take, drop}
use etunl_cli.Base.Bytes.{Bytes}

abbrev pub put : Bytes → Bytes → Bytes
put s rest = length s ∷ s ++ rest

abbrev pub field : {A : Type 0} → (Bytes → Bytes → Option A) → Bytes → Option A
field k [] = none
field k (n ∷ bytes) = k (take n bytes) (drop n bytes)
