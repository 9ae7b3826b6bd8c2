-- ===== src/Config/Files/Outcomes.antt =====
-- What a save leaves in the file.
use mathlib.Core.Path.{subst}
use etunl_cli.Base.{
  ℕ, take, ◌≡◌, ◌⊎◌, refl, sym, inl, inr, Option, none, some, ok, Bool-cases, Option-cases,
}
use etunl_cli.Base.Bytes.{Bytes}
use etunl_cli.Config.Routes.{ClientConfig}
use etunl_cli.Config.Routes.Checking.{IsLoadable, load_client-IsLoadable}
use etunl_cli.Config.Files.{
  Write, written, not_opened, torn, SaveError, no_dir, not_marshalled, Saving, write_file,
  save_config, read_client, load_file,
}

-- The file holds what yaml.Marshal gives for the configuration.
pub record Written {C : Type 0} (s : Saving C) (c : C) (file : Option Bytes) : Type 0 where
  pub bytes : Bytes
  pub marshalled : s.marshal c ≡ some bytes
  pub there : file ≡ some bytes

-- A write that failed on the way has left a beginning of what yaml.Marshal gives for the configuration.
pub record Torn {C : Type 0} (s : Saving C) (c : C) (file : Option Bytes) : Type 0 where
  pub n : ℕ
  pub bytes : Bytes
  pub failed : s.write ≡ torn n
  pub marshalled : s.marshal c ≡ some bytes
  pub there : file ≡ some (take n bytes)

-- What a save may make of the file and its error.
abbrev Outcome :
    {C : Type 0} → Saving C → C → Option Bytes → Option Bytes × Option SaveError → Type 0
Outcome s c file (file', none) = Written s c file'
Outcome s c file (file', some e) = (file' ≡ file) ⊎ Torn s c file'

write_file-Outcome :
    {C : Type 0} (s : Saving C) (c : C) (bytes : Bytes) (file : Option Bytes) (w : Write)
    → s.marshal c ≡ some bytes
    → s.write ≡ w
    → Outcome s c file (write_file w bytes file)
unfolding write_file
write_file-Outcome s c bytes file written h same = record {
  bytes = bytes;
  marshalled = h;
  there = refl;
}
write_file-Outcome s c bytes file not_opened h same = inl refl
write_file-Outcome s c bytes file (torn k) h same =
    inr (record { n = k; bytes = bytes; failed = same; marshalled = h; there = refl })

save_config-Outcome :
    {C : Type 0} (s : Saving C) (c : C) (file : Option Bytes)
    → Outcome s c file (save_config s c file)
unfolding save_config
save_config-Outcome s c file = elim (Bool-cases s.mkdir) [
  | inr no_parent ↦
      let same : save_config s c file ≡ (file, some no_dir) = rw (save_config, no_parent) refl in
      subst (Outcome s c file) (sym same) (inl refl)
  | inl parent ↦ elim (Option-cases (s.marshal c)) [
    | inl absent ↦
        let same : save_config s c file ≡ (file, some not_marshalled) =
          rw (save_config, parent, absent) refl in
        subst (Outcome s c file) (sym same) (inl refl)
    | inr (bytes, given) ↦
        let same : save_config s c file ≡ write_file s.write bytes file =
          rw (save_config, parent, given) refl in
        subst (Outcome s c file) (sym same) (write_file-Outcome s c bytes file s.write given refl)
  ]
]

-- A save without an error has written all of the configuration.
pub save_config-Written :
    {C : Type 0} (s : Saving C) (c : C) (file file' : Option Bytes)
    → save_config s c file ≡ (file', none)
    → Written s c file'
save_config-Written s c file file' h = subst (Outcome s c file) h (save_config-Outcome s c file)

-- Behind a save with an error, the file is as it was, or torn.
pub save_config-failed :
    {C : Type 0} (s : Saving C) (c : C) (file file' : Option Bytes) (e : SaveError)
    → save_config s c file ≡ (file', some e)
    → (file' ≡ file) ⊎ Torn s c file'
save_config-failed s c file file' e h = subst (Outcome s c file) h (save_config-Outcome s c file)

pub load_file-written :
    (unmarshal : Bytes → Option ClientConfig) (c : ClientConfig) (bytes : Bytes)
    → unmarshal bytes ≡ some c
    → IsLoadable c
    → load_file unmarshal (some bytes) ≡ ok c
unfolding load_file read_client
load_file-written unmarshal c bytes h good =
    rw (load_file, read_client, h) (load_client-IsLoadable c good)
