-- ===== src/Config/Files.antt =====
-- internal/config/config.go: SaveClientConfig and SaveServerConfig, and LoadClientConfig from the bytes of
-- the file. The file system and the YAML codec are arguments.
pub mod Outcomes
pub mod Fields
mod Tests
use etunl_cli.Base.{
  ℕ, take, Bool, true, false, Option, none, some, List, [], ◌∷◌, Result, ok, err, if◌then◌else◌,
  not,
}
use etunl_cli.Base.Bytes.{Bytes, is_empty}
use etunl_cli.Config.Routes.{ClientConfig, LoadError, unreadable, unparsable, load_client}

-- What becomes of `os.WriteFile`, which empties the file before it writes: it writes all, it cannot open
-- the file, or it fails on the way and leaves the first n bytes.
pub data Write : Type 0 where
  written not_opened : Write
  torn : (n : ℕ) → Write

pub data SaveError : Type 0 where
  no_dir not_marshalled not_written : SaveError

-- The calls of one save: whether os.MkdirAll succeeds, what yaml.Marshal gives, and the write.
pub record Saving (C : Type 0) : Type 0 where
  pub mkdir : Bool
  pub marshal : C → Option Bytes
  pub write : Write

pub write_file : Write → Bytes → Option Bytes → Option Bytes × Option SaveError
write_file written bytes file = (some bytes, none)
write_file not_opened bytes file = (file, some not_written)
write_file (torn n) bytes file = (some (take n bytes), some not_written)

-- `SaveClientConfig` and `SaveServerConfig`: the file behind the call, and its error.
unfoldable pub save_config :
    {C : Type 0} → Saving C → C → Option Bytes → Option Bytes × Option SaveError
unfolding write_file
save_config s c file = if not s.mkdir then (file, some no_dir) else elim (s.marshal c) [
  | none ↦ (file, some not_marshalled)
  | some bytes ↦ write_file s.write bytes file
]

-- What os.ReadFile and yaml.Unmarshal give, for a file that may be missing.
pub read_client : (Bytes → Option ClientConfig) → Option Bytes → Result LoadError ClientConfig
read_client unmarshal none = err unreadable
read_client unmarshal (some bytes) = elim (unmarshal bytes) [
  | none ↦ err unparsable
  | some c ↦ ok c
]

-- `LoadClientConfig`
pub load_file : (Bytes → Option ClientConfig) → Option Bytes → Result LoadError ClientConfig
unfolding read_client
load_file unmarshal file = load_client (read_client unmarshal file)
