-- ===== src/Config/Server.antt =====
-- internal/config/config.go: ServerConfig, LoadServerConfig and ParseTCPPortRange. The file with its
-- YAML decoder, the random tokens and the writing of the file are arguments. `trim_space` knows the
-- ASCII white space.
pub mod Ports
pub mod Loading
mod Tests
use etunl_cli.Base.{
  ℕ, zero, suc, ◌+◌, Bool, true, false, not, ◌&&◌, ◌||◌, Option, none, some, List, [], ◌∷◌, ◌++◌,
  Result, ok, err, ◌==◌, if◌then◌else◌,
}
use etunl_cli.Base.Bytes.{Bytes, codes, is_empty, cut_first}
use etunl_cli.Base.Int.{ℤ, pos, ltb_ℤ, leb_ℤ}
use etunl_cli.Base.Decimal.{parse_int}
use etunl_cli.Base.Space.{trim_space}

pub record ServerConfig : Type 0 where
  pub listen_http : Bytes
  pub tcp_port_range : Bytes
  pub token : Bytes
  pub session_secret : Bytes
  pub admin_subdomain : Bytes
  pub admin_user : Bytes
  pub admin_password : Bytes

pub data RangeError : Type 0 where
  bad_format bad_start bad_end not_increasing out_of_range : RangeError

-- ParseTCPPortRange behind the parsing of its two numbers.
pub check_range : ℤ → ℤ → Result RangeError (ℤ × ℤ)
check_range start end =
    if leb_ℤ end start
    then err not_increasing
    else if ltb_ℤ start (pos 1) || ltb_ℤ (pos 65535) end
    then err out_of_range
    else ok (start, end)

pub parse_range : Option ℤ → Option ℤ → Result RangeError (ℤ × ℤ)
unfolding check_range
parse_range none end = err bad_start
parse_range (some start) none = err bad_end
parse_range (some start) (some end) = check_range start end

-- `ServerConfig.ParseTCPPortRange`
pub parse_tcp_port_range : ServerConfig → Result RangeError (ℤ × ℤ)
unfolding parse_range
parse_tcp_port_range c = elim (cut_first b'-' c.tcp_port_range) [
  | none ↦ err bad_format
  | some (start, end) ↦ parse_range (parse_int (trim_space start)) (parse_int (trim_space end))
]

-- What reading and decoding the file gives.
pub data ServerFile : Type 0 where
  missing unreadable unparsable : ServerFile
  parsed : ServerConfig → ServerFile

pub data LoadError : Type 0 where
  read_failed parse_failed no_token save_failed : LoadError

abbrev pub or_default : Bytes → Bytes → Bytes
or_default s d = if is_empty s then d else s

pub with_defaults : ServerConfig → ServerConfig
with_defaults c = record c {
  listen_http = or_default c.listen_http (codes ":80");
  tcp_port_range = or_default c.tcp_port_range (codes "15000-15100");
  admin_subdomain = or_default c.admin_subdomain (codes "manage");
}

pub saved : (ServerConfig → Bool) → ServerConfig → Result LoadError ServerConfig
saved save c = if save c then ok c else err save_failed

-- The configuration that is written where there is no file.
pub fresh_config : Bytes → Bytes → ServerConfig
fresh_config token secret = record {
  listen_http = codes ":80";
  tcp_port_range = codes "15000-15100";
  token = token;
  session_secret = secret;
  admin_subdomain = codes "manage";
  admin_user = [];
  admin_password = [];
}

-- The generation of the secret, by the k-th call of GenerateToken, where there is none.
pub with_secret :
    (ℕ → Option Bytes)
    → (ServerConfig → Bool)
    → ℕ
    → Bool
    → ServerConfig
    → Result LoadError ServerConfig
unfolding saved
with_secret gen save k persist c =
    if is_empty c.session_secret
    then elim (gen k) [
      | none ↦ err no_token
      | some secret ↦ saved save (record c { session_secret = secret })
    ]
    else if persist
    then saved save c
    else ok c

pub with_token :
    (ℕ → Option Bytes) → (ServerConfig → Bool) → ServerConfig → Result LoadError ServerConfig
unfolding with_secret
with_token gen save c =
    if is_empty c.token
    then elim (gen 0) [
      | none ↦ err no_token
      | some token ↦ with_secret gen save 1 true (record c { token = token })
    ]
    else with_secret gen save 0 false c

pub created : Option Bytes → Option Bytes → (ServerConfig → Bool) → Result LoadError ServerConfig
unfolding saved fresh_config
created none second save = err no_token
created (some token) none save = err no_token
created (some token) (some secret) save = saved save (fresh_config token secret)

-- `LoadServerConfig`; `gen k` is the result of the k-th call of GenerateToken, and `save` tells
-- whether SaveServerConfig succeeds.
pub load_server :
    ServerFile → (ℕ → Option Bytes) → (ServerConfig → Bool) → Result LoadError ServerConfig
unfolding created with_token with_defaults
load_server missing gen save = created (gen 0) (gen 1) save
load_server unreadable gen save = err read_failed
load_server unparsable gen save = err parse_failed
load_server (parsed c) gen save = with_token gen save (with_defaults c)
