-- ===== src/Config/Server/Tests.antt =====
-- Server configurations loaded and read, and the theorems at these inputs.
use etunl_cli.Base.{ℕ, ◌≡◌, ◌≢◌, Bool, true, Option, refl, some, [], ok, arith}
use etunl_cli.Base.Bytes.{Bytes, codes, cut_first}
use etunl_cli.Base.Int.{pos}
use etunl_cli.Base.Space.{trim_space}
use etunl_cli.Base.Decimal.{parse_int, format_int}
use etunl_cli.Config.Server.{ServerConfig, missing, fresh_config, load_server, parse_tcp_port_range}
use etunl_cli.Config.Server.Ports.{parse_tcp_port_range-format_int}

abbrev fresh : ServerConfig
fresh = fresh_config (codes "t") (codes "t")

default_range : parse_tcp_port_range fresh ≡ ok (pos 15000, pos 15100)
unfolding parse_tcp_port_range parse_int fresh_config cut_first trim_space
default_range = refl

parse_tcp_port_range-format_int_example : parse_tcp_port_range fresh ≡ ok (pos 15000, pos 15100)
unfolding fresh_config format_int
parse_tcp_port_range-format_int_example =
    parse_tcp_port_range-format_int fresh 15000 15100 (omega arith) (omega arith) (omega arith) refl

abbrev gen : ℕ → Option Bytes
gen k = some (codes "t")

abbrev save : ServerConfig → Bool
save c = true

abbrev gen_set : (k : ℕ) (t : Bytes) → gen k ≡ some t → t ≢ []
gen_set k t h e = cc

first_start : load_server missing gen save ≡ ok fresh
unfolding load_server
first_start = refl
