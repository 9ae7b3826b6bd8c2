-- ===== src/Server/Ports.antt =====
-- internal/server/server.go: allocatePort, over hash/fnv's 32-bit FNV-1a. An `int` of 64 bits holds
-- every uint32, so `int(h.Sum32())` is the hash itself.
pub mod Allocation
mod Tests
use Prim.Native.Nat.{bit_xor}
use etunl_cli.Base.{
  ℕ, zero, suc, ◌+◌, ◌-◌, ◌*◌, ◌%◌, ◌^◌, Bool, true, false, not, ◌&&◌, ◌||◌, Option, none, some,
  List, [], ◌∷◌, Result, ok, err, ◌==◌, ◌=?◌, if◌then◌else◌,
}
use etunl_cli.Base.Bytes.{Bytes, bytes_is_eq}
use etunl_cli.Base.Dict.{Dict}

-- Route name to port, for each running listener.
abbrev pub Listeners : Type 0
Listeners = Dict Bytes ℕ

fnv_step : ℕ → ℕ → ℕ
fnv_step h c = bit_xor h c * 16777619 % 2 ^ 32

fnv_write : ℕ → Bytes → ℕ
unfolding fnv_step
fnv_write h [] = h
fnv_write h (c ∷ s) = fnv_write (fnv_step h c) s

-- `fnv.New32a()`, `Write`, `Sum32`
pub fnv32a : Bytes → ℕ
unfolding fnv_write
fnv32a s = fnv_write 2166136261 s

-- Some listener is on the port.
pub taken : ℕ → Listeners → Bool
taken p [] = false
taken p ((name, q) ∷ d) = q == p || taken p d

-- `tl.port == port && name != routeName` for some listener.
pub taken_by_other : ℕ → Bytes → Listeners → Bool
taken_by_other p route [] = false
taken_by_other p route ((name, q) ∷ d) = q == p && not (name =? route) || taken_by_other p route d

-- `for p := start; p < end; p++`, with the number of rounds left.
pub scan : ℕ → ℕ → Listeners → Option ℕ
scan zero p d = none
scan (suc rounds) p d = let later = scan rounds (p + 1) d in if taken p d then later else some p

pub data PortError : Type 0 where
  not_configured no_free_ports : PortError

or_no_free : Option ℕ → Result PortError ℕ
or_no_free none = err no_free_ports
or_no_free (some p) = ok p

pub record PortRange : Type 0 where
  pub start : ℕ
  pub end : ℕ

pub hashed_port : PortRange → Bytes → ℕ
hashed_port r route = r.start + fnv32a route % (r.end - r.start)

-- `allocatePort`
pub allocate_port : PortRange → Listeners → Bytes → Result PortError ℕ
unfolding or_no_free
allocate_port r d route =
    if r.start == 0 && r.end == 0
    then err not_configured
    else if taken_by_other (hashed_port r route) route d
    then or_no_free (scan (r.end - r.start) r.start d)
    else ok (hashed_port r route)
