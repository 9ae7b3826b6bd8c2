-- ===== src/Server/Ports/Tests.antt =====
-- Runs of allocatePort, and its theorems at concrete inputs.
use etunl_cli.Base.{◌≡◌, refl, [], ◌∷◌, ok, err}
use etunl_cli.Base.Bytes.{codes, bytes_eq, bytes_is_eq}
use etunl_cli.Server.Ports.{
  Listeners, PortRange, no_free_ports, fnv32a, taken, taken_by_other, scan, hashed_port,
  allocate_port,
}

-- The published test vector of 32-bit FNV-1a.
fnv_foobar : fnv32a (codes "foobar") ≡ 0xbf9cf968
unfolding fnv32a
fnv_foobar = refl

abbrev two_ports : PortRange
two_ports = record { start = 15000; end = 15002 }

abbrev all_used : Listeners
all_used = (codes "a", 15000) ∷ (codes "b", 15001) ∷ []

allocate_db : allocate_port two_ports [] (codes "db") ≡ ok (hashed_port two_ports (codes "db"))
unfolding allocate_port taken_by_other
allocate_db = refl

no_port_left : allocate_port two_ports all_used (codes "db") ≡ err no_free_ports
unfolding allocate_port hashed_port fnv32a taken_by_other bytes_eq scan taken
no_port_left = refl
