-- ===== src/Net/Examples.antt =====
-- Three interfaces of which two count, and a lookup into an array of three.
use of_core_darwin.Base.{ℕ, ◌<◌, ◌≤◌, ◌≡◌, ◌≢◌, true, false, none, some, List, [], ◌∷◌, arith}
use of_core_darwin.Base.Int.{pos}
use of_core_darwin.Host.{inet, inet6, SockAddr}
use of_core_darwin.Socket.{ip, IpAddr}
use of_core_darwin.Net.{
  Config, IfAddrs, NetCore, Wanted, counts, interface_count, find_interface, resolve_dns_name,
}
use of_core_darwin.Net.Laws.{interface_count-find_interface, resolve_dns_name_lem}

abbrev config : Config
config = record { discover_ipv4 = true; discover_ipv6 = true; ignore_en5 = false; loopback = false }

abbrev first_byte : List ℕ → ℕ
first_byte [] = 0
first_byte (b ∷ bs) = b

abbrev core : NetCore
core = record {
  get_long = first_byte;
  inaddr_none = 4294967295;
  inaddr_broadcast = 4294967295;
  inaddr_loopback = 2130706433;
  in6addr_bcast = [];
  in6addr_loopback = [];
}

abbrev address4 : ℕ → SockAddr
address4 n = record { family = inet; port = []; addr = n ∷ []; addr6 = []; scope = 0 }

abbrev address6 : SockAddr
address6 = record { family = inet6; port = []; addr = []; addr6 = 254 ∷ 128 ∷ []; scope = 4 }

abbrev lo0 : IfAddrs
lo0 = record { en5 = false; flags = 9; addr = address4 127; netmask = address4 255 }

abbrev en0 : IfAddrs
en0 = record { en5 = false; flags = 1; addr = address4 10; netmask = address4 255 }

abbrev en1 : IfAddrs
en1 = record { en5 = false; flags = 1; addr = address6; netmask = address6 }

abbrev interfaces : List IfAddrs
interfaces = lo0 ∷ en0 ∷ en1 ∷ []

abbrev blank : IpAddr
blank = record { version = ip; addr = 0; addr6 = []; scope = 0 }

abbrev want : Wanted
want = record { inaddr = some blank; bcast = none; mask = none }

interface_count-find_interface_example :
    (find_interface config (pos 1) 0 interfaces ≡ some en1)
    × (1 < interface_count config (some interfaces)
        → find_interface config (pos 1) 0 interfaces ≢ none)
    × (interface_count config (some interfaces) ≤ 1
        → find_interface config (pos 1) 0 interfaces ≡ none)
unfolding counts
interface_count-find_interface_example = interface_count-find_interface config interfaces 1

resolve_dns_name_lem_example :
    resolve_dns_name core 2 (some (address4 7 ∷ [])) (blank ∷ blank ∷ blank ∷ [])
    ≡ some (record blank { addr = 7 } ∷ blank ∷ blank ∷ [], 1)
resolve_dns_name_lem_example =
    resolve_dns_name_lem core 2 (address4 7 ∷ []) (blank ∷ blank ∷ blank ∷ []) (omega arith)
