-- ===== src/Net.antt =====
-- src/net_darwin.c: the interfaces that `getifaddrs` lists, and the addresses that `getaddrinfo` finds.
pub mod Laws
pub mod Lookup
mod Examples
use of_core_darwin.Base.{
  ℕ, zero, suc, ◌+◌, ◌-◌, ◌^◌, bit_and, bit_or, Bool, true, false, not, ltb, ◌||◌, ◌&&◌, Option,
  none, some, List, [], ◌∷◌, set, get_elem?, ◌==◌, if◌then◌else◌,
}
use of_core_darwin.Base.Int.{ℤ, pos, eqb_ℤ}
use of_core_darwin.Base.Bits.{overlaps}
use of_core_darwin.Host.{Call, Af, inet, inet6, af_other, SockAddr, M, call}
use of_core_darwin.Socket.{Family, ip, ipv6, IpAddr}

abbrev pub sigpipe : ℤ
sigpipe = pos 13

-- A write to a connection that was closed is an error, and no signal, from then on.
unfoldable pub init : M (Unit {0}) (Unit {0})
init = call (Call.ignore_signal sigpipe)

-- What the build defines: OFC_DISCOVER_IPV4, OFC_DISCOVER_IPV6, OFC_DARWIN_IGNORE_EN5, OFC_LOOPBACK.
pub record Config : Type 0 where
  pub discover_ipv4 : Bool
  pub discover_ipv6 : Bool
  pub ignore_en5 : Bool
  pub loopback : Bool

-- An entry of `getifaddrs`; `en5` says that `ofc_strcmp` finds that name.
pub record IfAddrs : Type 0 where
  pub en5 : Bool
  pub flags : ℕ
  pub addr : SockAddr
  pub netmask : SockAddr

-- The constants of of_core, and its read of a 32-bit number in network order.
pub record NetCore : Type 0 where
  pub get_long : List ℕ → ℕ
  pub inaddr_none : ℕ
  pub inaddr_broadcast : ℕ
  pub inaddr_loopback : ℕ
  pub in6addr_bcast : List ℕ
  pub in6addr_loopback : List ℕ

abbrev pub iff_up : ℕ
iff_up = 1

abbrev pub iff_loopback : ℕ
iff_loopback = 8

unfoldable pub match_families : Config → Af → Bool
match_families config inet = config.discover_ipv4
match_families config inet6 = config.discover_ipv6
match_families config af_other = false

-- The conditions under which both loops take an entry.
unfoldable pub counts : Config → IfAddrs → Bool
unfolding match_families
counts config i =
    not (config.ignore_en5 && i.en5)
    && (config.loopback || not (overlaps i.flags iff_loopback))
    && overlaps i.flags iff_up
    && match_families config i.addr.family

-- The loop of `ofc_net_interface_count_impl`, from a count on.
unfoldable pub count_from : Config → ℕ → List IfAddrs → ℕ
count_from config max_count [] = max_count
count_from config max_count (i ∷ rest) =
    if counts config i
    then count_from config (max_count + 1) rest
    else count_from config max_count rest

-- `none` when `getifaddrs` fails.
unfoldable pub interface_count : Config → Option (List IfAddrs) → ℕ
interface_count config none = 0
interface_count config (some ifap) = count_from config 0 ifap

-- The loop of `ofc_net_interface_addr_impl`: the entry where it stops, if it has found one.
unfoldable pub find_interface : Config → ℤ → ℕ → List IfAddrs → Option IfAddrs
find_interface config index max_count [] = none
find_interface config index max_count (i ∷ rest) =
    if counts config i
    then (if eqb_ℤ (pos max_count) index
        then some i
        else find_interface config index (max_count + 1) rest)
    else find_interface config index max_count rest

-- The three structures that a caller may ask for.
pub record Wanted : Type 0 where
  pub inaddr : Option IpAddr
  pub bcast : Option IpAddr
  pub mask : Option IpAddr

abbrev pub put : (IpAddr → IpAddr) → Option IpAddr → Option IpAddr
put f none = none
put f (some a) = some (f a)

module _ (core : NetCore) where
  abbrev pub put_ip : ℕ → IpAddr → IpAddr
  put_ip n a = record a { version = ip; addr = n }

  abbrev pub put_ipv6 : List ℕ → ℕ → IpAddr → IpAddr
  put_ipv6 bytes scope a = record a { version = ipv6; addr6 = bytes; scope = scope }

  unfoldable pub cleared : Wanted → Wanted
  cleared want = record {
    inaddr = put (put_ip core.inaddr_none) want.inaddr;
    bcast = put (put_ip core.inaddr_none) want.bcast;
    mask = put (put_ip core.inaddr_none) want.mask;
  }

  -- `(OFC_INADDR_BROADCAST & ~mask) | addr`, on 32 bits.
  unfoldable pub broadcast_of : IfAddrs → ℕ
  broadcast_of i =
      if overlaps i.flags iff_loopback
      then core.inaddr_loopback
      else bit_or (bit_and core.inaddr_broadcast (2 ^ 32 - 1 - core.get_long i.netmask.addr))
          (core.get_long i.addr.addr)

  abbrev pub bcast6_of : IfAddrs → List ℕ
  bcast6_of i = if overlaps i.flags iff_loopback then core.in6addr_loopback else core.in6addr_bcast

  -- What the entry that was found writes, by its family.
  unfoldable pub fill_wanted : Af → IfAddrs → Wanted → Wanted
  unfolding broadcast_of
  fill_wanted inet i want = record {
    inaddr = put (put_ip (core.get_long i.addr.addr)) want.inaddr;
    bcast = put (put_ip (broadcast_of i)) want.bcast;
    mask = put (put_ip (core.get_long i.netmask.addr)) want.mask;
  }
  fill_wanted inet6 i want = record {
    inaddr = put (put_ipv6 i.addr.addr6 i.addr.scope) want.inaddr;
    bcast = put (put_ipv6 (bcast6_of i) i.addr.scope) want.bcast;
    mask = put (put_ipv6 i.netmask.addr6 i.addr.scope) want.mask;
  }
  fill_wanted af_other i want = want

  unfoldable pub interface_addr : Config → Option (List IfAddrs) → ℤ → Wanted → Wanted
  unfolding cleared fill_wanted
  interface_addr config none index want = cleared want
  interface_addr config (some ifap) index want = elim (find_interface config index 0 ifap) [
    | none ↦ cleared want
    | some i ↦ fill_wanted i.addr.family i (cleared want)
  ]

  -- `ip[i]` as an address of `getaddrinfo` leaves it; one of another family leaves it alone.
  abbrev pub resolved : Af → SockAddr → IpAddr → IpAddr
  resolved inet sa a = put_ip (core.get_long sa.addr) a
  resolved inet6 sa a = put_ipv6 sa.addr6 sa.scope a
  resolved af_other sa a = a

  -- The loop of `ofc_net_resolve_dns_name_impl` over the addresses found: the caller's array and `i`.
  -- `none` is a write outside of the array.
  unfoldable pub resolve_from : ℕ → ℕ → List SockAddr → List IpAddr → Option (List IpAddr × ℕ)
  resolve_from num_addrs i [] ips = some (ips, i)
  resolve_from num_addrs i (sa ∷ rest) ips = elim (get_elem? ips i) [
    | none ↦ if ltb i num_addrs then none else some (ips, i)
    | some a ↦
        let next = resolve_from num_addrs (i + 1) rest (set ips i (resolved sa.family sa a)) in
        if ltb i num_addrs then next else some (ips, i)
  ]

  -- The array, and the number of addresses; `found` is what `getaddrinfo` lists, `none` an error.
  unfoldable pub resolve_dns_name :
      ℕ → Option (List SockAddr) → List IpAddr → Option (List IpAddr × ℕ)
  resolve_dns_name num_addrs none ips = some (ips, 0)
  resolve_dns_name num_addrs (some found) ips = resolve_from num_addrs 0 found ips

-- `ofc_net_interface_wins_impl`: there are none, for what the caller asks for.
unfoldable pub interface_wins : Option ℕ → Option (List IpAddr) → Option ℕ × Option (List IpAddr)
interface_wins none none = (none, none)
interface_wins none (some winslist) = (none, some [])
interface_wins (some num_wins) none = (some 0, none)
interface_wins (some num_wins) (some winslist) = (some 0, some [])
