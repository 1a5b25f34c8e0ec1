-- ===== src/Net/Laws.antt =====
-- What the two loops over the interfaces promise one another, and what a name lookup writes.
use of_core_darwin.Base.{
  ℕ, zero, suc, ◌+◌, ◌-◌, ◌≤◌, ◌<◌, min, ◌≡◌, ◌≢◌, refl, Option, none, some, List, [], ◌∷◌,
  if◌then◌else◌, arith, get_elem?, length, ap, sym, ◌∙◌, ◌++◌, append_assoc, get_elem?-lt,
  get_elem?-ge, get_elem?-append, set-append, length-append,
}
use of_core_darwin.Base.Int.{pos}
use of_core_darwin.Host.{Af, inet, inet6, af_other, SockAddr}
use of_core_darwin.Socket.{ip, ipv6, IpAddr}
use of_core_darwin.Net.{
  Config, IfAddrs, NetCore, Wanted, put, put_ip, counts, count_from, interface_count,
  find_interface, cleared, fill_wanted, interface_addr, resolved, resolve_from, resolve_dns_name,
}

-- The interfaces that count, in the system's order.
abbrev pub counted : Config → List IfAddrs → List IfAddrs
counted config [] = []
counted config (i ∷ rest) = if counts config i then i ∷ counted config rest else counted config rest

count_from_lem :
    (config : Config) (n : ℕ) (ifap : List IfAddrs)
    → count_from config n ifap ≡ n + length (counted config ifap)
unfolding count_from
count_from_lem config n [] = omega arith
count_from_lem config n (i ∷ rest) =
    ground (arith, count_from_lem config n rest, count_from_lem config (n + 1) rest)

get_elem?-minus :
    (i : IfAddrs) (rest : List IfAddrs) (n k : ℕ)
    → suc n ≤ k
    → get_elem? (i ∷ rest) (k - n) ≡ get_elem? rest (k - (n + 1))
get_elem?-minus i rest n k past = let e : k - n ≡ suc (k - (n + 1)) = omega arith in rw e refl

find_interface_lem :
    (config : Config) (k n : ℕ) (ifap : List IfAddrs)
    → n ≤ k
    → find_interface config (pos k) n ifap ≡ get_elem? (counted config ifap) (k - n)
unfolding find_interface
find_interface_lem config k n [] le = ground arith
find_interface_lem config k n (i ∷ rest) le = grind (
  arith,
  find_interface_lem config k n rest,
  find_interface_lem config k (n + 1) rest,
  get_elem?-minus i (counted config rest) n k,
)

-- The two loops agree: the number of interfaces is the length of the list that an index reads, so
-- an index below the count finds the interface at that place, and one from the count on finds none.
pub interface_count-find_interface :
    (config : Config) (ifap : List IfAddrs) (k : ℕ)
    → (find_interface config (pos k) 0 ifap ≡ get_elem? (counted config ifap) k)
      × (k < interface_count config (some ifap) → find_interface config (pos k) 0 ifap ≢ none)
      × (interface_count config (some ifap) ≤ k → find_interface config (pos k) 0 ifap ≡ none)
unfolding interface_count
interface_count-find_interface config ifap k =
    let found = find_interface_lem config k 0 ifap (omega arith) in
    let shown : find_interface config (pos k) 0 ifap ≡ get_elem? (counted config ifap) k =
      rw found (ap (get_elem? (counted config ifap)) (omega arith)) in
    (
      shown,
      λ lt e.
          get_elem?-lt (counted config ifap) k (omega (arith, count_from_lem config 0 ifap, lt))
            (sym shown ∙ e),
      λ ge.
          shown
          ∙ get_elem?-ge (counted config ifap) k (omega (arith, count_from_lem config 0 ifap, ge)),
    )

-- When the system lists no interfaces, or no interface at that index, each address that the caller asks
-- for is the IPv4 address OFC_INADDR_NONE.
pub interface_addr_none :
    (core : NetCore) (config : Config) (found : Option (List IfAddrs)) (k : ℕ) (want : Wanted)
    → interface_count config found ≤ k
    → interface_addr core config found (pos k) want ≡ record {
      inaddr = put (put_ip core core.inaddr_none) want.inaddr;
      bcast = put (put_ip core core.inaddr_none) want.bcast;
      mask = put (put_ip core core.inaddr_none) want.mask;
    }
unfolding interface_addr cleared
interface_addr_none core config none k want past = refl
interface_addr_none core config (some ifap) k want past =
    ap
      (λ (r : Option IfAddrs). elim r [
        | none ↦ cleared core want
        | some i ↦ fill_wanted core i.addr.family i (cleared core want)
      ])
      ((interface_count-find_interface config ifap k).2 past)

-- What a caller is to find of an address: its version and bytes, with the scope of an IPv6 address. The
-- rest of the structure, and all of it for another family, stays.
abbrev pub expected : NetCore → Af → SockAddr → IpAddr → IpAddr
expected core inet sa a = record {
  version = ip;
  addr = core.get_long sa.addr;
  addr6 = a.addr6;
  scope = a.scope;
}
expected core inet6 sa a = record {
  version = ipv6;
  addr = a.addr;
  addr6 = sa.addr6;
  scope = sa.scope;
}
expected core af_other sa a = a

resolved-expected :
    (core : NetCore) (f : Af) (sa : SockAddr) (a : IpAddr)
    → resolved core f sa a ≡ expected core f sa a
resolved-expected core inet sa a = refl
resolved-expected core inet6 sa a = refl
resolved-expected core af_other sa a = refl

-- The array with at most `left` of the addresses found written over its entries, in their order.
abbrev pub filled : NetCore → ℕ → List SockAddr → List IpAddr → List IpAddr
filled core zero found ips = ips
filled core (suc left) [] ips = ips
filled core (suc left) (sa ∷ rest) [] = []
filled core (suc left) (sa ∷ rest) (a ∷ ips) =
    expected core sa.family sa a ∷ filled core left rest ips

resolve_from_lem :
    (core : NetCore) (left : ℕ) (found : List SockAddr) (before ips : List IpAddr)
    → left ≤ length ips
    → resolve_from core (length before + left) (length before) found (before ++ ips)
      ≡ some (before ++ filled core left found ips, length before + min left (length found))
unfolding resolve_from
resolve_from_lem core left [] before ips room = grind arith
resolve_from_lem core zero (sa ∷ rest) before ips room = grind arith
resolve_from_lem core (suc left) (sa ∷ rest) before [] room = absurd (omega arith)
resolve_from_lem core (suc left) (sa ∷ rest) before (a ∷ ips) room =
    let x = expected core sa.family sa a in
    grind (
      arith,
      resolved-expected core sa.family sa a,
      get_elem?-append before ips a,
      set-append before ips a x,
      length-append before (x ∷ []),
      append_assoc before (x ∷ []) ips,
      append_assoc before (x ∷ []) (filled core left rest ips),
      resolve_from_lem core left rest (before ++ (x ∷ [])) ips,
    )

-- If the caller's array has room for the number of addresses that it asks for, a lookup writes the
-- addresses found, in their order, up to that number: the number of an IPv4 address, the bytes and the
-- scope of an IPv6 address. It returns how many, and leaves the rest of the array as it was.
pub resolve_dns_name_lem :
    (core : NetCore) (num_addrs : ℕ) (found : List SockAddr) (ips : List IpAddr)
    → num_addrs ≤ length ips
    → resolve_dns_name core num_addrs (some found) ips
      ≡ some (filled core num_addrs found ips, min num_addrs (length found))
unfolding resolve_dns_name
resolve_dns_name_lem core num_addrs found ips room =
    grind (arith, resolve_from_lem core num_addrs found [] ips room)
