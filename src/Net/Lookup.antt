-- ===== src/Net/Lookup.antt =====
-- What `ofc_net_resolve_dns_name_impl` asks `getaddrinfo` for.
use of_core_darwin.Base.{ℕ, ◌≡◌, Bool, true, false, Option, none, some, List, ◌>>=◌, arith}
use of_core_darwin.Host.{Af, inet, inet6, af_other, SockAddr}
use of_core_darwin.Socket.{IpAddr}
use of_core_darwin.Net.{Config, NetCore, match_families, resolve_dns_name}

pub data AiFamily : Type 0 where
  af_unspec only_inet only_inet6 : AiFamily

-- `struct addrinfo` as hints: AI_ADDRCONFIG is always set, AI_NUMERICHOST by `numeric_host`, and the
-- kind of socket is left open.
pub record Hints : Type 0 where
  pub ai_family : AiFamily
  pub numeric_host : Bool

-- `none` is a build that stops at `#error`.
unfoldable pub family_hint : (discover_ipv4 discover_ipv6 : Bool) → Option AiFamily
family_hint true true = some af_unspec
family_hint false true = some only_inet6
family_hint true false = some only_inet
family_hint false false = none

-- `numeric` says that `ofc_pton` reads the name as an address.
unfoldable pub hints : Config → Bool → Option Hints
unfolding family_hint
hints config numeric = do
  family ← family_hint config.discover_ipv4 config.discover_ipv6
  some (record { ai_family = family; numeric_host = numeric })

-- The whole lookup, over what `getaddrinfo` answers to its hints.
unfoldable pub resolve :
    NetCore
    → Config
    → Bool
    → (Hints → Option (List SockAddr))
    → ℕ
    → List IpAddr
    → Option (List IpAddr × ℕ)
unfolding hints
resolve core config numeric getaddrinfo num_addrs ips = do
  asked ← hints config numeric
  resolve_dns_name core num_addrs (getaddrinfo asked) ips

-- The families that hints let an answer have.
abbrev pub admits : AiFamily → Af → Bool
admits af_unspec inet = true
admits af_unspec inet6 = true
admits af_unspec af_other = false
admits only_inet inet = true
admits only_inet inet6 = false
admits only_inet af_other = false
admits only_inet6 inet = false
admits only_inet6 inet6 = true
admits only_inet6 af_other = false

admits_lem :
    (config : Config) (f : Af) (numeric : Bool) (asked : Hints)
    → hints config numeric ≡ some asked
    → (admits asked.ai_family f ≡ match_families config f) × (asked.numeric_host ≡ numeric)
unfolding hints family_hint match_families
admits_lem config inet numeric asked e = ground arith
admits_lem config inet6 numeric asked e = ground arith
admits_lem config af_other numeric asked e = ground arith

-- A name lookup asks for addresses of exactly those families whose interfaces count, and for a numeric
-- address exactly when the name is one.
pub hints-match_families :
    (config : Config) (numeric : Bool) (asked : Hints)
    → hints config numeric ≡ some asked
    → ((f : Af) → admits asked.ai_family f ≡ match_families config f)
      × (asked.numeric_host ≡ numeric)
hints-match_families config numeric asked e =
    (λ f. (admits_lem config f numeric asked e).0, (admits_lem config inet numeric asked e).1)
