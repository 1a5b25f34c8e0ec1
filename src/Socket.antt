-- ===== src/Socket.antt =====
-- src/socket_darwin.c: the data of a socket object, and what it takes from of_core.
pub mod Address
pub mod Poll
pub mod Setup
pub mod Transfer
pub mod Requests
pub mod Objects
mod Examples
use of_core_darwin.Base.{ℕ, Bool, List}
use of_core_darwin.Base.Int.{ℤ}

-- `OFC_FAMILY_TYPE`: the code tests for `OFC_FAMILY_IP` alone.
pub data Family : Type 0 where
  ip ipv6 unknown_family : Family

abbrev pub is_ip : Family → Bool
is_ip ip = Bool.true
is_ip _ = Bool.false

-- `OFC_SOCKET_TYPE`.
pub data SocketType : Type 0 where
  stream dgram icmp_type other_type : SocketType

-- `OFC_IPADDR`. The members of its union stand side by side; each is written and read with the
-- version that it belongs to.
pub record IpAddr : Type 0 where
  pub version : Family
  pub addr : ℕ
  pub addr6 : List ℕ
  pub scope : ℕ

-- `OFC_SOCKADDR`.
pub record EndPoint : Type 0 where
  pub sin_family : Family
  pub sin_addr : IpAddr
  pub sin_port : ℕ

-- `OFC_SOCKET_IMPL`.
pub record Sock : Type 0 where
  pub socket : ℤ
  pub family : Family
  pub events : ℕ
  pub revents : ℕ
  pub ip_address : IpAddr

-- The bits of `OFC_SOCKET_EVENT_TYPE`, by name.
pub data SocketEvent : Type 0 where
  on_close on_accept on_address_change on_qos on_qob on_read on_write : SocketEvent

-- What src/ takes from of_core: the event bits, the byte order macros `OFC_NET_STON`, `_NTOS`,
-- `_LTON` and `_NTOL`, the wildcard addresses, whether `OFC_SIZET` is signed, and what a block of
-- memory holds when `ofc_malloc` returns it.
pub record OfCore : Type 0 where
  pub bit : SocketEvent → ℕ
  pub put_short : ℕ → List ℕ
  pub get_short : List ℕ → ℕ
  pub put_long : ℕ → List ℕ
  pub get_long : List ℕ → ℕ
  pub inaddr_any : ℕ
  pub in6addr_any : List ℕ
  pub in6scope_any : ℕ
  pub sizet_signed : Bool
  pub memory : ℕ → Sock
