-- ===== src/Socket/Setup.antt =====
-- Creating, closing, naming and configuring a socket.
use mathlib.Core.Option
use of_core_darwin.Base.{ℕ, bit_or, Bool, true, false, not, ◌&&◌, ◌||◌, Option, ◌==◌, if◌then◌else◌}
use of_core_darwin.Base.Int.{ℤ, pos, negsuc, ltb_ℤ, eqb_ℤ}
use of_core_darwin.Host.{
  inet, inet6, Protocol, SockKind, SockOpt, HandleType, SockAddr, Call, Host, M, pure, ◌>>=◌, ◌>>◌,
  call, load, fill, update, free_object, touch, get_pointer, get_number, get_errno, get_sockaddr,
}
use of_core_darwin.Socket.{
  Family, ip, ipv6, is_ip, SocketType, stream, dgram, icmp_type, IpAddr, Sock, OfCore,
}
use of_core_darwin.Socket.Address.{make_sockaddr, unmake_sockaddr}

-- `errno` values of the system.
abbrev pub einprogress : ℤ
einprogress = pos 36

abbrev pub eagain : ℤ
eagain = pos 35

-- An `OFC_BOOL` as the `int` that an option takes.
abbrev pub to_number : Bool → ℤ
to_number true = pos 1
to_number false = pos 0

abbrev pub minus_one : ℤ
minus_one = negsuc 0

abbrev pub is_error : ℤ → Bool
is_error status = eqb_ℤ status minus_one

-- A step that is only taken under a condition.
abbrev pub when : Bool → M Sock (Unit {0}) → M Sock (Unit {0})
when true m = m
when false m = pure tt

-- The address that a new socket is given, with its version.
unfoldable pub any_address : OfCore → Family → IpAddr → IpAddr
any_address core family old =
    if is_ip family
    then record old { version = ip; addr = core.inaddr_any }
    else record old { version = ipv6; addr6 = core.in6addr_any; scope = core.in6scope_any }

unfoldable pub kind_of : SocketType → SockKind
kind_of stream = SockKind.sock_stream
kind_of icmp_type = SockKind.sock_raw
kind_of _ = SockKind.sock_dgram

-- The protocol, by the type and the version of the address.
unfoldable pub protocol_of : SocketType → Family → Protocol
protocol_of stream version = Protocol.tcp
protocol_of icmp_type version = if is_ip version then Protocol.icmp else Protocol.icmpv6
protocol_of _ version = Protocol.udp

abbrev pub is_dgram : SocketType → Bool
is_dgram dgram = true
is_dgram _ = false

-- `flags | O_NONBLOCK`, at flags that are not negative.
abbrev pub o_nonblock : ℕ
o_nonblock = 0x0004

abbrev pub with_nonblock : ℤ → ℤ
with_nonblock (pos flags) = pos (bit_or flags o_nonblock)
with_nonblock flags = flags

module _ (core : OfCore) (host : Host) where
  unfoldable pub create : Family → SocketType → M Sock ℕ
  create family socktype = do
    p ← get_pointer host Call.malloc
    if p == 0 then pure 0 else do
      let address = any_address core family (core.memory p).ip_address
      fd ← get_number host (
          Call.socket (if is_ip family then inet else inet6) (kind_of socktype)
            (protocol_of socktype address.version))
      fill p
          (record { socket = fd; family = family; events = 0; revents = 0; ip_address = address })
      if ltb_ℤ fd (pos 0) then (free_object p >> pure 0) else do
        when (is_dgram socktype)
            (do get_number host (Call.setsockopt fd SockOpt.broadcast (pos 1)); pure tt)
        get_number host (Call.setsockopt fd SockOpt.nosigpipe (pos 1))
        get_pointer host (Call.handle_create HandleType.socket_impl p)

  unfoldable pub destroy : ℕ → M Sock (Unit {0})
  destroy h = do
    p ← get_pointer host (Call.handle_lock h)
    if p == 0 then pure tt else do
      s ← load p
      when (not (ltb_ℤ s.socket (pos 0))) (do get_number host (Call.close s.socket); pure tt)
      free_object p
      call (Call.handle_destroy h)
      call (Call.handle_unlock h)

  -- The error branch only writes to the log.
  unfoldable pub bind : ℕ → IpAddr → ℕ → M Sock Bool
  bind h address port = do
    p ← get_pointer host (Call.handle_lock h)
    if p == 0 then pure false else do
      (block, sa, len) ← make_sockaddr core host address port
      s ← load p
      status ← get_number host (Call.bind s.socket sa len)
      call (Call.free block)
      call (Call.handle_unlock h)
      pure (eqb_ℤ status (pos 0))

  unfoldable pub close : ℕ → M Sock Bool
  close h = do
    p ← get_pointer host (Call.handle_lock h)
    if p == 0 then pure false else do
      s ← load p
      get_number host (Call.close s.socket)
      update p (λ s. record s { socket = minus_one })
      call (Call.handle_unlock h)
      pure true

  unfoldable pub connect : ℕ → IpAddr → ℕ → M Sock Bool
  connect h address port = do
    p ← get_pointer host (Call.handle_lock h)
    if p == 0 then pure false else do
      (block, sa, len) ← make_sockaddr core host address port
      s ← load p
      status ← get_number host (Call.connect s.socket sa len)
      errno ← get_errno host
      call (Call.free block)
      call (Call.handle_unlock h)
      pure ((not (eqb_ℤ status (pos 0)) && eqb_ℤ errno einprogress) || eqb_ℤ status (pos 0))

  unfoldable pub listen : ℕ → ℤ → M Sock Bool
  listen h backlog = do
    p ← get_pointer host (Call.handle_lock h)
    if p == 0 then pure false else do
      s ← load p
      status ← get_number host (Call.listen s.socket backlog)
      call (Call.handle_unlock h)
      pure (not (is_error status))

  -- What `accept` does with the result of the system's call.
  unfoldable pub accepted :
      ℤ → ℕ → ℕ → SockAddr → Option IpAddr → Option ℕ → Bool → M Sock (ℕ × Option IpAddr × Option ℕ)
  accepted listener q block sa address port true = do free_object q; pure (0, address, port)
  accepted listener q block sa address port false = do
    get_number host (Call.setsockopt listener SockOpt.nosigpipe (pos 1))
    touch block
    (address', port') ← λ w. Option.map (λ r. (r, w)) (unmake_sockaddr core sa address port)
    new ← get_pointer host (Call.handle_create HandleType.socket_impl q)
    pure (new, address', port')

  -- The new handle, and the caller's address and port. The new block is not tested for NULL before
  -- its first field is written, and its other fields keep what the memory held.
  unfoldable pub accept : ℕ → Option IpAddr → Option ℕ → M Sock (ℕ × Option IpAddr × Option ℕ)
  unfolding accepted
  accept h address port = do
    p ← get_pointer host (Call.handle_lock h)
    if p == 0 then pure (0, address, port) else do
      q ← get_pointer host Call.malloc
      block ← get_pointer host Call.malloc
      s ← load p
      fd ← get_number host (Call.accept s.socket)
      sa ← get_sockaddr host
      fill q (record (core.memory q) { socket = fd })
      (new, address', port') ← accepted s.socket q block sa address port (is_error fd)
      call (Call.free block)
      call (Call.handle_unlock h)
      pure (new, address', port')

  unfoldable pub reuse_addr : ℕ → Bool → M Sock Bool
  reuse_addr h onoff = do
    p ← get_pointer host (Call.handle_lock h)
    if p == 0 then pure false else do
      s ← load p
      status ← get_number host (Call.setsockopt s.socket SockOpt.reuseport (to_number onoff))
      call (Call.handle_unlock h)
      pure (not (is_error status))

  unfoldable pub connected : ℕ → M Sock Bool
  connected h = do
    p ← get_pointer host (Call.handle_lock h)
    if p == 0 then pure false else do
      s ← load p
      status ← get_number host (Call.getpeername s.socket)
      call (Call.handle_unlock h)
      pure (not (is_error status))

  unfoldable pub no_block : ℕ → Bool → M Sock Bool
  no_block h onoff = do
    p ← get_pointer host (Call.handle_lock h)
    if p == 0 then pure false else do
      s ← load p
      flags ← get_number host (Call.getfl s.socket)
      when (not (ltb_ℤ flags (pos 0)))
          (do get_number host (Call.setfl s.socket (with_nonblock flags)); pure tt)
      call (Call.handle_unlock h)
      pure (not (ltb_ℤ flags (pos 0)))

  unfoldable pub set_send_size : ℕ → ℤ → M Sock (Unit {0})
  set_send_size h size = do
    p ← get_pointer host (Call.handle_lock h)
    if p == 0 then pure tt else do
      s ← load p
      get_number host (Call.setsockopt s.socket SockOpt.sndbuf size)
      call (Call.handle_unlock h)

  unfoldable pub set_recv_size : ℕ → ℤ → M Sock (Unit {0})
  set_recv_size h size = do
    p ← get_pointer host (Call.handle_lock h)
    if p == 0 then pure tt else do
      s ← load p
      get_number host (Call.setsockopt s.socket SockOpt.rcvbuf size)
      call (Call.handle_unlock h)
