-- ===== src/Socket/Transfer.antt =====
-- Sending, receiving, and the addresses of the two ends.
use mathlib.Core.Option
use of_core_darwin.Base.{
  ℕ, Bool, true, false, not, ◌&&◌, ◌||◌, Option, none, some, List, [], length, ◌==◌, if◌then◌else◌,
}
use of_core_darwin.Base.Int.{ℤ, pos, ltb_ℤ, eqb_ℤ, to_int}
use of_core_darwin.Host.{
  Af, inet, SockAddr, Call, Host, M, pure, ◌>>=◌, ◌>>◌, call, load, touch, get_pointer, get_number,
  get_errno, get_sockaddr, get_bytes,
}
use of_core_darwin.Socket.{Family, ip, ipv6, IpAddr, EndPoint, Sock, OfCore}
use of_core_darwin.Socket.Address.{make_sockaddr, unmake_sockaddr}
use of_core_darwin.Socket.Setup.{eagain, minus_one, is_error, when}

-- `status >= 0`, which an unsigned `OFC_SIZET` always meets.
abbrev pub at_least_zero : OfCore → ℤ → Bool
at_least_zero core status = if core.sizet_signed then not (ltb_ℤ status (pos 0)) else true

-- The result of a transfer: nothing yet for EAGAIN, the count, or -1.
unfoldable pub transfer_result : OfCore → ℤ → ℤ → ℤ
transfer_result core status errno =
    if is_error status && eqb_ℤ errno eagain
    then pos 0
    else if at_least_zero core status
    then status
    else minus_one

abbrev pub family_of : Af → Family
family_of inet = ip
family_of _ = ipv6

module _ (core : OfCore) (host : Host) where
  unfoldable pub send : ℕ → List ℕ → M Sock ℤ
  send h buf = do
    p ← get_pointer host (Call.handle_lock h)
    if p == 0 then pure minus_one else do
      s ← load p
      status ← get_number host (Call.send s.socket buf (to_int (length buf)))
      errno ← get_errno host
      call (Call.handle_unlock h)
      pure (transfer_result core status errno)

  -- The bytes that arrived stand beside the result; they lie in the caller's buffer.
  unfoldable pub recv : ℕ → ℕ → M Sock (ℤ × List ℕ)
  recv h len = do
    p ← get_pointer host (Call.handle_lock h)
    if p == 0 then pure (minus_one, []) else do
      s ← load p
      status ← get_number host (Call.recv s.socket (to_int len))
      errno ← get_errno host
      buf ← get_bytes host
      call (Call.handle_unlock h)
      pure (transfer_result core status errno, buf)

  -- The address of an end, written over the caller's structure.
  pub end_point : SockAddr → EndPoint → M Sock EndPoint
  end_point sa old w = elim (unmake_sockaddr core sa (some old.sin_addr) (some old.sin_port)) [
    | some (some address, some port) ↦
        some (record { sin_family = family_of sa.family; sin_addr = address; sin_port = port }, w)
    | _ ↦ none
  ]

  pub found_end : ℕ → SockAddr → EndPoint → Bool → M Sock (Bool × EndPoint)
  unfolding end_point
  found_end block sa remote true = do touch block; e ← end_point sa remote; pure (true, e)
  found_end block sa remote false = pure (false, remote)

  -- The remote half of `ofc_socket_impl_get_addresses`. A block is read without a test for NULL.
  pub remote_end : ℤ → EndPoint → M Sock (Bool × EndPoint)
  unfolding found_end
  remote_end fd remote = do
    block ← get_pointer host Call.malloc
    status ← get_number host (Call.getpeername fd)
    sa ← get_sockaddr host
    result ← found_end block sa remote (eqb_ℤ status (pos 0))
    call (Call.free block)
    pure result

  pub both_ends :
      ℕ → ℤ → SockAddr → EndPoint → EndPoint → Bool → M Sock (Bool × EndPoint × EndPoint)
  unfolding end_point remote_end
  both_ends block fd sa local remote true = do
    touch block
    local' ← end_point sa local
    (ret, remote') ← remote_end fd remote
    pure (ret, local', remote')
  both_ends block fd sa local remote false = pure (false, local, remote)

  unfoldable pub get_addresses : ℕ → EndPoint → EndPoint → M Sock (Bool × EndPoint × EndPoint)
  unfolding both_ends
  get_addresses h local remote = do
    p ← get_pointer host (Call.handle_lock h)
    if p == 0 then pure (false, local, remote) else do
      block ← get_pointer host Call.malloc
      s ← load p
      status ← get_number host (Call.getsockname s.socket)
      sa ← get_sockaddr host
      result ← both_ends block s.socket sa local remote (eqb_ℤ status (pos 0))
      call (Call.free block)
      call (Call.handle_unlock h)
      pure result

  -- The error branch of `ofc_socket_impl_sendto`, which logs the two ends, leaves its result alone.
  unfoldable pub sendto : (scratch : EndPoint) → ℕ → List ℕ → IpAddr → ℕ → M Sock ℤ
  unfolding get_addresses
  sendto scratch h buf address port = do
    p ← get_pointer host (Call.handle_lock h)
    if p == 0 then pure minus_one else do
      (block, sa, len) ← make_sockaddr core host address port
      s ← load p
      status ← get_number host (Call.sendto s.socket buf (to_int (length buf)) sa len)
      errno ← get_errno host
      when (not (is_error status && eqb_ℤ errno eagain || at_least_zero core status))
          (do get_addresses h scratch scratch; pure tt)
      call (Call.free block)
      call (Call.handle_unlock h)
      pure (transfer_result core status errno)

  -- What `recv_from` does with a result: the address is only read from a transfer that succeeded.
  pub received : SockAddr → Option IpAddr → Option ℕ → Bool → M Sock (Option IpAddr × Option ℕ)
  received sa address port true =
      λ w. Option.map (λ r. (r, w)) (unmake_sockaddr core sa address port)
  received sa address port false = pure (address, port)

  unfoldable pub recv_from :
      ℕ → ℕ → Option IpAddr → Option ℕ → M Sock (ℤ × List ℕ × Option IpAddr × Option ℕ)
  unfolding received
  recv_from h len address port = do
    p ← get_pointer host (Call.handle_lock h)
    if p == 0 then pure (minus_one, [], address, port) else do
      block ← get_pointer host Call.malloc
      touch block
      s ← load p
      status ← get_number host (Call.recvfrom s.socket (to_int len))
      errno ← get_errno host
      buf ← get_bytes host
      sa ← get_sockaddr host
      (address', port') ←
          received sa address port
            (not (is_error status && eqb_ℤ errno eagain) && at_least_zero core status)
      call (Call.free block)
      call (Call.handle_unlock h)
      pure (transfer_result core status errno, buf, address', port')
