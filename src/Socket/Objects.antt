-- ===== src/Socket/Objects.antt =====
-- What the operations leave in the socket object, and what the next ones read there.
use of_core_darwin.Base.{
  ℕ, suc, ◌+◌, ◌≡◌, ◌≢◌, false, Option, some, none, List, ◌∷◌, if◌then◌else◌, arith, length,
}
use of_core_darwin.Base.Int.{ℤ, pos, negsuc, ltb_ℤ, eqb_ℤ, ◌≤ℤ◌, to_int}
use of_core_darwin.Host.{
  Call, inet, inet6, Event, gave, returned, SockOpt, Host, World, Ensures, M, ◌>>=◌, ◌>>◌, pure,
}
use of_core_darwin.Socket.Transfer.{send, transfer_result}
use of_core_darwin.Host.Counts.{total}
use of_core_darwin.Socket.{Sock, Family, is_ip, SocketType, IpAddr, OfCore}
use of_core_darwin.Socket.Poll.{event_test, poll_mask, set_event, get_event, get_fd, test, enable}
use of_core_darwin.Socket.Setup.{
  create, destroy, close, accept, any_address, kind_of, protocol_of, eagain,
}

-- A handle that resolves to one object for as long as the run lasts.
abbrev pub Live : Host → ℕ → ℕ → Type 0
Live host h p = ((trace : List Event) → host.pointer trace (Call.handle_lock h) ≡ p) × (p ≢ 0)

-- A round of `ofc_waitset_wait_impl` as a socket sees it, and what its user reads after it.
abbrev pub poll_round : OfCore → Host → ℕ → ℕ → ℕ → M Sock (ℕ × ℕ × ℤ)
poll_round core host h type revents = do
  enable core host h type
  set_event core host h revents
  asked ← get_event core host h
  seen ← test core host h
  fd ← get_fd core host h
  pure (asked, seen, fd)

module _ (core : OfCore) (host : Host) (h p : ℕ) (live : Live host h p) (w : World Sock) (s : Sock)
    (here : w.object p ≡ some s) where
  -- On a live handle, what `enable` and `set_event` wrote is what `get_event` and `test` read: the mask for `poll` and
  -- its answer are two fields, and neither write touches the other or the descriptor.
  pub poll_round_lem :
      (type revents : ℕ)
      → Ensures
          (λ read w'.
            (read ≡ (poll_mask core type, event_test core revents, s.socket))
            × (w'.object p ≡ some (record s { events = poll_mask core type; revents = revents })))
          (poll_round core host h type revents w)
  unfolding enable set_event get_event test get_fd
  poll_round_lem type revents = grind arith

-- Calls of the system's `close`.
abbrev pub close_of : Event → ℕ
close_of (returned (Call.close fd) z) = 1
close_of _ = 0

module _ (core : OfCore) (host : Host) (h p : ℕ) (live : Live host h p) (w : World Sock) (s : Sock)
    (here : w.object p ≡ some s) where
  -- On a live handle, closing and then destroying an object ends, and calls the system's `close` once
  -- in all; the object is gone.
  pub close-destroy :
      Ensures
        (λ _ w'. (total close_of w'.trace ≡ suc (total close_of w.trace)) × (w'.object p ≡ none))
        ((do close core host h; destroy core host h) w)
  unfolding close destroy
  close-destroy = grind arith

  -- Destroying an open socket closes its descriptor.
  pub destroy_closes :
      (fd : ℕ)
      → s.socket ≡ pos fd
      → Ensures
          (λ _ w'. (total close_of w'.trace ≡ suc (total close_of w.trace)) × (w'.object p ≡ none))
          (destroy core host h w)
  unfolding destroy
  destroy_closes fd e = grind arith

-- Calls that set SO_NOSIGPIPE on descriptor `fd`.
abbrev pub nosigpipe_of : ℤ → Event → ℕ
nosigpipe_of fd (returned (Call.setsockopt d SockOpt.nosigpipe v) z) = if eqb_ℤ d fd then 1 else 0
nosigpipe_of fd _ = 0

-- `create` always returns, and gives a handle only with a new object, in the block that was
-- allocated: its descriptor is what the system gave and is open, no event is asked for or pending,
-- and its family is the one that was asked for.
pub create_fresh :
    (core : OfCore) (host : Host) (w : World Sock) (family : Family) (kind : SocketType)
    → let p = host.pointer w.trace Call.malloc in
      let address = any_address core family (core.memory p).ip_address in
      let fd = host.number (gave Call.malloc p ∷ w.trace) (
        Call.socket
          (if is_ip family then inet else inet6)
          (kind_of kind)
          (protocol_of kind address.version)) in
      Ensures
        (λ new w'.
          new ≢ 0
          → (ltb_ℤ fd (pos 0) ≡ false)
            × (w'.object p
                ≡ some (record {
                  socket = fd;
                  family = family;
                  events = 0;
                  revents = 0;
                  ip_address = address;
                })))
        (create core host family kind w)
unfolding create
create_fresh core host w family kind = grind arith

module _ (core : OfCore) (host : Host) (w w' : World Sock) where
  -- A handle comes from `accept` only if the system's `accept` on the listening descriptor gave a
  -- descriptor, and with an object that has this descriptor and is otherwise the memory that it was
  -- allocated in; the option SO_NOSIGPIPE is set on the listening descriptor, and on no other.
  pub accept_lem :
      (h : ℕ) (address : Option IpAddr) (port : Option ℕ) (listener : Sock) {new : ℕ}
      {address' : Option IpAddr} {port' : Option ℕ}
      → accept core host h address port w ≡ some ((new, address', port'), w')
      → new ≢ 0
      → w.object (host.pointer w.trace (Call.handle_lock h)) ≡ some listener
      → let answer : Call → List Event → List Event = λ c t. gave c (host.pointer t c) ∷ t in
        let locked = answer (Call.handle_lock h) w.trace in
        let q = host.pointer locked Call.malloc in
        let fd =
          host.number
            (answer Call.malloc (answer Call.malloc locked))
            (Call.accept listener.socket) in
        (fd ≢ negsuc 0)
        × (w'.object q ≡ some (record (core.memory q) { socket = fd }))
        × ((d : ℤ)
            → total (nosigpipe_of d) w'.trace
              ≡ total (nosigpipe_of d) w.trace + (if eqb_ℤ listener.socket d then 1 else 0))
  unfolding accept
  accept_lem h address port listener e ne l = (ground arith, ground arith, λ d. ground arith)

-- The result that a caller sees, by what the system's call returned: a count, or -1.
abbrev pub transfer_spec : ℤ → ℤ → ℤ
transfer_spec (pos n) errno = pos n
transfer_spec (negsuc n) errno = if eqb_ℤ errno eagain then pos 0 else negsuc 0

-- On a handle that resolves, `send` ends and returns the system's count, 0 when nothing could be sent
-- yet, and -1 on any other error, whether or not `OFC_SIZET` is signed, if the system returns no
-- less than -1.
pub send_result :
    (core : OfCore) (host : Host) (h p : ℕ) (buf : List ℕ) (w : World Sock) (s : Sock)
    → host.pointer w.trace (Call.handle_lock h) ≡ p
    → p ≢ 0
    → w.object p ≡ some s
    → let locked = gave (Call.handle_lock h) p ∷ w.trace in
      let sending = Call.send s.socket buf (to_int (length buf)) in
      let status = host.number locked sending in
      negsuc 0 ≤ℤ status
      → Ensures
          (λ ret w'. ret ≡ transfer_spec status (host.errno (returned sending status ∷ locked)))
          (send core host h buf w)
unfolding send transfer_result
send_result core host h p buf w s e ne here bound = grind arith
