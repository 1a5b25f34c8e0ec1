-- ===== src/Socket/Requests.antt =====
-- Every operation on sockets as one request, for what holds of all of them.
pub mod Locks
pub mod Memory
pub mod Frame
pub mod Returns
use of_core_darwin.Base.{ℕ, Bool, false, Option, none, some, List, []}
use of_core_darwin.Base.Int.{ℤ, negsuc}
use of_core_darwin.Host.{Host, M, pure, ◌>>=◌, ◌>>◌}
use of_core_darwin.Socket.{Family, SocketType, IpAddr, EndPoint, Sock, OfCore}
use of_core_darwin.Socket
use of_core_darwin.Socket.Poll
use of_core_darwin.Socket.Setup
use of_core_darwin.Socket.Transfer

pub data Request : Type 0 where
  create : Family → SocketType → Request
  destroy close connected get_event get_fd test : ℕ → Request
  bind connect : ℕ → IpAddr → ℕ → Request
  listen set_send_size set_recv_size : ℕ → ℤ → Request
  accept : ℕ → Option IpAddr → Option ℕ → Request
  reuse_addr no_block : ℕ → Bool → Request
  send : ℕ → List ℕ → Request
  sendto : EndPoint → ℕ → List ℕ → IpAddr → ℕ → Request
  recv : ℕ → ℕ → Request
  recv_from : ℕ → ℕ → Option IpAddr → Option ℕ → Request
  set_event enable : ℕ → ℕ → Request
  get_addresses : ℕ → EndPoint → EndPoint → Request

pub data Reply : Type 0 where
  nothing : Reply
  handle word : ℕ → Reply
  flag : Bool → Reply
  number : ℤ → Reply
  data_read : ℤ → List ℕ → Reply
  data_from : ℤ → List ℕ → Option IpAddr → Option ℕ → Reply
  accepted : ℕ → Option IpAddr → Option ℕ → Reply
  ends : Bool → EndPoint → EndPoint → Reply

module _ (core : OfCore) (host : Host) where
  abbrev pub serve : Request → M Sock Reply
  serve (create family kind) = do new ← Setup.create core host family kind; pure (handle new)
  serve (destroy h) = do Setup.destroy core host h; pure nothing
  serve (close h) = do ret ← Setup.close core host h; pure (flag ret)
  serve (connected h) = do ret ← Setup.connected core host h; pure (flag ret)
  serve (get_event h) = do events ← Poll.get_event core host h; pure (word events)
  serve (get_fd h) = do fd ← Poll.get_fd core host h; pure (number fd)
  serve (test h) = do events ← Poll.test core host h; pure (word events)
  serve (bind h address port) = do ret ← Setup.bind core host h address port; pure (flag ret)
  serve (connect h address port) = do ret ← Setup.connect core host h address port; pure (flag ret)
  serve (listen h backlog) = do ret ← Setup.listen core host h backlog; pure (flag ret)
  serve (set_send_size h size) = do Setup.set_send_size core host h size; pure nothing
  serve (set_recv_size h size) = do Setup.set_recv_size core host h size; pure nothing
  serve (accept h address port) = do
    (new, address', port') ← Setup.accept core host h address port
    pure (accepted new address' port')
  serve (reuse_addr h onoff) = do ret ← Setup.reuse_addr core host h onoff; pure (flag ret)
  serve (no_block h onoff) = do ret ← Setup.no_block core host h onoff; pure (flag ret)
  serve (send h buf) = do ret ← Transfer.send core host h buf; pure (number ret)
  serve (sendto e h buf address port) = do
    ret ← Transfer.sendto core host e h buf address port
    pure (number ret)
  serve (recv h len) = do (ret, buf) ← Transfer.recv core host h len; pure (data_read ret buf)
  serve (recv_from h len address port) = do
    (ret, buf, address', port') ← Transfer.recv_from core host h len address port
    pure (data_from ret buf address' port')
  serve (set_event h revents) = do Poll.set_event core host h revents; pure nothing
  serve (enable h type) = do ret ← Poll.enable core host h type; pure (flag ret)
  serve (get_addresses h local remote) = do
    (ret, local', remote') ← Transfer.get_addresses core host h local remote
    pure (ends ret local' remote')

-- The handle that a request is about.
abbrev pub target : Request → Option ℕ
target (create family kind) = none
target (destroy h) = some h
target (close h) = some h
target (connected h) = some h
target (get_event h) = some h
target (get_fd h) = some h
target (test h) = some h
target (bind h address port) = some h
target (connect h address port) = some h
target (listen h backlog) = some h
target (set_send_size h size) = some h
target (set_recv_size h size) = some h
target (accept h address port) = some h
target (reuse_addr h onoff) = some h
target (no_block h onoff) = some h
target (send h buf) = some h
target (sendto e h buf address port) = some h
target (recv h len) = some h
target (recv_from h len address port) = some h
target (set_event h revents) = some h
target (enable h type) = some h
target (get_addresses h local remote) = some h

-- The reply to a request whose handle does not resolve.
abbrev pub refusal : Request → Reply
refusal (create family kind) = handle 0
refusal (destroy h) = nothing
refusal (close h) = flag false
refusal (connected h) = flag false
refusal (get_event h) = word 0
refusal (get_fd h) = number (negsuc 0)
refusal (test h) = word 0
refusal (bind h address port) = flag false
refusal (connect h address port) = flag false
refusal (listen h backlog) = flag false
refusal (set_send_size h size) = nothing
refusal (set_recv_size h size) = nothing
refusal (accept h address port) = accepted 0 address port
refusal (reuse_addr h onoff) = flag false
refusal (no_block h onoff) = flag false
refusal (send h buf) = number (negsuc 0)
refusal (sendto e h buf address port) = number (negsuc 0)
refusal (recv h len) = data_read (negsuc 0) []
refusal (recv_from h len address port) = data_from (negsuc 0) [] address port
refusal (set_event h revents) = nothing
refusal (enable h type) = flag false
refusal (get_addresses h local remote) = ends false local remote

-- The blocks that a request may allocate and keep, and may give back.
abbrev pub opens : Request → ℕ
opens (create family kind) = 1
opens (accept h address port) = 1
opens _ = 0

abbrev pub closes : Request → ℕ
closes (destroy h) = 1
closes _ = 0
