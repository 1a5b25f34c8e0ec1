-- ===== src/Socket/Requests/Returns.antt =====
-- Every operation on a socket comes to an end.
use of_core_darwin.Base.{ℕ, ◌≡◌, ◌≢◌, Bool, true, false, some, none, List, arith}
use of_core_darwin.Host.{Call, Event, Host, World, Ensures}
use of_core_darwin.Socket.{EndPoint, IpAddr, Sock, OfCore}
use of_core_darwin.Socket.Address.{make_sockaddr, unmake-some}
use of_core_darwin.Socket.Poll
use of_core_darwin.Socket.Setup
use of_core_darwin.Socket.Transfer
use of_core_darwin.Socket.Requests.{Request, serve, target}

-- The caller gives memory for the address and port that an operation returns.
abbrev pub gives_room : Request → Bool
gives_room (Request.accept h none port) = false
gives_room (Request.accept h (some address) none) = false
gives_room (Request.recv_from h len none port) = false
gives_room (Request.recv_from h len (some address) none) = false
gives_room r = true

module _ (core : OfCore) (host : Host) (h : ℕ) (w : World Sock) where
  get_addresses_returns :
      (local remote : EndPoint) (v : World Sock) (p : ℕ) (sock : Sock)
      → host.pointer v.trace (Call.handle_lock h) ≡ p
      → v.object p ≡ some sock
      → ((trace : List Event) → host.pointer trace Call.malloc ≢ 0)
      → Ensures (λ reply w'. Unit {0}) (Transfer.get_addresses core host h local remote v)
  unfolding Transfer.get_addresses
  get_addresses_returns local remote v p sock live here room = grind (arith, unmake-some core)

  sendto_returns :
      (scratch : EndPoint) (buf : List ℕ) (address : IpAddr) (port p : ℕ) (sock : Sock)
      → ((trace : List Event) → host.pointer trace (Call.handle_lock h) ≡ p)
      → w.object p ≡ some sock
      → ((trace : List Event) → host.pointer trace Call.malloc ≢ 0)
      → Ensures (λ reply w'. Unit {0}) (Transfer.sendto core host scratch h buf address port w)
  unfolding Transfer.get_addresses Transfer.sendto make_sockaddr
  sendto_returns scratch buf address port p sock live here room = grind (arith, unmake-some core)

  -- Every operation on a handle ends, whatever the callees answer, if the handle stands for an object
  -- that is there, no allocation fails, and there is memory for the address and port that it returns.
  pub serve_returns :
      (r : Request) (p : ℕ) (sock : Sock)
      → target r ≡ some h
      → ((trace : List Event) → host.pointer trace (Call.handle_lock h) ≡ p)
      → w.object p ≡ some sock
      → ((trace : List Event) → host.pointer trace Call.malloc ≢ 0)
      → gives_room r ≡ true
      → Ensures (λ reply w'. Unit {0}) (serve core host r w)
  unfolding Poll.enable Poll.get_event Poll.get_fd Poll.set_event Poll.test Setup.accept Setup.bind
      Setup.close Setup.connect Setup.connected Setup.create Setup.destroy Setup.listen
      Setup.no_block Setup.reuse_addr Setup.set_recv_size Setup.set_send_size Transfer.recv
      Transfer.recv_from Transfer.send make_sockaddr
  serve_returns (Request.create f k) q sock t live here room out = grind arith
  serve_returns (Request.destroy h) q sock t live here room out = grind arith
  serve_returns (Request.close h) q sock t live here room out = grind arith
  serve_returns (Request.connected h) q sock t live here room out = grind arith
  serve_returns (Request.get_event h) q sock t live here room out = grind arith
  serve_returns (Request.get_fd h) q sock t live here room out = grind arith
  serve_returns (Request.test h) q sock t live here room out = grind arith
  serve_returns (Request.bind h a p) q sock t live here room out = grind arith
  serve_returns (Request.connect h a p) q sock t live here room out = grind arith
  serve_returns (Request.listen h n) q sock t live here room out = grind arith
  serve_returns (Request.set_send_size h n) q sock t live here room out = grind arith
  serve_returns (Request.set_recv_size h n) q sock t live here room out = grind arith
  serve_returns (Request.accept h (some a) (some p)) q sock t live here room out =
      grind (arith, unmake-some core)
  serve_returns (Request.accept h none p) q sock t live here room out = cc
  serve_returns (Request.accept h (some a) none) q sock t live here room out = cc
  serve_returns (Request.reuse_addr h b) q sock t live here room out = grind arith
  serve_returns (Request.no_block h b) q sock t live here room out = grind arith
  serve_returns (Request.send h b) q sock t live here room out = grind arith
  serve_returns (Request.sendto s h b a p) q sock t live here room out =
      grind (arith, sendto_returns s b a p q sock)
  serve_returns (Request.recv h n) q sock t live here room out = grind arith
  serve_returns (Request.recv_from h n (some a) (some p)) q sock t live here room out =
      grind (arith, unmake-some core)
  serve_returns (Request.recv_from h n none p) q sock t live here room out = cc
  serve_returns (Request.recv_from h n (some a) none) q sock t live here room out = cc
  serve_returns (Request.set_event h n) q sock t live here room out = grind arith
  serve_returns (Request.enable h n) q sock t live here room out = grind arith
  serve_returns (Request.get_addresses h l r) q sock t live here room out =
      grind (arith, get_addresses_returns l r w q sock)
