-- ===== src/Socket/Requests/Locks.antt =====
-- Every operation gives back the locks that it takes.
use of_core_darwin.Base.{ℕ, ◌≡◌, some, arith}
use of_core_darwin.Host.{Host, World}
use of_core_darwin.Host.Counts.{LocksKept}
use of_core_darwin.Socket.{Sock, OfCore}
use of_core_darwin.Socket.Address.{make_sockaddr}
use of_core_darwin.Socket.Poll
use of_core_darwin.Socket.Setup
use of_core_darwin.Socket.Transfer
use of_core_darwin.Socket.Requests.{Request, Reply, serve}

module _ (core : OfCore) (host : Host) (k : ℕ) (w w' : World Sock) {reply : Reply} where
  -- Whatever the callees answer, an operation that returns has given back every lock that it took,
  -- of its own handle and of any other.
  pub serve-LocksKept : (r : Request) → serve core host r w ≡ some (reply, w') → LocksKept k w w'
  unfolding Poll.enable Poll.get_event Poll.get_fd Poll.set_event Poll.test Setup.accept Setup.bind
      Setup.close Setup.connect Setup.connected Setup.create Setup.destroy Setup.listen
      Setup.no_block Setup.reuse_addr Setup.set_recv_size Setup.set_send_size Transfer.get_addresses
      Transfer.recv Transfer.recv_from Transfer.send Transfer.sendto make_sockaddr
  serve-LocksKept (Request.create f t) e = ground arith
  serve-LocksKept (Request.destroy h) e = ground arith
  serve-LocksKept (Request.close h) e = ground arith
  serve-LocksKept (Request.connected h) e = ground arith
  serve-LocksKept (Request.get_event h) e = ground arith
  serve-LocksKept (Request.get_fd h) e = ground arith
  serve-LocksKept (Request.test h) e = ground arith
  serve-LocksKept (Request.bind h a p) e = ground arith
  serve-LocksKept (Request.connect h a p) e = ground arith
  serve-LocksKept (Request.listen h n) e = ground arith
  serve-LocksKept (Request.set_send_size h n) e = ground arith
  serve-LocksKept (Request.set_recv_size h n) e = ground arith
  serve-LocksKept (Request.accept h a p) e = ground arith
  serve-LocksKept (Request.reuse_addr h b) e = ground arith
  serve-LocksKept (Request.no_block h b) e = ground arith
  serve-LocksKept (Request.send h b) e = ground arith
  serve-LocksKept (Request.sendto s h b a p) e = ground arith
  serve-LocksKept (Request.recv h n) e = ground arith
  serve-LocksKept (Request.recv_from h n a p) e = ground arith
  serve-LocksKept (Request.set_event h n) e = ground arith
  serve-LocksKept (Request.enable h n) e = ground arith
  serve-LocksKept (Request.get_addresses h l r) e = ground arith
