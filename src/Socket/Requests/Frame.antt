-- ===== src/Socket/Requests/Frame.antt =====
-- A request reaches the object that its handle resolves to, and no other.
use of_core_darwin.Base.{ℕ, ◌≡◌, ◌≢◌, some, ◌∷◌, arith}
use of_core_darwin.Host.{Call, Host, World, gave}
use of_core_darwin.Socket.{Sock, OfCore}
use of_core_darwin.Socket.Address.{make_sockaddr}
use of_core_darwin.Socket.Poll
use of_core_darwin.Socket.Setup
use of_core_darwin.Socket.Transfer
use of_core_darwin.Socket.Requests.{Request, Reply, serve, target, refusal, opens}

module _ (core : OfCore) (host : Host) (h : ℕ) (w : World Sock) where
  -- An operation on a handle that does not resolve ends: it asks for the lock, does nothing more, and
  -- gives the error reply of its kind.
  pub serve_refused :
      (r : Request)
      → target r ≡ some h
      → host.pointer w.trace (Call.handle_lock h) ≡ 0
      → serve core host r w
        ≡ some (refusal r, record w { trace = gave (Call.handle_lock h) 0 ∷ w.trace })
  unfolding Poll.enable Poll.get_event Poll.get_fd Poll.set_event Poll.test Setup.accept Setup.bind
      Setup.close Setup.connect Setup.connected Setup.destroy Setup.listen Setup.no_block
      Setup.reuse_addr Setup.set_recv_size Setup.set_send_size Transfer.get_addresses Transfer.recv
      Transfer.recv_from Transfer.send Transfer.sendto
  serve_refused (Request.create f k) t e = cc
  serve_refused (Request.destroy h) t e = ground arith
  serve_refused (Request.close h) t e = ground arith
  serve_refused (Request.connected h) t e = ground arith
  serve_refused (Request.get_event h) t e = ground arith
  serve_refused (Request.get_fd h) t e = ground arith
  serve_refused (Request.test h) t e = ground arith
  serve_refused (Request.bind h a p) t e = ground arith
  serve_refused (Request.connect h a p) t e = ground arith
  serve_refused (Request.listen h n) t e = ground arith
  serve_refused (Request.set_send_size h n) t e = ground arith
  serve_refused (Request.set_recv_size h n) t e = ground arith
  serve_refused (Request.accept h a p) t e = ground arith
  serve_refused (Request.reuse_addr h b) t e = ground arith
  serve_refused (Request.no_block h b) t e = ground arith
  serve_refused (Request.send h b) t e = ground arith
  serve_refused (Request.sendto s h b a p) t e = ground arith
  serve_refused (Request.recv h n) t e = ground arith
  serve_refused (Request.recv_from h n a p) t e = ground arith
  serve_refused (Request.set_event h n) t e = ground arith
  serve_refused (Request.enable h n) t e = ground arith
  serve_refused (Request.get_addresses h l r) t e = ground arith

  -- An operation other than `create` and `accept` that returns has left every object but its own as it was.
  pub serve_frame :
      (r : Request) {reply : Reply} {w' : World Sock} (q : ℕ)
      → target r ≡ some h
      → opens r ≡ 0
      → serve core host r w ≡ some (reply, w')
      → q ≢ host.pointer w.trace (Call.handle_lock h)
      → w'.object q ≡ w.object q
  unfolding Poll.enable Poll.get_event Poll.get_fd Poll.set_event Poll.test Setup.accept Setup.bind
      Setup.close Setup.connect Setup.connected Setup.create Setup.destroy Setup.listen
      Setup.no_block Setup.reuse_addr Setup.set_recv_size Setup.set_send_size Transfer.get_addresses
      Transfer.recv Transfer.recv_from Transfer.send Transfer.sendto make_sockaddr
  serve_frame (Request.create f k) q t o e other = ground arith
  serve_frame (Request.destroy h) q t o e other = ground arith
  serve_frame (Request.close h) q t o e other = ground arith
  serve_frame (Request.connected h) q t o e other = ground arith
  serve_frame (Request.get_event h) q t o e other = ground arith
  serve_frame (Request.get_fd h) q t o e other = ground arith
  serve_frame (Request.test h) q t o e other = ground arith
  serve_frame (Request.bind h a p) q t o e other = ground arith
  serve_frame (Request.connect h a p) q t o e other = ground arith
  serve_frame (Request.listen h n) q t o e other = ground arith
  serve_frame (Request.set_send_size h n) q t o e other = ground arith
  serve_frame (Request.set_recv_size h n) q t o e other = ground arith
  serve_frame (Request.accept h a p) q t o e other = ground arith
  serve_frame (Request.reuse_addr h b) q t o e other = ground arith
  serve_frame (Request.no_block h b) q t o e other = ground arith
  serve_frame (Request.send h b) q t o e other = ground arith
  serve_frame (Request.sendto s h b a p) q t o e other = ground arith
  serve_frame (Request.recv h n) q t o e other = ground arith
  serve_frame (Request.recv_from h n a p) q t o e other = ground arith
  serve_frame (Request.set_event h n) q t o e other = ground arith
  serve_frame (Request.enable h n) q t o e other = ground arith
  serve_frame (Request.get_addresses h l r) q t o e other = ground arith
