-- ===== src/Thread/Requests.antt =====
-- Every operation on threads as one request, for what holds of all of them.
use of_core_darwin.Base.{ℕ, ◌≡◌, some, arith}
use of_core_darwin.Host.{Host, World, M, pure, ◌>>◌}
use of_core_darwin.Host.Counts.{LocksKept}
use of_core_darwin.Thread.{
  DetachState, detached, joined, other_state, DarwinThread, launch, create, set_waitset, delete,
  wait, is_deleting, detach,
}

-- A new thread runs to its end before its creator goes on, or not yet.
pub data Request : Type 0 where
  launches : (DarwinThread → DarwinThread) → ℕ → Request
  creates_run : (DarwinThread → DarwinThread) → DarwinThread → DetachState → ℕ → Request
  creates : DarwinThread → DetachState → ℕ → Request
  sets_waitset : ℕ → ℕ → Request
  deletes waits asks_deleting detaches : ℕ → Request

abbrev pub serve : Host → Request → M DarwinThread (Unit {0})
serve host (launches others p) = launch host others p
serve host (creates_run others memory state notify) = do
  create host (launch host others) memory state notify
  pure tt
serve host (creates memory state notify) = do
  create host (λ p. pure tt) memory state notify
  pure tt
serve host (sets_waitset h set) = set_waitset host h set
serve host (deletes h) = delete host h
serve host (waits h) = wait host h
serve host (asks_deleting h) = do is_deleting host h; pure tt
serve host (detaches h) = detach host h

-- Whatever the callees answer, an operation on threads that returns has given back every lock that it took
-- of any handle.
pub serve-LocksReturned :
    (host : Host) (k : ℕ) (w w' : World DarwinThread) (r : Request)
    → serve host r w ≡ some (tt, w')
    → LocksKept k w w'
unfolding launch create set_waitset delete wait is_deleting detach
serve-LocksReturned host k w w' (launches others p) e = ground arith
serve-LocksReturned host k w w' (creates_run others memory detached notify) e = ground arith
serve-LocksReturned host k w w' (creates_run others memory joined notify) e = ground arith
serve-LocksReturned host k w w' (creates_run others memory other_state notify) e = ground arith
serve-LocksReturned host k w w' (creates memory detached notify) e = ground arith
serve-LocksReturned host k w w' (creates memory joined notify) e = ground arith
serve-LocksReturned host k w w' (creates memory other_state notify) e = ground arith
serve-LocksReturned host k w w' (sets_waitset h set) e = ground arith
serve-LocksReturned host k w w' (deletes h) e = ground arith
serve-LocksReturned host k w w' (waits h) e = ground arith
serve-LocksReturned host k w w' (asks_deleting h) e = ground arith
serve-LocksReturned host k w w' (detaches h) e = ground arith
