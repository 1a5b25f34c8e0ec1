-- ===== src/Socket/Requests/Memory.antt =====
-- What an operation does to the memory and to the objects.
use of_core_darwin.Base.{ℕ, ◌==◌, if◌then◌else◌}
use of_core_darwin.Host.{Call, Host, World}
use of_core_darwin.Socket.{Sock}
use of_core_darwin.Socket.Poll
use of_core_darwin.Socket.Setup
use of_core_darwin.Socket.Transfer
use of_core_darwin.Socket.Requests.{Request}

-- Whether a request gives back its object.
abbrev pub releases : Request → ℕ → ℕ → ℕ
releases (Request.destroy h) p a = if p == a then 1 else 0
releases _ p a = 0

-- The address of the object of a request, when it is served.
abbrev pub object_of : Host → World Sock → Request → ℕ
object_of host w (Request.destroy h) = host.pointer w.trace (Call.handle_lock h)
object_of host w _ = 0
