-- ===== src/Host.antt =====
-- What the platform code calls and does not implement: the handle table and heap of of_core, and
-- the system's sockets. Every call is an event of a trace, with what it returned. The answers come
-- from a `Host`, which may decide each of them by all that happened before, so a statement about
-- every host is one about every behaviour of the callees.
pub mod Counts
use of_core_darwin.Base.{
  ℕ, Bool, true, false, Option, none, some, List, [], ◌∷◌, ◌==◌, if◌then◌else◌,
}
use Prim.Native.String.{String}
use of_core_darwin.Base.Int.{ℤ}

-- Address families of the system.
pub data Af : Type 0 where
  inet inet6 af_other : Af

-- A `struct sockaddr`: the port stands at one place in `sockaddr_in` and `sockaddr_in6`, `addr` is
-- the first's address, `addr6` and `scope` are the second's. All but `scope` are network bytes.
pub record SockAddr : Type 0 where
  pub family : Af
  pub port : List ℕ
  pub addr : List ℕ
  pub addr6 : List ℕ
  pub scope : ℕ

pub data SockKind : Type 0 where
  sock_stream sock_dgram sock_raw : SockKind

pub data Protocol : Type 0 where
  tcp udp icmp icmpv6 : Protocol

pub data SockOpt : Type 0 where
  broadcast nosigpipe reuseport sndbuf rcvbuf : SockOpt

pub data HandleType : Type 0 where
  socket_impl event_handle thread_handle process_handle : HandleType

-- A call with its arguments. File descriptors, sizes and options are C's `int`.
pub data Call : Type 0 where
  malloc : Call
  free : ℕ → Call
  handle_create : HandleType → ℕ → Call
  handle_lock handle_unlock handle_destroy handle_get_wait_set : ℕ → Call
  socket : Af → SockKind → Protocol → Call
  close accept getpeername getsockname getfl : ℤ → Call
  setfl listen : ℤ → ℤ → Call
  setsockopt : ℤ → SockOpt → ℤ → Call
  bind connect : ℤ → SockAddr → ℕ → Call
  send : ℤ → List ℕ → ℤ → Call
  sendto : ℤ → List ℕ → ℤ → SockAddr → ℕ → Call
  recv recvfrom : ℤ → ℤ → Call
  cond_broadcast cond_wait mutex_lock mutex_unlock : ℕ → Call
  cond_init mutex_init cond_destroy mutex_destroy : ℕ → Call
  waitset_signal : ℕ → ℕ → Call
  waitset_wake event_set : ℕ → Call
  -- A thread is known by the address of its object.
  pthread_create pthread_join pthread_cancel pthread_detach : ℕ → Call
  set_detachstate : Bool → Call
  -- The function that a thread runs, with its handle.
  scheduler : ℕ → Call
  sleep usleep : ℕ → Call
  testcancel key_create : Call
  key_delete getspecific : ℕ → Call
  setspecific : ℕ → ℕ → Call
  mutexattr_init mutexattr_recursive mutexattr_destroy mutex_trylock : ℕ → Call
  getpid fork : Call
  -- SIG_BLOCK or not, and the signal.
  sigmask : Bool → ℤ → Call
  sigaction : ℤ → ℕ → Call
  -- Strings of of_core converted to C strings in new memory, and back.
  tstr2cstr cstr2tstr getpwnam setgid setuid : ℕ → Call
  execve : ℕ → List ℕ → Call
  waitpid : ℤ → Call
  kill : ℤ → ℤ → Call
  write_console : Call
  getenv : String → Call
  tstrncpy : ℕ → ℕ → ℕ → Call
  pipe : ℕ → Call
  realloc : ℕ → Call
  queue_create : Call
  ignore_signal : ℤ → Call
  queue_destroy : ℕ → Call

pub data Event : Type 0 where
  -- A call that returned a pointer or a handle, a number, or nothing.
  gave : Call → ℕ → Event
  returned : Call → ℤ → Event
  did : Call → Event

pub record Host : Type 0 where
  pub pointer : List Event → Call → ℕ
  pub number : List Event → Call → ℤ
  -- `errno`, and what the last call left in the buffers that it was given.
  pub errno : List Event → ℤ
  pub sockaddr : List Event → SockAddr
  pub bytes : List Event → List ℕ

-- The objects of one type that the code has allocated, by address, and the trace, newest first.
pub record World (A : Type 0) : Type 0 where
  pub object : ℕ → Option A
  pub trace : List Event

-- `none` is a fault: an access through NULL or to an object that is not there.
abbrev pub M : Type 0 → Type 0 → Type 0
M A X = World A → Option (X × World A)

module _ {A : Type 0} where
  abbrev pub pure : {X : Type 0} → X → M A X
  pure x w = some (x, w)

  infixl 5 ◌>>=◌ ◌>>◌
  abbrev pub ◌>>=◌ : {X Y : Type 0} → M A X → (X → M A Y) → M A Y
  ◌>>=◌ m f w = elim (m w) [ none ↦ none | some (x, w') ↦ f x w' ]

  abbrev pub ◌>>◌ : {X Y : Type 0} → M A X → M A Y → M A Y
  m >> k = m >>= λ _. k

  abbrev pub call : Call → M A (Unit {0})
  call c w = some (tt, record w { trace = did c ∷ w.trace })

  abbrev pub set_object : (ℕ → Option A) → ℕ → Option A → ℕ → Option A
  set_object f p x q = if q == p then x else f q

  -- `*p`.
  abbrev pub load : ℕ → M A A
  load p w = elim (p == 0) [
    | true ↦ none
    | false ↦ elim (w.object p) [ none ↦ none | some x ↦ some (x, w) ]
  ]

  -- Fill memory that was just allocated.
  abbrev pub fill : ℕ → A → M A (Unit {0})
  fill p x w = elim (p == 0) [
    | true ↦ none
    | false ↦ some (tt, record w { object = set_object w.object p (some x) })
  ]

  -- Write fields of `*p`.
  abbrev pub update : ℕ → (A → A) → M A (Unit {0})
  update p f = do x ← load p; fill p (f x)

  -- `ofc_free` of an object.
  abbrev pub free_object : ℕ → M A (Unit {0})
  free_object p w =
      some (tt, record w { object = set_object w.object p none; trace = did (free p) ∷ w.trace })

  -- An access through a pointer to memory that is not an object of the table.
  abbrev pub touch : ℕ → M A (Unit {0})
  touch p w = elim (p == 0) [ true ↦ none | false ↦ some (tt, w) ]

  module _ (host : Host) where
    abbrev pub get_pointer : Call → M A ℕ
    get_pointer c w =
        let p = host.pointer w.trace c in some (p, record w { trace = gave c p ∷ w.trace })

    abbrev pub get_number : Call → M A ℤ
    get_number c w =
        let z = host.number w.trace c in some (z, record w { trace = returned c z ∷ w.trace })

    abbrev pub get_errno : M A ℤ
    get_errno w = some (host.errno w.trace, w)

    abbrev pub get_sockaddr : M A SockAddr
    get_sockaddr w = some (host.sockaddr w.trace, w)

    abbrev pub get_bytes : M A (List ℕ)
    get_bytes w = some (host.bytes w.trace, w)

-- A run returns, and what it returns meets `P`.
abbrev pub Ensures : {A X : Type 0} → (X → World A → Type 0) → Option (X × World A) → Type 0
Ensures P none = ⊥
Ensures P (some (x, w)) = P x w

-- A run that meets `P` meets what follows from it.
pub weaker :
    {A X : Type 0} {P Q : X → World A → Type 0} (m : Option (X × World A))
    → Ensures P m
    → ((x : X) (w : World A) → P x w → Q x w)
    → Ensures Q m
weaker none p f = p
weaker (some (x, w)) p f = f x w p

continued_from :
    {A X Y : Type 0} (P : X → World A → Type 0) (Q : Y → World A → Type 0)
    (o : Option (X × World A)) (f : X → M A Y)
    → Ensures P o
    → ((x : X) (w : World A) → P x w → Ensures Q (f x w))
    → Ensures Q (elim o [ none ↦ none | some (x, w) ↦ f x w ])
continued_from P Q none f p q = p
continued_from P Q (some (x, w)) f p q = q x w p

-- A program goes on from where a run of its first part ends.
pub continued :
    {A X Y : Type 0} (P : X → World A → Type 0) (Q : Y → World A → Type 0) (m : M A X)
    (f : X → M A Y) (w : World A)
    → Ensures P (m w)
    → ((x : X) (w' : World A) → P x w' → Ensures Q (f x w'))
    → Ensures Q ((m >>= f) w)
continued P Q m f w p q = continued_from P Q (m w) f p q
