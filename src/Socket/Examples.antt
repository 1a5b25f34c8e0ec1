-- ===== src/Socket/Examples.antt =====
-- A host and a socket on which the theorems are applied.
use of_core_darwin.Base.{
  ℕ, ◌+◌, ◌*◌, ◌/◌, ◌%◌, ◌^◌, ◌≡◌, ◌≢◌, refl, true, false, Option, none, some, List, [], ◌∷◌, ◌==◌,
  if◌then◌else◌, arith,
}
use of_core_darwin.Base.Int.{ℤ, pos, negsuc, eqb_ℤ}
use of_core_darwin.Base.Bits.{overlaps}
use of_core_darwin.Host.{Call, inet, gave, SockAddr, Host, World, Ensures}
use of_core_darwin.Host.Counts.{LocksKept, total}
use of_core_darwin.Socket.{
  ip, ipv6, IpAddr, EndPoint, Sock, SocketEvent, on_close, on_accept, on_address_change, on_qos,
  on_qob, on_read, on_write, OfCore,
}
use of_core_darwin.Socket.Address.{
  make_sockaddr, IsByteOrder, filled_sockaddr, unmake_sockaddr, unmake-make_ipv6, zeroes,
}
use of_core_darwin.Socket.Poll.{
  event_test, poll_mask, IsEventBits, event_test_iff, condition, poll_word, PollBit, bit_of, wanted,
  poll_mask_iff,
}
use of_core_darwin.Socket.Setup
use of_core_darwin.Socket.Requests.{Request, serve, Reply}
use of_core_darwin.Socket.Requests.Locks.{serve-LocksKept}
use of_core_darwin.Socket.Requests.Frame.{serve_refused, serve_frame}
use of_core_darwin.Socket.Requests.Returns.{serve_returns}
use of_core_darwin.Socket.Objects.{Live, nosigpipe_of, poll_round, poll_round_lem, accept_lem}

abbrev no_address : IpAddr
no_address = record { version = ip; addr = 0; addr6 = zeroes 16; scope = 0 }

abbrev nowhere : EndPoint
nowhere = record { sin_family = ip; sin_addr = no_address; sin_port = 0 }

abbrev stale : Sock
stale = record {
  socket = pos 77;
  family = ip;
  events = 255;
  revents = 255;
  ip_address = no_address;
}

abbrev event_bit : SocketEvent → ℕ
event_bit on_close = 1
event_bit on_accept = 2
event_bit on_address_change = 4
event_bit on_qos = 8
event_bit on_qob = 16
event_bit on_read = 32
event_bit on_write = 64

abbrev decode : List ℕ → ℕ → ℕ
decode [] acc = acc
decode (x ∷ xs) acc = decode xs (acc * 256 + x)

-- Big-endian words, and memory that still holds an old socket.
abbrev big_endian : OfCore
big_endian = record {
  bit = event_bit;
  put_short = λ n. n / 256 ∷ n % 256 ∷ [];
  get_short = λ l. decode l 0;
  put_long = λ n. n / 2 ^ 24 ∷ n / 2 ^ 16 % 256 ∷ n / 256 % 256 ∷ n % 256 ∷ [];
  get_long = λ l. decode l 0;
  inaddr_any = 0;
  in6addr_any = zeroes 16;
  in6scope_any = 0;
  sizet_signed = true;
  memory = λ p. stale;
}

big_endian-IsByteOrder : IsByteOrder big_endian
big_endian-IsByteOrder = record { short = λ n h. omega arith; long = λ n h. omega arith }

big_endian-IsEventBits : IsEventBits big_endian
big_endian-IsEventBits = record { own = own; apart = apart }
  where
    own : (k : SocketEvent) → overlaps (event_bit k) (event_bit k) ≡ true
    own on_close = refl
    own _ = refl

    apart : (j k : SocketEvent) → j ≢ k → overlaps (event_bit j) (event_bit k) ≡ false
    apart j k ne = ground arith

-- Handle 7 is the socket at address 100 with descriptor 3; new memory is at 200.
abbrev pointer_of : Call → ℕ
pointer_of (Call.handle_lock h) = if h == 7 then 100 else 0
pointer_of Call.malloc = 200
pointer_of (Call.handle_create kind p) = 9
pointer_of _ = 0

abbrev number_of : Call → ℤ
number_of (Call.socket af kind protocol) = pos 4
number_of (Call.accept fd) = pos 5
number_of (Call.send fd buf len) = pos 2
number_of _ = pos 0

abbrev local_end : SockAddr
local_end = record {
  family = inet;
  port = 0 ∷ 80 ∷ [];
  addr = 127 ∷ 0 ∷ 0 ∷ 1 ∷ [];
  addr6 = zeroes 16;
  scope = 0;
}

abbrev host : Host
host = record {
  pointer = λ trace c. pointer_of c;
  number = λ trace c. number_of c;
  errno = λ trace. pos 0;
  sockaddr = λ trace. local_end;
  bytes = λ trace. [];
}

abbrev open_sock : Sock
open_sock = record { socket = pos 3; family = ip; events = 0; revents = 0; ip_address = no_address }

abbrev world : World Sock
world = record { object = λ p. if p == 100 then some open_sock else none; trace = [] }

live : Live host 7 100
live = (λ trace. refl, λ e. omega arith)

unmake-make_ipv6_example :
    unmake_sockaddr big_endian
      (filled_sockaddr big_endian (record no_address { version = ipv6; scope = 5 }) 80).0
      (some no_address)
      (some 0)
    ≡ some (some (record no_address { version = ipv6 }), some 80)
unmake-make_ipv6_example =
    unmake-make_ipv6 big_endian big_endian-IsByteOrder no_address 0
      (record no_address { version = ipv6; scope = 5 }) 80 refl refl refl (omega arith)

event_test_iff_example :
    overlaps (event_test big_endian 0x11) (event_bit on_read) ≡ overlaps 0x11 (condition on_read)
event_test_iff_example = event_test_iff big_endian big_endian-IsEventBits 0x11 on_read

poll_mask_iff_example :
    (poll_mask big_endian 0x21 ≡ poll_word big_endian 0x21)
    × ((b : PollBit) → overlaps (poll_mask big_endian 0x21) (bit_of b) ≡ wanted big_endian 0x21 b)
poll_mask_iff_example = poll_mask_iff big_endian 0x21

poll_round_lem_example :
    Ensures
      (λ read w'.
        (read ≡ (poll_mask big_endian 34, event_test big_endian 1, pos 3))
        × (w'.object 100
            ≡ some (record open_sock { events = poll_mask big_endian 34; revents = 1 })))
      (poll_round big_endian host 7 34 1 world)
poll_round_lem_example = poll_round_lem big_endian host 7 100 live world open_sock refl 34 1

abbrev after : Option (Reply × World Sock) → World Sock
after none = world
after (some (reply, w)) = w

abbrev binding : Option (Reply × World Sock)
binding = serve big_endian host (Request.bind 7 no_address 80) world

serve-LocksKept_example : LocksKept 7 world (after binding)
unfolding Setup.bind make_sockaddr
serve-LocksKept_example =
    serve-LocksKept big_endian host 7 world (after binding) (Request.bind 7 no_address 80) refl

serve_refused_example :
    serve big_endian host (Request.get_addresses 8 nowhere nowhere) world
    ≡ some (
      Reply.ends false nowhere nowhere,
      record world { trace = gave (Call.handle_lock 8) 0 ∷ [] },
    )
serve_refused_example =
    serve_refused big_endian host 8 world (Request.get_addresses 8 nowhere nowhere) refl refl

serve_frame_example : (after binding).object 200 ≡ none
unfolding Setup.bind make_sockaddr
serve_frame_example =
    serve_frame big_endian host 7 world (Request.bind 7 no_address 80) {w' = after binding} 200 refl
      refl refl (λ e. omega arith)

serve_returns_example :
    Ensures (λ reply w'. Unit {0}) (serve big_endian host (Request.bind 7 no_address 80) world)
serve_returns_example =
    serve_returns big_endian host 7 world (Request.bind 7 no_address 80) 100 open_sock refl
      (λ trace. refl) refl (λ trace e. omega arith) refl

abbrev accepting : Option ((ℕ × Option IpAddr × Option ℕ) × World Sock)
accepting = Setup.accept big_endian host 7 (some no_address) (some 0) world

abbrev after_accept : Option ((ℕ × Option IpAddr × Option ℕ) × World Sock) → World Sock
after_accept none = world
after_accept (some (reply, w)) = w

accept_lem_example :
    (pos 5 ≢ negsuc 0)
    × ((after_accept accepting).object 200 ≡ some (record stale { socket = pos 5 }))
    × ((d : ℤ)
        → total (nosigpipe_of d) (after_accept accepting).trace
          ≡ 0 + (if eqb_ℤ (pos 3) d then 1 else 0))
unfolding Setup.accept unmake_sockaddr
accept_lem_example =
    accept_lem big_endian host world (after_accept accepting) 7 (some no_address) (some 0) open_sock
      refl (λ e. omega arith) refl
