-- ===== src/Thread/Examples.antt =====
-- A host, and a thread at address 100 behind handle 7.
use of_core_darwin.Base.{
  ℕ, ◌+◌, ◌*◌, ◌^◌, ◌≤◌, ◌<◌, ◌≡◌, ◌≢◌, refl, false, Option, some, none, List, [], ◌∷◌, ◌==◌,
  if◌then◌else◌, arith,
}
use of_core_darwin.Base.Int.{pos}
use of_core_darwin.Host.{Call, inet, Event, gave, Host, World, Ensures, ◌>>◌}
use of_core_darwin.Host.Counts.{total}
use of_core_darwin.Thread.{DetachState, detached, joined, DarwinThread, launch, create, wait}
use of_core_darwin.Thread.Sleep.{
  over, endless, sleep, seconds, microseconds, cancel_points, sleep_asked,
}
use of_core_darwin.Thread.Variables.{value_of}
use of_core_darwin.Thread.Requests.{serve, waits}
use of_core_darwin.Thread.Laws.{joins, Released, launch-wait-Released, create_fault}

abbrev pointer_of : Call → ℕ
pointer_of (Call.handle_lock h) = if h == 7 then 100 else 0
pointer_of (Call.handle_create type p) = 7
pointer_of _ = 100

abbrev host : Host
host = record {
  pointer = λ trace c. pointer_of c;
  number = λ trace c. pos 0;
  errno = λ trace. pos 0;
  sockaddr = λ trace. record { family = inet; port = []; addr = []; addr6 = []; scope = 0 };
  bytes = λ trace. [];
}

abbrev thread : DetachState → DarwinThread
thread state = record {
  ret = pos 0;
  delete_me = false;
  handle = 7;
  detachstate = state;
  wait_set = 0;
  notify = 9;
}

abbrev objects : DarwinThread → ℕ → Option DarwinThread
objects t p = if p == 100 then some t else none

abbrev world : DarwinThread → World DarwinThread
world t = record { object = objects t; trace = [] }

launch-wait-Released_example :
    Ensures
      (λ done w'. (total (joins 100) w'.trace ≡ 1) × Released 100 (world (thread joined)) w')
      ((do launch host (λ t. t) 100; wait host 7) (world (thread joined)))
launch-wait-Released_example =
    launch-wait-Released host 100 (λ e. omega arith) (world (thread joined)) (thread joined) refl 7
      (λ t. t) (λ trace. refl) refl refl

create_fault_example :
    create host (launch host (λ t. t)) (thread joined) detached 0 (world (thread joined)) ≡ none
create_fault_example =
    create_fault host (thread joined) 0 (world (thread joined)) (λ trace e. omega arith)
      (λ trace p. refl)

-- One hour and a half, which is too long.
abbrev long : ℕ
long = 5400000

sleep_asked_example :
    Ensures
      (λ nap w'.
        let asked = total microseconds w'.trace in
        (long ≢ 4294967295
          → (nap ≡ over)
            × (total cancel_points w'.trace ≡ 1)
            × (5400000 * 1000 < 2 ^ 32 → asked ≡ 5400000 * 1000)
            × (2 ^ 32 ≤ 5400000 * 1000 → asked + 2 ^ 32 ≤ 5400000 * 1000))
        × (long ≡ 4294967295
            → (nap ≡ endless)
              × (total cancel_points w'.trace ≡ 0)
              × (total seconds w'.trace ≡ 259200)))
      (sleep 4294967295 3 5400000 (world (thread joined)))
sleep_asked_example = sleep_asked 4294967295 3 5400000 (world (thread joined)) (omega arith)

-- Keys that the system gives in turn.
abbrev next_key : List Event → ℕ
next_key (gave Call.key_create key ∷ es) = if key == 3 then 4 else 3
next_key es = 3

abbrev keyed : List Event → Call → ℕ
keyed trace (Call.getspecific key) = value_of key trace
keyed trace Call.key_create = next_key trace
keyed trace _ = 0

abbrev key_host : Host
key_host = record host { pointer = keyed }

next_key_small : (trace : List Event) → next_key trace < 2 ^ 32
next_key_small [] = omega arith
next_key_small (gave Call.key_create key ∷ es) = ground arith
next_key_small (e ∷ es) = ground arith

next_key_fresh : (trace : List Event) (key : ℕ) → next_key (gave Call.key_create key ∷ trace) ≢ key
next_key_fresh trace key = ground arith

abbrev after : Option (Unit {0} × World DarwinThread) → World DarwinThread
after none = world (thread joined)
after (some (r, w)) = w

abbrev waited : World DarwinThread
waited = after (serve host (waits 7) (world (thread joined)))
