-- ===== src/Event/Examples.antt =====
-- A host, an event, and three threads.
use of_core_darwin.Base.{ℕ, ◌≡◌, refl, true, false, some, none, List, [], ◌∷◌, ◌==◌, if◌then◌else◌}
use of_core_darwin.Base.Int.{pos}
use of_core_darwin.Host.{Call, inet, Host, World, ◌>>◌}
use of_core_darwin.Event.{auto, DarwinEvent}
use of_core_darwin.Event.Laws.{Request, sets, waits}
use of_core_darwin.Event.Refine.{asleep}
use of_core_darwin.Event.Threads.{
  System, Step, Reach, here, next, start, Inv, Reach-Inv, SettlesTo, set_releases,
}

abbrev pointer_of : Call → ℕ
pointer_of (Call.handle_lock h) = if h == 7 then 100 else 0
pointer_of (Call.handle_get_wait_set h) = 5
pointer_of Call.malloc = 100
pointer_of _ = 200

abbrev host : Host
host = record {
  pointer = λ trace c. pointer_of c;
  number = λ trace c. pos 0;
  errno = λ trace. pos 0;
  sockaddr = λ trace. record { family = inet; port = []; addr = []; addr6 = []; scope = 0 };
  bytes = λ trace. [];
}

abbrev quiet : DarwinEvent
quiet = record { event_type = auto; signalled = false }

abbrev raised : DarwinEvent
raised = record { event_type = auto; signalled = true }

abbrev world : DarwinEvent → World DarwinEvent
world e = record { object = λ p. if p == 100 then some e else none; trace = [] }

abbrev three_asleep : System
three_asleep = record { event = quiet; sleeping = 3; woken = 0; returned = 0; begun = 3 }

three_asleep-Reach : Reach (start auto) three_asleep
three_asleep-Reach = next (next (next here (Step.sleep refl)) (Step.sleep refl)) (Step.sleep refl)

Reach-Inv_example : Inv auto three_asleep
Reach-Inv_example = Reach-Inv three_asleep-Reach

abbrev three_woken : System
three_woken = record { event = raised; sleeping = 0; woken = 3; returned = 0; begun = 3 }

set_releases_example :
    (three_woken.sleeping ≡ 0)
    × (three_woken.event.signalled ≡ true)
    × ((t : System) × SettlesTo t three_woken × (t.sleeping ≡ 0) × (t.woken ≡ 0) × (t.returned ≡ 3))
set_releases_example = set_releases three_asleep-Reach Step.set refl

-- A wait during which another thread sets the event.
abbrev idle : System
idle = start auto

abbrev woken_up : System
woken_up = record (asleep idle) { event = raised; sleeping = 0; woken = 1 }

-- Made in the block at 100, set, waited for, and waited for again until another thread sets it.
abbrev session : List Request
session = sets 7 ∷ waits (λ e. e) 7 ∷ waits (λ e. record e { signalled = true }) 7 ∷ []
