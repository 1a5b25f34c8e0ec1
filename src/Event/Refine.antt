-- ===== src/Event/Refine.antt =====
-- The operations on one event object, as steps of the threads that use it.
pub mod Session
use of_core_darwin.Base.{
  ℕ, suc, ◌+◌, ◌≡◌, ◌⊎◌, true, false, some, List, [], ◌∷◌, ◌++◌, ◌==◌, if◌then◌else◌,
}
use of_core_darwin.Host.{Call, Event, did, Host, World}
use of_core_darwin.Event.{DarwinEvent, set, reset}
use of_core_darwin.Event.Threads.{System, Step, Reach}
use of_core_darwin.Event.Laws.{Request, creates, sets, resets, gets_type, destroys, tests, waits}

-- The state in which the caller of a wait has gone to sleep.
abbrev pub asleep : System → System
asleep s = record s { sleeping = s.sleeping + 1; begun = s.begun + 1 }

-- What the other threads do while a wait sleeps is a sequence of their steps, at whose end the
-- thread that waits was woken. Making and releasing the event are not steps of its threads.
abbrev pub Allowed : Request → System → Type 0
Allowed (creates event_type) s = ⊥
Allowed (destroys h) s = ⊥
Allowed (sets h) s = Unit {0}
Allowed (resets h) s = Unit {0}
Allowed (gets_type h) s = Unit {0}
Allowed (tests h) s = Unit {0}
Allowed (waits others h) s =
    s.event.signalled ≡ false
    → (u : System) × Reach (asleep s) u × (others s.event ≡ u.event) × ((n : ℕ) × (u.woken ≡ suc n))

-- The calls of a thread on the condition variable of the event, which wake and suspend threads.
pub data CondCall : Type 0 where
  broadcast suspend : CondCall

-- Those in a trace, newest first, on the variable at `p`.
abbrev pub cond_calls : ℕ → List Event → List CondCall
cond_calls p [] = []
cond_calls p (did (Call.cond_broadcast q) ∷ es) =
    if q == p then broadcast ∷ cond_calls p es else cond_calls p es
cond_calls p (did (Call.cond_wait q) ∷ es) =
    if q == p then suspend ∷ cond_calls p es else cond_calls p es
cond_calls p (_ ∷ es) = cond_calls p es

-- Those that a step of the model stands for: a set wakes the sleepers by a broadcast, and a thread goes to
-- sleep by suspending itself.
abbrev pub calls_of : {s t : System} → Step s t → List CondCall
calls_of Step.set = broadcast ∷ []
calls_of Step.reset = []
calls_of (Step.pass on) = []
calls_of (Step.sleep off) = suspend ∷ []
calls_of (Step.spurious n e) = []
calls_of (Step.resume n e) = []

-- One step of the caller, by these calls.
abbrev pub OneStep : System → List CondCall → System → Type 0
OneStep s calls t = (st : Step s t) × (calls ≡ calls_of st)

-- What a request comes to for the threads, and the calls on the condition variable that it takes: a wait
-- passes in one step, or goes to sleep in one, and after the steps of others goes on in one.
abbrev pub Does : Request → System → List CondCall → System → Type 0
Does (creates event_type) s calls t = ⊥
Does (destroys h) s calls t = ⊥
Does (sets h) s calls t =
    OneStep s calls t
    × (t.event.signalled ≡ true)
    × (t.sleeping ≡ 0)
    × (t.woken ≡ s.woken + s.sleeping)
    × (t.returned ≡ s.returned)
    × (calls ≡ broadcast ∷ [])
Does (resets h) s calls t =
    OneStep s calls t
    × (t.event.signalled ≡ false)
    × (t.sleeping ≡ s.sleeping)
    × (t.woken ≡ s.woken)
    × (t.returned ≡ s.returned)
    × (calls ≡ [])
Does (gets_type h) s calls t = (t ≡ s) × (calls ≡ [])
Does (tests h) s calls t = (t ≡ s) × (calls ≡ [])
Does (waits others h) s calls t =
    ((s.event.signalled ≡ true)
      × OneStep s calls t
      × (calls ≡ [])
      × (t.begun ≡ s.begun + 1)
      × (t.returned ≡ s.returned + 1))
    ⊎ ((s.event.signalled ≡ false)
        × (calls ≡ suspend ∷ [])
        × OneStep s calls (asleep s)
        × ((u : System) × Reach (asleep s) u × OneStep u [] t × (t.returned ≡ u.returned + 1)))

-- The object at `p` is the event of `t`, which the request leads to from `s` by just the calls on the
-- condition variable that it adds to the trace.
abbrev pub Refines : ℕ → Request → System → World DarwinEvent → World DarwinEvent → Type 0
Refines p r s w w' =
    (t : System) × ((calls : List CondCall) × Does r s calls t
      × (w'.object p ≡ some t.event)
      × (cond_calls p w'.trace ≡ calls ++ cond_calls p w.trace))

-- What a run leaves of the event, and the calls on its condition variable that it made.
abbrev Leaves : ℕ → DarwinEvent → List CondCall → World DarwinEvent → World DarwinEvent → Type 0
Leaves p e calls w w' =
    (w'.object p ≡ some e) × (cond_calls p w'.trace ≡ calls ++ cond_calls p w.trace)
