-- ===== src/Event/Refine/Session.antt =====
-- A whole life of an event, from its making on.
use of_core_darwin.Base.{ℕ, ◌≡◌, some, List, [], ◌∷◌, ◌++◌}
use of_core_darwin.Host.{Event, Host, World, M, pure, ◌>>◌}
use of_core_darwin.Event.{EventType, DarwinEvent}
use of_core_darwin.Event.Threads.{System, start, Inv}
use of_core_darwin.Event.Laws.{Request, serve, target}
use of_core_darwin.Event.Refine.{Allowed, CondCall, cond_calls, Does}

abbrev pub serve_all : Host → List Request → M DarwinEvent (Unit {0})
serve_all host [] = pure tt
serve_all host (r ∷ rs) = do serve host r; serve_all host rs

-- Requests on handle `h`, each with what others do meanwhile as steps of theirs from any state.
abbrev pub AllAllowed : ℕ → List Request → Type 0
AllAllowed h [] = Unit {0}
AllAllowed h (r ∷ rs) = (target r ≡ some h) × ((s : System) → Allowed r s) × AllAllowed h rs

-- From state to state, each by what its request does, and the calls on the condition variable that this
-- takes in all, newest first.
abbrev pub DoesAll : List Request → System → List CondCall → System → Type 0
DoesAll [] s calls t = (t ≡ s) × (calls ≡ [])
DoesAll (r ∷ rs) s calls t =
    (u : System) × ((first : List CondCall) × Does r s first u
      × ((later : List CondCall) × DoesAll rs u later t × (calls ≡ later ++ first)))

-- The object at `p` is the event of the state that the requests lead to, by the calls on the condition
-- variable that were added to the trace since `w`.
abbrev pub Served : ℕ → List Request → System → World DarwinEvent → World DarwinEvent → Type 0
Served p rs s w w' =
    (t : System) × ((calls : List CondCall) × DoesAll rs s calls t
      × (w'.object p ≡ some t.event)
      × (cond_calls p w'.trace ≡ calls ++ cond_calls p w.trace))

-- The life of an event: its requests led from the start to a state of the threads, which is in its object
-- now, by the calls on its condition variable that the run made, and which keeps their invariant.
abbrev pub Lived : EventType → ℕ → List Request → World DarwinEvent → World DarwinEvent → Type 0
Lived event_type p rs w w' =
    (t : System) × ((calls : List CondCall) × DoesAll rs (start event_type) calls t
      × (w'.object p ≡ some t.event)
      × (cond_calls p w'.trace ≡ calls ++ cond_calls p w.trace)
      × Inv event_type t)
