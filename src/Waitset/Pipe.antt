-- ===== src/Waitset/Pipe.antt =====
-- What is read from the pipe of a wait set: `PollEvent`, and the loop that empties the pipe.
use of_core_darwin.Base.{
  ℕ, zero, suc, ◌≡◌, ◌≢◌, refl, ◌≤◌, ◌<◌, Option, none, some, List, [], ◌∷◌, ◌++◌, ◌==◌,
  if◌then◌else◌, arith, length,
}
use of_core_darwin.Waitset.{Element, Platform}
use of_core_darwin.Waitset.Scan.{purge}
use of_core_darwin.Waitset.Wait.{find, answer, poll_event}

-- What the wait set relies on: `ofc_enqueue` adds at the end, the pipe is a queue of whole handles
-- that holds a bounded number of them, and a read of it changes nothing else.
pub record Works {S : Type 0} (platform : Platform S) : Type 0 where
  pub appends : (q : List Element) (e : Element) → platform.enqueue q e ≡ q ++ (e ∷ [])
  pub read_empty :
      (s : S)
      → platform.pending s ≡ []
      → ((platform.read_pipe s).0 ≡ none) × (platform.pending (platform.read_pipe s).1 ≡ [])
  pub read_head :
      (s : S) (h : ℕ) (q : List ℕ)
      → platform.pending s ≡ h ∷ q
      → ((platform.read_pipe s).0 ≡ some h) × (platform.pending (platform.read_pipe s).1 ≡ q)
  pub keeps_events :
      (s : S) (h : ℕ) → platform.event_test (platform.read_pipe s).1 h ≡ platform.event_test s h
  pub keeps_queues :
      (s : S) (h : ℕ) → platform.waitq_empty (platform.read_pipe s).1 h ≡ platform.waitq_empty s h
  pub keeps_timers :
      (s : S) (h : ℕ) → platform.timer_wait (platform.read_pipe s).1 h ≡ platform.timer_wait s h
  pub capacity : ℕ
  pub bounded : (s : S) → length (platform.pending s) ≤ capacity

-- The code returned, with a value and a state of which `P` holds.
abbrev pub Gives : {A S : Type 0} → (A → S → Type 0) → Option (A × S) → Type 0
Gives P none = ⊥
Gives P (some (x, s)) = P x s

module _ {S : Type 0} (platform : Platform S) (works : Works platform) where
  open platform use {event_test, waitq_empty, timer_wait, read_pipe, pending}
  open works use {read_empty, read_head, keeps_events, keeps_queues, keeps_timers}

  -- The handle that speaks for the first signalled event of a queue, before a wake-up.
  abbrev pub heard : List Element → List ℕ → S → ℕ
  heard elements [] s = 0
  heard elements (h ∷ q) s = if h == 0 then 0 else elim (find elements h) [
    | none ↦ heard elements q s
    | some e ↦ if event_test s h then e.assoc else heard elements q s
  ]

  heard_kept :
      (elements : List Element) (q : List ℕ) (s s' : S)
      → ((h : ℕ) → event_test s' h ≡ event_test s h)
      → heard elements q s' ≡ heard elements q s
  heard_kept elements [] s s' same = refl
  heard_kept elements (h ∷ q) s s' same = grind (arith, heard_kept elements q s s' same)

  -- If every event stands for a handle and the fuel exceeds what is in the pipe, `PollEvent` returns the
  -- handle of the first event in the pipe that belongs to the set and is still signalled, and
  -- 0 if there is none before a wake-up.
  pub poll_event-heard :
      (fuel : ℕ) (elements : List Element) (s : S) (q : List ℕ)
      → pending s ≡ q
      → ((h : ℕ) (e : Element) → find elements h ≡ some e → e.assoc ≢ 0)
      → length q < fuel
      → Gives (λ h s'. h ≡ heard elements q s) (poll_event platform fuel elements s)
  unfolding poll_event answer
  poll_event-heard zero elements s q now named enough = ground arith
  poll_event-heard (suc fuel) elements s [] now named enough = grind (arith, read_empty s)
  poll_event-heard (suc fuel) elements s (h ∷ q) now named enough =
      let s1 = (read_pipe s).1 in
      grind (
        arith,
        read_head s h q,
        keeps_events s,
        heard_kept elements q s s1,
        poll_event-heard fuel elements s1 q,
      )

  -- The same handles are ready, and nothing is left in the pipe.
  abbrev pub Emptied : S → S → Type 0
  Emptied s s' =
      (pending s' ≡ [])
      × ((h : ℕ) → event_test s' h ≡ event_test s h)
      × ((h : ℕ) → waitq_empty s' h ≡ waitq_empty s h)
      × ((h : ℕ) → timer_wait s' h ≡ timer_wait s h)

  abbrev pub Drains : Option S → S → Type 0
  Drains none s = ⊥
  Drains (some s') s = Emptied s s'

  -- The loop that empties the pipe ends, has emptied it, and has changed nothing that a handle's
  -- readiness depends on, if the fuel exceeds what is in the pipe.
  pub purge_empties :
      (fuel : ℕ) (s : S) (q : List ℕ)
      → pending s ≡ q
      → length q < fuel
      → Drains (purge platform fuel s) s
  unfolding purge
  purge_empties zero s q now enough = ground arith
  purge_empties (suc fuel) s [] now enough =
      grind (arith, read_empty s, keeps_events s, keeps_queues s, keeps_timers s)
  purge_empties (suc fuel) s (h ∷ q) now enough = grind (
    arith,
    read_head s h q,
    purge_empties fuel (read_pipe s).1 q,
    keeps_events s,
    keeps_queues s,
    keeps_timers s,
  )
