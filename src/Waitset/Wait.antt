-- ===== src/Waitset/Wait.antt =====
-- The second half of `ofc_waitset_wait_impl`, and `PollEvent`: sleep in `poll`, and tell who woke us.
use of_core_darwin.Base.{
  not, ◌&&◌, ℕ, zero, suc, ltb, Option, none, some, List, [], ◌∷◌, ◌==◌, if◌then◌else◌, ◌>>=◌,
  length,
}
use of_core_darwin.Base.Int.{ℤ, pos, ltb_ℤ, eqb_ℤ}
use of_core_darwin.Waitset.{Element, PollFd, Platform}
use of_core_darwin.Waitset.Scan.{Scan, start, purge, scan_handles}

-- The search of the event queue.
unfoldable pub find : List Element → ℕ → Option Element
find [] h = none
find (e ∷ es) h = if e.event == h then some e else find es h

-- The search for an entry with `revents`, from an index on.
unfoldable pub first_ready : (ℕ → ℕ) → ℕ → List PollFd → ℕ
first_ready revents i [] = i
first_ready revents i (f ∷ fs) = if revents i == 0 then first_ready revents (suc i) fs else i

-- `ofc_handle_list[i]`, which the code reads below `wait_count` only.
unfoldable pub handle_at : List PollFd → ℕ → ℕ
handle_at [] i = 0
handle_at (f ∷ fs) zero = f.handle
handle_at (f ∷ fs) (suc i) = handle_at fs i

module _ {S : Type 0} (platform : Platform S) where
  open platform use {
    event_test, event_is_auto, event_reset, socket_impl, set_socket_event, read_pipe, poll,
  }

  abbrev pub after_test : ℕ → S → S
  after_test h s = if event_is_auto s h then event_reset h s else s

  -- What one handle from the pipe does: the handle that it triggers, or 0.
  unfoldable pub answer : List Element → ℕ → S → ℕ × S
  answer elements h s = if h == 0 then (0, s) else elim (find elements h) [
    | none ↦ (0, s)
    | some e ↦ if event_test s h then (e.assoc, after_test h s) else (0, s)
  ]

  -- `PollEvent`, its loop on fuel.
  unfoldable pub poll_event : ℕ → List Element → S → Option (ℕ × S)
  poll_event zero elements s = none
  poll_event (suc fuel) elements s = elim (read_pipe s).0 [
    | none ↦ some (0, (read_pipe s).1)
    | some h ↦
        let r = answer elements h (read_pipe s).1 in
        let rest = poll_event fuel elements r.1 in
        if r.0 == 0 then (if h == 0 then some r else rest) else some r
  ]

  -- An entry of the list other than the pipe's, where the search has stopped.
  abbrev pub report : List PollFd → (ℕ → ℕ) → ℕ → S → ℕ × S
  report fds revents i s =
      if ltb i (length fds)
      then (
        if revents i == 0 then 0 else handle_at fds i,
        set_socket_event (socket_impl (handle_at fds i)) (revents i) s,
      )
      else (0, s)

  -- What follows the return of `poll`.
  unfoldable pub polled : ℕ → Scan → ℤ → (ℕ → ℕ) → S → Option (ℕ × S)
  polled fuel scan count revents s =
      let i = first_ready revents 0 scan.fds in
      let piped = poll_event fuel scan.elements s in
      if eqb_ℤ count (pos 0) && not (scan.timer_event == 0)
      then some (scan.timer_event, s)
      else if ltb_ℤ (pos 0) count
      then (if i == 0 then piped else some (report scan.fds revents i s))
      else some (0, s)

  unfoldable pub finish : ℕ → Scan → S → Option (ℕ × S)
  finish fuel scan s =
      let r = poll s scan.fds scan.least_wait in
      let slept = polled fuel scan r.0 r.1 r.2 in
      if scan.triggered == 0 then slept else some (scan.triggered, s)

  -- `ofc_waitset_wait_impl`, given the set's queue of handles, which is `none` when its lock fails.
  unfoldable pub wait : ℕ → Option (List ℕ) → S → Option (ℕ × S)
  wait fuel none s = some (0, s)
  wait fuel (some handles) s = do
    emptied ← purge platform fuel s
    finish fuel (scan_handles platform handles (start platform) emptied).0
        (scan_handles platform handles (start platform) emptied).1
