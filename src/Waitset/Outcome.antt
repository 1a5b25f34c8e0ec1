-- ===== src/Waitset/Outcome.antt =====
-- What `ofc_waitset_wait_impl` returns.
pub mod Members
use of_core_darwin.Base.{
  ℕ, zero, suc, ◌≡◌, ◌≢◌, refl, sym, ap, subst, ◌⊎◌, inl, inr, ◌+◌, ◌-◌, ◌≤◌, ◌<◌, Bool, true,
  false, not, ltb, Option, none, some, List, [], ◌∷◌, ◌++◌, ◌==◌, if◌then◌else◌, ◌>>=◌, arith,
  length,
}
use of_core_darwin.Base.Int.{ℤ, pos, ltb_ℤ, eqb_ℤ}
use of_core_darwin.Socket.Poll.{pollin}
use of_core_darwin.Waitset.{
  Kind, wait_queue, file, socket, fsdarwin_overlapped, fssmb_overlapped, event, timer, other_kind,
  Element, PollFd, Platform,
}
use of_core_darwin.Waitset.Scan.{Scan, start, purge, scan_handles}
use of_core_darwin.Waitset.Wait.{
  find, first_ready, handle_at, poll_event, report, polled, finish, wait,
}
use of_core_darwin.Waitset.Laws.{is_ready, first_handle, entries, speakers, scan-first, scan-lists}
use of_core_darwin.Waitset.Timers.{has, scan-shortest}
use of_core_darwin.Waitset.Pipe.{
  Works, Gives, heard, poll_event-heard, Drains, Emptied, purge_empties,
}
use of_core_darwin.Waitset.Outcome.Members.{
  first_handle-has, handle_at-has, speakers-has, heard-has,
}

module _ {S : Type 0} (platform : Platform S) (works : Works platform) where
  open platform use {kind, pending, event_test, waitq_empty, timer_wait, poll, pipe_in}
  open works use {capacity, bounded, appends}

  is_ready_kept :
      (k : Kind) (h : ℕ) (s s' : S)
      → Emptied platform works s s'
      → is_ready platform k h s' ≡ is_ready platform k h s
  is_ready_kept wait_queue h s s' same = grind arith
  is_ready_kept file h s s' same = grind arith
  is_ready_kept socket h s s' same = grind arith
  is_ready_kept fsdarwin_overlapped h s s' same = grind arith
  is_ready_kept fssmb_overlapped h s s' same = grind arith
  is_ready_kept event h s s' same = grind arith
  is_ready_kept timer h s s' same = grind arith
  is_ready_kept other_kind h s s' same = grind arith

  first_handle_kept :
      (hs : List ℕ) (s s' : S)
      → Emptied platform works s s'
      → first_handle platform hs s' ≡ first_handle platform hs s
  first_handle_kept [] s s' same = refl
  first_handle_kept (h ∷ hs) s s' same =
      grind (arith, first_handle_kept hs s s' same, is_ready_kept (kind h) h s s' same)

  -- The wait ends with handle `h` in the state that the pass over the handles left, so `poll` was not
  -- called.
  abbrev pub Unslept : ℕ → List ℕ → S → ℕ → Type 0
  Unslept fuel handles s h =
      (emptied : S) × (purge platform fuel s ≡ some emptied)
      × (wait platform fuel (some handles) s
          ≡ some (h, (scan_handles platform handles (start platform) emptied).1))

  stays_awake :
      (fuel : ℕ) (handles : List ℕ) (s : S) (o : Option S)
      → purge platform fuel s ≡ o
      → Drains platform works o s
      → first_handle platform handles s ≢ 0
      → Unslept fuel handles s (first_handle platform handles s)
  unfolding wait finish
  stays_awake fuel handles s none e drained some_ready = absurd drained
  stays_awake fuel handles s (some emptied) e drained some_ready =
      let same = first_handle_kept handles s emptied drained in
      let first = scan-first platform appends handles (start platform) emptied refl in
      (emptied, e, grind (arith, e, same, first))

  -- If a handle of the set is ready, a wait ends without sleeping and returns the first that is: its
  -- state is that of the pass over the handles, before `poll`. The fuel has to exceed the capacity
  -- of the pipe.
  pub wait-first_handle :
      (fuel : ℕ) (handles : List ℕ) (s : S)
      → capacity < fuel
      → first_handle platform handles s ≢ 0
      → Unslept fuel handles s (first_handle platform handles s)
  wait-first_handle fuel handles s enough some_ready =
      stays_awake fuel handles s (purge platform fuel s) refl
        (purge_empties platform works fuel s (pending s) refl (omega (arith, bounded s, enough)))
        some_ready

  -- Over the state that the pass began in, and what `poll` returned for it: the handle that the wait
  -- returns.
  abbrev pub first_reported : (ℕ → ℕ) → ℕ → List PollFd → ℕ
  first_reported revents i [] = 0
  first_reported revents i (f ∷ fs) =
      if revents i == 0 then first_reported revents (suc i) fs else f.handle

  handle_at-minus :
      (f : PollFd) (fs : List PollFd) (i n : ℕ)
      → suc i ≤ n
      → handle_at (f ∷ fs) (n - i) ≡ handle_at fs (n - suc i)
  unfolding handle_at
  handle_at-minus f fs i n past =
      let e : n - i ≡ suc (n - suc i) = omega arith in ap (handle_at (f ∷ fs)) e

  handle_at_end : (fds : List PollFd) (i : ℕ) → length fds ≤ i → handle_at fds i ≡ 0
  unfolding handle_at
  handle_at_end [] i past = refl
  handle_at_end (f ∷ fs) zero past = ground arith
  handle_at_end (f ∷ fs) (suc i) past = handle_at_end fs i (omega arith)

  reported_lem :
      (revents : ℕ → ℕ) (fds : List PollFd) (i : ℕ)
      → (i ≤ first_ready revents i fds)
        × (first_ready revents i fds < i + length fds → revents (first_ready revents i fds) ≢ 0)
        × (first_reported revents i fds ≡ handle_at fds (first_ready revents i fds - i))
  unfolding first_ready handle_at
  reported_lem revents [] i = ground arith
  reported_lem revents (f ∷ fs) i = grind (
    arith,
    reported_lem revents fs (suc i),
    handle_at-minus f fs i (first_ready revents (suc i) fs),
  )

  abbrev pub scanned : List ℕ → S → Scan
  scanned handles s = (scan_handles platform handles (start platform) s).0

  -- A wait returns a handle of the set or null: it does return, whatever `poll` does, if the fuel
  -- exceeds the capacity of the pipe.
  finish-has :
      (fuel : ℕ) (handles : List ℕ) (s : S)
      → capacity < fuel
      → first_handle platform handles s ≡ 0
      → Gives
          (λ h s'. (h ≡ 0) ⊎ (has handles h ≡ true))
          (finish platform fuel (scanned handles s) s)
  unfolding finish polled handle_at
  finish-has fuel handles s enough none_ready =
      let scan = scanned handles s in
      let r = poll s scan.fds scan.least_wait in
      let q = pending r.2 in
      grind (
        arith,
        scan-first platform appends handles (start platform) s,
        scan-lists platform appends handles (start platform) s,
        scan-shortest platform appends handles s,
        poll_event-heard platform works fuel scan.elements r.2 q,
        bounded r.2,
        speakers-has platform handles,
        heard-has platform works handles q r.2,
        handle_at-has platform handles s,
      )

  finish-first :
      (fuel : ℕ) (handles : List ℕ) (s : S)
      → first_handle platform handles s ≢ 0
      → Gives
          (λ h s'. (h ≡ 0) ⊎ (has handles h ≡ true))
          (finish platform fuel
            (scanned handles s)
            (scan_handles platform handles (start platform) s).1)
  unfolding finish
  finish-first fuel handles s some_ready = grind (
    arith,
    scan-first platform appends handles (start platform) s,
    first_handle-has platform handles s,
  )

  finish_step :
      (fuel : ℕ) (handles : List ℕ) (s : S)
      → capacity < fuel
      → Gives
          (λ h s'. (h ≡ 0) ⊎ (has handles h ≡ true))
          (finish platform fuel
            (scanned handles s)
            (scan_handles platform handles (start platform) s).1)
  finish_step fuel handles s enough = grind (
    arith,
    finish-has fuel handles s,
    finish-first fuel handles s,
    scan-lists platform appends handles (start platform) s,
  )

  -- A wait returns null or a handle of the set, and it does return, whatever `poll` does. The fuel
  -- has to exceed the capacity of the pipe.
  pub wait-has :
      (fuel : ℕ) (handles : List ℕ) (s : S)
      → capacity < fuel
      → Gives (λ h s'. (h ≡ 0) ⊎ (has handles h ≡ true)) (wait platform fuel (some handles) s)
  unfolding wait
  wait-has fuel handles s enough =
      grind (
        arith,
        purge_empties platform works fuel s (pending s),
        bounded s,
        finish_step fuel handles,
      )

  abbrev pub roused : List ℕ → S → ℤ × (ℕ → ℕ) × S → ℕ
  roused handles s r =
      if eqb_ℤ r.0 (pos 0)
      then (scanned handles s).timer_event
      else if ltb_ℤ (pos 0) r.0
      then (if r.1 0 == 0
          then first_reported r.1 1 (entries platform handles s)
          else heard platform works (speakers platform handles) (pending r.2) r.2)
      else 0

  report_lem :
      (scan : Scan) (fds : List PollFd) (revents : ℕ → ℕ) (s : S)
      → scan.fds ≡ record { fd = pipe_in; events = pollin; handle = 0 } ∷ fds
      → revents 0 ≡ 0
      → (first_ready revents 0 scan.fds ≢ 0)
        × ((report platform scan.fds revents (first_ready revents 0 scan.fds) s).0
            ≡ first_reported revents 1 fds)
  unfolding first_ready handle_at
  report_lem scan fds revents s listed quiet = grind (
    arith,
    reported_lem revents fds 1,
    handle_at-minus (record { fd = pipe_in; events = pollin; handle = 0 }) fds 0
        (first_ready revents 1 fds),
    handle_at_end fds,
  )

  pub first_ready-pipe :
      (fds rest : List PollFd) (p : PollFd) (revents : ℕ → ℕ)
      → fds ≡ p ∷ rest
      → revents 0 ≢ 0
      → first_ready revents 0 fds ≡ 0
  unfolding first_ready
  first_ready-pipe fds rest p revents listed loud = grind (arith, listed)

  pub heard_now :
      (fuel : ℕ) (handles : List ℕ) (elements : List Element) (s : S)
      → capacity < fuel
      → elements ≡ speakers platform handles
      → Gives
          (λ h s'. h ≡ heard platform works (speakers platform handles) (pending s) s)
          (poll_event platform fuel elements s)
  heard_now fuel handles elements s enough listed =
      subst
        (λ es.
          Gives (λ h s'. h ≡ heard platform works (speakers platform handles) (pending s) s)
            (poll_event platform fuel es s))
        (sym listed)
        (poll_event-heard platform works fuel (speakers platform handles) s (pending s) refl
          (λ h e found. (speakers-has platform handles h e found).0)
          (omega (arith, bounded s, enough)))

  -- When the pass over the handles finds none ready, the rest of the wait ends: it sleeps in `poll`. If
  -- that times out, it returns the timer kept, if there is one; if it fails, null. Else it returns what the
  -- first reported entry stands for: of an entry other than the pipe its own handle; of the pipe, the
  -- handle that speaks for the first event in it, before a wake-up, that belongs to the set and is
  -- still signalled, and null if there is none. The fuel has to exceed the capacity of the pipe.
  pub finish-roused :
      (fuel : ℕ) (handles : List ℕ) (s : S)
      → capacity < fuel
      → first_handle platform handles s ≡ 0
      → Gives
          (λ h s'.
            h ≡ roused handles s (poll s (scanned handles s).fds (scanned handles s).least_wait))
          (finish platform fuel (scanned handles s) s)
  unfolding finish polled
  finish-roused fuel handles s enough none_ready =
      let scan = scanned handles s in
      let r = poll s scan.fds scan.least_wait in
      grind (
        arith,
        scan-first platform appends handles (start platform) s,
        scan-lists platform appends handles (start platform) s,
        heard_now fuel handles scan.elements r.2,
        first_ready-pipe scan.fds (entries platform handles s)
            (record { fd = pipe_in; events = pollin; handle = 0 }) r.1,
        report_lem scan (entries platform handles s) r.1 r.2,
      )
