-- ===== src/Waitset/Wakeup.antt =====
-- An event of the set that another thread raises while a wait runs.
mod Members
use of_core_darwin.Base.{
  ℕ, zero, suc, ◌≡◌, ◌≢◌, refl, sym, ap, ◌∙◌, subst, ◌⊎◌, inl, inr, ◌≤◌, ◌<◌, Bool, true, false,
  Option, none, some, List, [], ◌∷◌, ◌++◌, ◌==◌, if◌then◌else◌, ◌>>=◌, arith, length,
}
use of_core_darwin.Base.Int.{pos, ltb_ℤ}
use of_core_darwin.Socket.Poll.{pollin}
use of_core_darwin.Waitset.{Kind, event, Element, PollFd, Platform}
use of_core_darwin.Waitset.Scan.{Scan, start, purge, scan_handles}
use of_core_darwin.Waitset.Wait.{find, polled, finish, wait}
use of_core_darwin.Waitset.Notify.{signal}
use of_core_darwin.Waitset.Laws.{
  is_ready, first_handle, entries, speaker, speakers, scan-first, scan-lists,
}
use of_core_darwin.Waitset.Wakeup.Members.{member_ready, member_speaks}
use of_core_darwin.Waitset.Timers.{has}
use of_core_darwin.Waitset.Pipe.{Works, Gives, heard, Drains, Emptied, purge_empties}
use of_core_darwin.Waitset.Outcome.{scanned, heard_now, first_ready-pipe}
use of_core_darwin.Waitset.Outcome.Members.{first_handle-has, speakers-has, heard-has}

some_of : {A : Type 0} (o : Option A) → o ≢ none → (x : A) × (o ≡ some x)
some_of none there = absurd (there refl)
some_of (some x) there = (x, refl)

-- When the other thread runs: before the pipe is emptied, before the pass over the handles, or when the
-- pass is over and the wait enters `poll`, or sleeps in it.
pub data Moment : Type 0 where
  before_purge before_scan in_poll : Moment

module _ {S : Type 0} (platform : Platform S) where
  -- Handle `e` is set and, as `ofc_event_set_impl` does, passed on to the wait set.
  abbrev pub raise_event : (S → S) → ℕ → ℕ → S → S
  raise_event set_event set e s = signal platform set e (set_event s)

  abbrev pub at_purge : Moment → (S → S) → S → S
  at_purge before_purge act s = act s
  at_purge before_scan act s = s
  at_purge in_poll act s = s

  abbrev pub at_scan : Moment → (S → S) → S → S
  at_scan before_purge act s = s
  at_scan before_scan act s = act s
  at_scan in_poll act s = s

  abbrev pub at_poll : Moment → (S → S) → S → S
  at_poll before_purge act s = s
  at_poll before_scan act s = s
  at_poll in_poll act s = act s

  -- `ofc_waitset_wait_impl` as its three parts run it, with what another thread does at one moment.
  abbrev pub interrupted : Moment → (S → S) → ℕ → List ℕ → S → Option (ℕ × S)
  interrupted moment act fuel handles s = do
    emptied ← purge platform fuel (at_purge moment act s)
    finish platform fuel
        (scan_handles platform handles (start platform) (at_scan moment act emptied)).0
        (at_poll moment act
          (scan_handles platform handles (start platform) (at_scan moment act emptied)).1)

  -- A thread that does nothing leaves the wait of the code.
  interrupted-wait :
      (moment : Moment) (fuel : ℕ) (handles : List ℕ) (s : S)
      → interrupted moment (λ t. t) fuel handles s ≡ wait platform fuel (some handles) s
  unfolding wait
  interrupted-wait before_purge fuel handles s = refl
  interrupted-wait before_scan fuel handles s = refl
  interrupted-wait in_poll fuel handles s = refl

  -- Event `e` is set and told to the set through a live handle; an empty pipe has room.
  pub record Raises (set e : ℕ) (set_event : S → S) : Type 0 where
    pub on : (s : S) → platform.event_test (raise_event set_event set e s) e ≡ true
    pub told :
        (s : S)
        → platform.pending s ≡ []
        → platform.pending (raise_event set_event set e s) ≡ e ∷ []

  -- `poll` reports the pipe, which is to be the first of its entries and asked for POLLIN, when something
  -- is in it; it neither reads the pipe nor touches an event.
  pub record Polls : Type 0 where
    pub sees :
        (s : S) (h : ℕ) (fds : List PollFd) (t : ℕ)
        → platform.pending s ≢ []
        → let r =
            platform.poll s
              (record { fd = platform.pipe_in; events = pollin; handle = h } ∷ fds)
              t in
          (ltb_ℤ (pos 0) r.0 ≡ true) × (r.1 0 ≢ 0)
    pub keeps_pipe :
        (s : S) (fds : List PollFd) (t : ℕ)
        → platform.pending (platform.poll s fds t).2 ≡ platform.pending s
    pub keeps_event :
        (s : S) (fds : List PollFd) (t h : ℕ)
        → platform.event_test (platform.poll s fds t).2 h ≡ platform.event_test s h

  module _ (works : Works platform) (polls : Polls) where
    open works use {capacity, bounded, appends}

    -- A handle of the set.
    abbrev pub Member : List ℕ → Option (ℕ × S) → Type 0
    Member handles = Gives (λ h s'. (h ≢ 0) × (has handles h ≡ true))

    finish_triggered :
        (fuel : ℕ) (handles : List ℕ) (s s' : S)
        → first_handle platform handles s ≢ 0
        → Member handles (finish platform fuel (scanned platform works handles s) s')
    unfolding finish
    finish_triggered fuel handles s s' ready = grind (
      arith,
      scan-first platform appends handles (start platform) s,
      first_handle-has platform handles s,
    )

    heard_one :
        (handles : List ℕ) (e : ℕ) (s : S) (x : Element)
        → e ≢ 0
        → find (speakers platform handles) e ≡ some x
        → platform.event_test s e ≡ true
        → heard platform works (speakers platform handles) (e ∷ []) s ≡ x.assoc
    heard_one handles e s x nz found on = grind arith

    finish_told :
        (fuel e : ℕ) (handles : List ℕ) (s s' : S) (x : Element)
        → capacity < fuel
        → e ≢ 0
        → find (speakers platform handles) e ≡ some x
        → first_handle platform handles s ≡ 0
        → platform.event_test s' e ≡ true
        → platform.pending s' ≡ e ∷ []
        → Gives (λ h s'. h ≡ x.assoc) (finish platform fuel (scanned platform works handles s) s')
    unfolding finish polled
    finish_told fuel e handles s s' x enough nz found none_ready on told =
        let scan = scanned platform works handles s in
        let r = platform.poll s' scan.fds scan.least_wait in
        let pipe : platform.pending r.2 ≡ e ∷ [] =
          polls.keeps_pipe s' scan.fds scan.least_wait ∙ told in
        let still : platform.event_test r.2 e ≡ true =
          polls.keeps_event s' scan.fds scan.least_wait e ∙ on in
        let listed = scan-lists platform appends handles (start platform) s refl none_ready in
        let loud : (ltb_ℤ (pos 0) r.0 ≡ true) × (r.1 0 ≢ 0) =
          subst
            (λ fds.
              (ltb_ℤ (pos 0) (platform.poll s' fds scan.least_wait).0 ≡ true)
              × ((platform.poll s' fds scan.least_wait).1 0 ≢ 0))
            (sym listed.1)
            (polls.sees s' 0 (entries platform handles s) scan.least_wait
              (λ e. ground (arith, told, e))) in
        let quiet = scan-first platform appends handles (start platform) s refl in
        let now = heard_now platform works fuel handles scan.elements r.2 enough listed.2 in
        let first = first_ready-pipe platform works scan.fds _ _ r.1 listed.1 in
        let one = heard_one handles e r.2 x nz found still in
        grind (arith, loud, pipe, quiet, now, first, one)

    -- The rest of the wait once the pipe is empty.
    abbrev pub resumed : Moment → (S → S) → ℕ → List ℕ → S → Option (ℕ × S)
    resumed moment act fuel handles emptied =
        let seen = at_scan moment act emptied in
        finish platform fuel (scanned platform works handles seen)
          (at_poll moment act (scan_handles platform handles (start platform) seen).1)

    resumed_ready :
        (moment : Moment) (act : S → S) (fuel : ℕ) (handles : List ℕ) (emptied : S)
        → first_handle platform handles (at_scan moment act emptied) ≢ 0
        → Member handles (resumed moment act fuel handles emptied)
    resumed_ready moment act fuel handles emptied ready =
        let seen = at_scan moment act emptied in
        finish_triggered fuel handles seen
          (at_poll moment act (scan_handles platform handles (start platform) seen).1) ready

    drained_next :
        (handles : List ℕ) (o : Option S) (s : S) (rest : S → Option (ℕ × S))
        → Drains platform works o s
        → ((emptied : S) → Emptied platform works s emptied → Member handles (rest emptied))
        → Member handles (o >>= rest)
    drained_next handles none s rest drained f = absurd drained
    drained_next handles (some emptied) s rest drained f = f emptied drained

    module _ (set e : ℕ) (set_event : S → S) (raises : Raises set e set_event) (nz : e ≢ 0)
        (handles : List ℕ) (k : platform.kind e ≡ event) (mine : has handles e ≡ true) (fuel : ℕ)
        (enough : capacity < fuel) where
      resumed_poll :
          (emptied : S)
          → platform.pending emptied ≡ []
          → first_handle platform handles emptied ≡ 0
          → Member handles (resumed in_poll (raise_event set_event set e) fuel handles emptied)
      resumed_poll emptied empty none_ready =
          let act = raise_event set_event set e in
          let same =
            (scan-lists platform appends handles (start platform) emptied refl none_ready).0 in
          let (x, found) =
            some_of (find (speakers platform handles) e)
              (member_speaks platform handles e nz k mine) in
          let member = speakers-has platform handles e x found in
          let told =
            finish_told fuel e handles emptied (act emptied) x enough nz found none_ready
              (raises.on emptied) (raises.told emptied empty) in
          grind (arith, same, told, member)

      resumed-Member :
          (moment : Moment) (s emptied : S)
          → Emptied platform works (at_purge moment (raise_event set_event set e) s) emptied
          → Member handles (resumed moment (raise_event set_event set e) fuel handles emptied)
      resumed-Member before_purge s emptied drained =
          resumed_ready before_purge (raise_event set_event set e) fuel handles emptied
            (member_ready platform handles e emptied nz k mine (drained.1 e ∙ raises.on s))
      resumed-Member before_scan s emptied drained =
          resumed_ready before_scan (raise_event set_event set e) fuel handles emptied (
            member_ready platform handles e (raise_event set_event set e emptied) nz k mine
              (raises.on emptied))
      resumed-Member in_poll s emptied drained = grind (
        arith,
        resumed_ready in_poll (raise_event set_event set e) fuel handles emptied,
        resumed_poll emptied,
      )

      -- No wake-up is lost: whenever another thread sets an event of the set and passes it on,
      -- before the pipe is emptied, before the pass over the handles, or when the wait enters
      -- `poll` or sleeps in it, the wait ends with a handle of the set, and not with null. The set
      -- has a live handle, an empty pipe takes the event, `poll` reports a pipe that holds
      -- something, when it is asked for it, and changes neither the pipe nor an event, and the fuel exceeds the capacity of
      -- the pipe.
      pub interrupted-Member :
          (moment : Moment) (s : S)
          → Member handles (interrupted moment (raise_event set_event set e) fuel handles s)
      interrupted-Member moment s =
          let act = raise_event set_event set e in
          let begun = at_purge moment act s in
          drained_next handles (purge platform fuel begun) begun (resumed moment act fuel handles)
            (purge_empties platform works fuel begun (platform.pending begun) refl
              (omega (arith, bounded begun, enough)))
            (resumed-Member moment s)
