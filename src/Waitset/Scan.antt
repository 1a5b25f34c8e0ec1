-- ===== src/Waitset/Scan.antt =====
-- The first half of `ofc_waitset_wait_impl`: empty the pipe, and look at each handle of the set.
use of_core_darwin.Base.{
  ℕ, zero, suc, not, ltb, Option, none, some, List, [], ◌∷◌, ◌++◌, ◌==◌, if◌then◌else◌,
}
use of_core_darwin.Base.Int.{ℤ}
use of_core_darwin.Socket.Poll.{pollin}
use of_core_darwin.Waitset.{
  Kind, wait_queue, file, socket, fsdarwin_overlapped, fssmb_overlapped, event, timer, other_kind,
  Element, PollFd, Platform,
}

-- The local variables of the loop.
pub record Scan : Type 0 where
  pub triggered : ℕ
  pub least_wait : ℕ
  pub timer_event : ℕ
  pub fds : List PollFd
  pub elements : List Element

module _ {S : Type 0} (platform : Platform S) where
  open platform use {
    kind, waitq_event, waitq_empty, event_test, event_is_auto, event_reset, fs_overlapped_event,
    smb_overlapped_waitq, is_darwin_file, file_fd, socket_impl, socket_fd, socket_event, timer_wait,
    enqueue, max_sched_wait, pipe_in, read_pipe,
  }

  -- `while (read(...) > 0);` on fuel.
  unfoldable pub purge : ℕ → S → Option S
  purge zero s = none
  purge (suc fuel) s =
      let rest = purge fuel (read_pipe s).1 in
      elim (read_pipe s).0 [ none ↦ some (read_pipe s).1 | some h ↦ rest ]

  abbrev pub start : Scan
  start = record {
    triggered = 0;
    least_wait = max_sched_wait;
    timer_event = 0;
    fds = record { fd = pipe_in; events = pollin; handle = 0 } ∷ [];
    elements = [];
  }

  abbrev pub watch : Scan → ℕ → ℕ → Scan
  watch scan signal assoc = record scan {
    elements = enqueue scan.elements (record { event = signal; assoc = assoc });
  }

  abbrev pub trigger : Scan → ℕ → Scan
  trigger scan h = record scan { triggered = h }

  abbrev pub poll_on : Scan → ℤ → ℕ → ℕ → Scan
  poll_on scan fd events h = record scan {
    fds = scan.fds ++ record { fd = fd; events = events; handle = h } ∷ [];
  }

  -- The body of the switch, for handle `h` of a kind.
  unfoldable pub visit : Kind → ℕ → Scan → S → Scan × S
  visit wait_queue h scan s =
      if not (waitq_empty s h) then (trigger scan h, s) else (watch scan (waitq_event h) h, s)
  visit file h scan s = if is_darwin_file h then (poll_on scan (file_fd h) 0 h, s) else (scan, s)
  visit socket h scan s =
      (poll_on scan (socket_fd s (socket_impl h)) (socket_event s (socket_impl h)) h, s)
  visit fsdarwin_overlapped h scan s =
      if event_test s (fs_overlapped_event h)
      then (trigger scan h, s)
      else (watch scan (fs_overlapped_event h) h, s)
  visit fssmb_overlapped h scan s =
      if not (waitq_empty s (smb_overlapped_waitq h))
      then (trigger scan h, s)
      else (watch scan (waitq_event (smb_overlapped_waitq h)) h, s)
  visit event h scan s =
      if event_test s h
      then (trigger scan h, if event_is_auto s h then event_reset h s else s)
      else (watch scan h h, s)
  visit timer h scan s =
      if timer_wait s h == 0
      then (trigger scan h, s)
      else if ltb (timer_wait s h) scan.least_wait
      then (record scan { least_wait = timer_wait s h; timer_event = h }, s)
      else (scan, s)
  visit other_kind h scan s = (scan, s)

  -- The loop over the handles of the set, to a null handle or the first that is ready.
  unfoldable pub scan_handles : List ℕ → Scan → S → Scan × S
  unfolding visit
  scan_handles [] scan s = (scan, s)
  scan_handles (h ∷ hs) scan s =
      if h == 0
      then (scan, s)
      else if scan.triggered == 0
      then (let r = visit (kind h) h scan s in scan_handles hs r.0 r.1)
      else (scan, s)
