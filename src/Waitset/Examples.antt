-- ===== src/Waitset/Examples.antt =====
-- Runs of the wait set over a pipe that holds one handle.
use of_core_darwin.Base.{
  ℕ, ◌≡◌, ◌≢◌, refl, ◌⊎◌, ◌+◌, ◌≤◌, Bool, true, false, Option, none, some, List, [], ◌∷◌, ◌++◌,
  ◌==◌, ◌&&◌, if◌then◌else◌, arith, length,
}
use of_core_darwin.Base.Int.{pos, ltb_ℤ, eqb_ℤ}
use of_core_darwin.Waitset.{Kind, socket, event, timer, other_kind, Element, PollFd, Platform}
use of_core_darwin.Waitset.Scan.{scan_handles}
use of_core_darwin.Waitset.Wait.{find, finish, wait}
use of_core_darwin.Waitset.Notify.{signal, add}
use of_core_darwin.Waitset.Laws.{speakers}
use of_core_darwin.Waitset.Timers.{has, is_timer, scan-shortest}
use of_core_darwin.Waitset.Pipe.{Works, Gives}
use of_core_darwin.Waitset.Outcome.{Unslept, wait-first_handle, wait-has, scanned, finish-roused}
use of_core_darwin.Waitset.Joining.{add-pending}
use of_core_darwin.Host.{inet, Host, World, Ensures}
use of_core_darwin.Waitset.Storage.{storage}
use of_core_darwin.Waitset.Storage.Balance.{Balanced, storage-Balanced}
use of_core_darwin.Waitset.Wakeup.{
  in_poll, raise_event, interrupted, Raises, Polls, interrupted-Member,
}

-- Handles 1 and 2 are timers of 9 and 4 milliseconds, 3 is a socket, 5 and 6 are events of which 6 is set.
abbrev kinds : ℕ → Kind
kinds h =
    if h == 1
    then timer
    else if h == 2
    then timer
    else if h == 3
    then socket
    else if h == 5
    then event
    else if h == 6
    then event
    else other_kind

abbrev slot : Option ℕ → List ℕ
slot none = []
slot (some h) = h ∷ []

abbrev waits : ℕ → ℕ
waits h = if h == 1 then 9 else 4

abbrev platform : Platform (Option ℕ)
platform = record {
  kind = kinds;
  waitq_event = λ h. h + 100;
  waitq_empty = λ s h. true;
  event_test = λ s h. h == 6;
  event_is_auto = λ s h. false;
  event_reset = λ h s. s;
  fs_overlapped_event = λ h. h + 200;
  smb_overlapped_waitq = λ h. h + 300;
  smb_overlapped_event = λ h. h + 400;
  is_darwin_file = λ h. false;
  file_fd = λ h. pos h;
  socket_impl = λ h. h + 500;
  socket_fd = λ s h. pos 8;
  socket_event = λ s h. 1;
  set_socket_event = λ h events s. s;
  timer_wait = λ s h. waits h;
  set_app = λ e app set s. s;
  enqueue = λ q e. q ++ (e ∷ []);
  max_sched_wait = 200;
  pipe_in = pos 7;
  pending = slot;
  read_pipe = λ s. (s, none);
  locks = λ s h. true;
  write_pipe = λ h s. some h;
  poll = λ s fds wait_time. (pos 1, (λ i. if i == 1 then 1 else 0), s);
}

slot_empty : (s : Option ℕ) → slot s ≡ [] → (s ≡ none) × (slot none ≡ [])
slot_empty none e = (refl, refl)
slot_empty (some h) e = ground arith

slot_head : (s : Option ℕ) (h : ℕ) (q : List ℕ) → slot s ≡ h ∷ q → (s ≡ some h) × (slot none ≡ q)
slot_head none h q e = ground arith
slot_head (some g) h q e = ground arith

slot_small : (s : Option ℕ) → length (slot s) ≤ 1
slot_small none = omega arith
slot_small (some h) = omega arith

abbrev works : Works platform
works = record {
  appends = λ q e. refl;
  read_empty = slot_empty;
  read_head = slot_head;
  keeps_events = λ s h. refl;
  keeps_queues = λ s h. refl;
  keeps_timers = λ s h. refl;
  capacity = 1;
  bounded = slot_small;
}

abbrev quiet_set : List ℕ
quiet_set = 1 ∷ 2 ∷ 3 ∷ 5 ∷ []

abbrev ready_set : List ℕ
ready_set = 1 ∷ 6 ∷ 3 ∷ []

scan-shortest_example :
    ((t : ℕ)
      → has quiet_set t ≡ true
      → is_timer (kinds t) ≡ true
      → (scanned platform works quiet_set none).least_wait ≤ waits t)
    × ((scanned platform works quiet_set none).least_wait ≤ 200)
    × ((((scanned platform works quiet_set none).timer_event ≡ 0)
          × ((scanned platform works quiet_set none).least_wait ≡ 200))
        ⊎ ((has quiet_set (scanned platform works quiet_set none).timer_event ≡ true)
            × ((scanned platform works quiet_set none).least_wait
                ≡ waits (scanned platform works quiet_set none).timer_event)
            × (is_timer (kinds (scanned platform works quiet_set none).timer_event) ≡ true)))
scan-shortest_example = scan-shortest platform works.appends quiet_set none refl

six_named : (h : ℕ) (e : Element) → find (speakers platform (6 ∷ [])) h ≡ some e → e.assoc ≢ 0
unfolding find
six_named h e found = grind arith

wait-first_handle_example : Unslept platform works 2 ready_set (some 5) 6
wait-first_handle_example =
    wait-first_handle platform works 2 ready_set (some 5) (omega arith) (omega arith)

wait-has_example :
    Gives (λ h s'. (h ≡ 0) ⊎ (has quiet_set h ≡ true)) (wait platform 2 (some quiet_set) (some 5))
wait-has_example = wait-has platform works 2 quiet_set (some 5) (omega arith)

finish-roused_example :
    Gives (λ h s'. h ≡ 3) (finish platform 2 (scanned platform works quiet_set none) none)
unfolding scan_handles
finish-roused_example = finish-roused platform works 2 quiet_set none (omega arith) refl

add-pending_example : slot (add platform 20 30 6 none) ≡ 6 ∷ []
add-pending_example =
    add-pending platform 20 30 6 none ((λ e. refl), (λ e h. refl), (λ e h. refl), (λ e. refl))
      (λ e h. refl)

-- Whether the first entry asks for the pipe, and what `poll` counts for a pipe.
abbrev asks_pipe : List PollFd → Bool
asks_pipe [] = false
asks_pipe (f ∷ fds) = eqb_ℤ f.fd (pos 7) && f.events == 1

abbrev count_pipe : Option ℕ → Bool → ℕ
count_pipe none asked = 0
count_pipe (some h) asked = if asked then 1 else 0

-- The state of event 6 and the pipe.
abbrev wired : Platform (Bool × Option ℕ)
wired = record {
  kind = kinds;
  waitq_event = λ h. h + 100;
  waitq_empty = λ s h. true;
  event_test = λ s h. if h == 6 then s.0 else false;
  event_is_auto = λ s h. true;
  event_reset = λ h s. (false, s.1);
  fs_overlapped_event = λ h. h + 200;
  smb_overlapped_waitq = λ h. h + 300;
  smb_overlapped_event = λ h. h + 400;
  is_darwin_file = λ h. false;
  file_fd = λ h. pos h;
  socket_impl = λ h. h + 500;
  socket_fd = λ s h. pos 8;
  socket_event = λ s h. 1;
  set_socket_event = λ h events s. s;
  timer_wait = λ s h. waits h;
  set_app = λ e app set s. s;
  enqueue = λ q e. q ++ (e ∷ []);
  max_sched_wait = 200;
  pipe_in = pos 7;
  pending = λ s. slot s.1;
  read_pipe = λ s. (s.1, (s.0, none));
  locks = λ s h. true;
  write_pipe = λ h s. (s.0, some h);
  poll = λ s fds wait_time. (
    pos (count_pipe s.1 (asks_pipe fds)),
    (λ i. if i == 0 then count_pipe s.1 (asks_pipe fds) else 0),
    s,
  );
}

abbrev wired_works : Works wired
wired_works = record {
  appends = λ q e. refl;
  read_empty = λ s. slot_empty s.1;
  read_head = λ s. slot_head s.1;
  keeps_events = λ s h. refl;
  keeps_queues = λ s h. refl;
  keeps_timers = λ s h. refl;
  capacity = 1;
  bounded = λ s. slot_small s.1;
}

seen :
    (q : Option ℕ)
    → slot q ≢ []
    → (ltb_ℤ (pos 0) (pos (count_pipe q true)) ≡ true) × (count_pipe q true ≢ 0)
seen none ne = absurd (ne refl)
seen (some h) ne = (refl, λ e. omega arith)

abbrev wired_polls : Polls wired
wired_polls = record {
  sees = λ s h fds t ne. seen s.1 ne;
  keeps_pipe = λ s fds t. refl;
  keeps_event = λ s fds t h. refl;
}

abbrev set_six : Bool × Option ℕ → Bool × Option ℕ
set_six s = (true, s.1)

set_six-Raises : Raises wired 20 6 set_six
unfolding signal
set_six-Raises = record { on = λ s. refl; told = λ s empty. refl }

interrupted-Member_example :
    Gives
      (λ h s'. (h ≢ 0) × (has (5 ∷ 6 ∷ []) h ≡ true))
      (interrupted wired in_poll (raise_event wired set_six 20 6) 2 (5 ∷ 6 ∷ []) (false, some 5))
interrupted-Member_example =
    interrupted-Member wired wired_works wired_polls 20 6 set_six set_six-Raises (λ e. omega arith)
      (5 ∷ 6 ∷ []) refl refl 2 (omega arith) in_poll (false, some 5)

-- A heap with one block to give, and a set behind every handle.
abbrev heap_host : Host
heap_host = record {
  pointer = λ trace c. 100;
  number = λ trace c. pos 0;
  errno = λ trace. pos 0;
  sockaddr = λ trace. record { family = inet; port = []; addr = []; addr6 = []; scope = 0 };
  bytes = λ trace. [];
}

abbrev heap : World (Unit {0})
heap = record { object = λ p. none; trace = [] }

storage-Balanced_example :
    Ensures
      (λ done w'. Balanced 100 7 heap w')
      (storage platform heap_host 7 (5 ∷ 3 ∷ 6 ∷ []) none heap)
storage-Balanced_example =
    storage-Balanced heap_host (λ trace e. omega arith) (λ trace p e. omega arith) platform 100 7 7
      (5 ∷ 3 ∷ 6 ∷ []) none heap
