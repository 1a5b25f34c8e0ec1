-- ===== src/Waitset/Timers.antt =====
-- How long a wait set sleeps, and for which timer.
use of_core_darwin.Base.{
  ℕ, ◌≡◌, refl, ◌⊎◌, ◌≤◌, Bool, true, false, List, [], ◌∷◌, ◌++◌, ◌==◌, if◌then◌else◌, arith,
}
use of_core_darwin.Waitset.{
  Kind, wait_queue, file, socket, fsdarwin_overlapped, fssmb_overlapped, event, timer, other_kind,
  Element, Platform,
}
use of_core_darwin.Waitset.Scan.{Scan, start, visit, scan_handles}
use of_core_darwin.Waitset.Laws.{is_ready, first_handle, Added, visit-waiting}

abbrev pub is_timer : Kind → Bool
is_timer timer = true
is_timer wait_queue = false
is_timer file = false
is_timer socket = false
is_timer fsdarwin_overlapped = false
is_timer fssmb_overlapped = false
is_timer event = false
is_timer other_kind = false

-- The handles of a set end at a null one.
abbrev pub has : List ℕ → ℕ → Bool
has [] a = false
has (h ∷ hs) a = if h == 0 then false else if h == a then true else has hs a

module _ {S : Type 0} (platform : Platform S) where
  open platform use {kind, timer_wait, enqueue, max_sched_wait}

  -- What the visit of a handle that is not ready makes of the shortest wait.
  Shortened : Kind → ℕ → Scan → S → Scan → Type 0
  Shortened k h scan s r =
      (r.least_wait ≤ scan.least_wait)
      × (is_timer k ≡ true → r.least_wait ≤ timer_wait s h)
      × (((r.timer_event ≡ scan.timer_event) × (r.least_wait ≡ scan.least_wait))
          ⊎ ((r.timer_event ≡ h) × (r.least_wait ≡ timer_wait s h) × (is_timer k ≡ true)))

  visit-Shortened :
      (k : Kind) (h : ℕ) (scan : Scan) (s : S)
      → is_ready platform k h s ≡ false
      → Shortened k h scan s (visit platform k h scan s).0
  unfolding visit Shortened
  visit-Shortened wait_queue h scan s r = ground arith
  visit-Shortened file h scan s r = ground arith
  visit-Shortened socket h scan s r = ground arith
  visit-Shortened fsdarwin_overlapped h scan s r = ground arith
  visit-Shortened fssmb_overlapped h scan s r = ground arith
  visit-Shortened event h scan s r = ground arith
  visit-Shortened timer h scan s r = ground arith
  visit-Shortened other_kind h scan s r = ground arith

  module _ (appends : (q : List Element) (e : Element) → enqueue q e ≡ q ++ (e ∷ [])) where
    -- A pass never lengthens the wait, and its new timer is one of the handles that it saw.
    Picked : List ℕ → Scan → S → Scan → Type 0
    Picked hs scan s r =
        (r.least_wait ≤ scan.least_wait)
        × (((r.timer_event ≡ scan.timer_event) × (r.least_wait ≡ scan.least_wait))
            ⊎ ((has hs r.timer_event ≡ true)
                × (r.least_wait ≡ timer_wait s r.timer_event)
                × (is_timer (kind r.timer_event) ≡ true)))

    scan-Picked :
        (hs : List ℕ) (scan : Scan) (s : S)
        → scan.triggered ≡ 0
        → first_handle platform hs s ≡ 0
        → Picked hs scan s (scan_handles platform hs scan s).0
    unfolding scan_handles Shortened Picked Added
    scan-Picked [] scan s zero_yet none_ready = ground arith
    scan-Picked (h ∷ hs) scan s zero_yet none_ready =
        let r = visit platform (kind h) h scan s in
        grind (
          arith,
          scan-Picked hs r.0 r.1,
          visit-waiting platform appends (kind h) h scan s,
          visit-Shortened (kind h) h scan s,
        )

    scan-bounded :
        (hs : List ℕ) (scan : Scan) (s : S) (t : ℕ)
        → scan.triggered ≡ 0
        → first_handle platform hs s ≡ 0
        → has hs t ≡ true
        → is_timer (kind t) ≡ true
        → (scan_handles platform hs scan s).0.least_wait ≤ timer_wait s t
    unfolding scan_handles Shortened Picked Added
    scan-bounded [] scan s t zero_yet none_ready mem timed = ground arith
    scan-bounded (h ∷ hs) scan s t zero_yet none_ready mem timed =
        let r = visit platform (kind h) h scan s in
        grind (
          arith,
          scan-bounded hs r.0 r.1 t,
          scan-Picked hs r.0 r.1,
          visit-waiting platform appends (kind h) h scan s,
          visit-Shortened (kind h) h scan s,
        )

    -- When no handle is ready and `ofc_enqueue` adds at the end, `poll` is given the shortest wait of the set's timers, or the longest
    -- wait that the scheduler allows if that is no longer; and the timer kept for it, if there is
    -- one, is a timer of the set with exactly that wait.
    pub scan-shortest :
        (hs : List ℕ) (s : S)
        → first_handle platform hs s ≡ 0
        → ((t : ℕ)
            → has hs t ≡ true
            → is_timer (kind t) ≡ true
            → (scan_handles platform hs (start platform) s).0.least_wait ≤ timer_wait s t)
          × ((scan_handles platform hs (start platform) s).0.least_wait ≤ max_sched_wait)
          × ((((scan_handles platform hs (start platform) s).0.timer_event ≡ 0)
                × ((scan_handles platform hs (start platform) s).0.least_wait ≡ max_sched_wait))
              ⊎ ((has hs (scan_handles platform hs (start platform) s).0.timer_event ≡ true)
                  × ((scan_handles platform hs (start platform) s).0.least_wait
                      ≡ timer_wait s (scan_handles platform hs (start platform) s).0.timer_event)
                  × (is_timer (kind (scan_handles platform hs (start platform) s).0.timer_event)
                      ≡ true)))
    unfolding Picked
    scan-shortest hs s none_ready =
        let p = scan-Picked hs (start platform) s refl none_ready in
        ((λ t mem timed. scan-bounded hs (start platform) s t refl none_ready mem timed), p.0, p.1)
