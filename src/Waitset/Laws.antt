-- ===== src/Waitset/Laws.antt =====
-- What one pass over the handles of a wait set finds.
use of_core_darwin.Base.{
  ℕ, ◌≡◌, ◌≢◌, refl, sym, Bool, true, false, not, List, [], ◌∷◌, ◌++◌, ◌==◌, if◌then◌else◌, arith,
  append-nil, append_assoc,
}
use of_core_darwin.Waitset.{
  Kind, wait_queue, file, socket, fsdarwin_overlapped, fssmb_overlapped, event, timer, other_kind,
  Element, PollFd, Platform,
}
use of_core_darwin.Waitset.Scan.{Scan, visit, scan_handles}

module _ {S : Type 0} (platform : Platform S) where
  open platform use {
    kind, waitq_event, waitq_empty, event_test, event_is_auto, event_reset, fs_overlapped_event,
    smb_overlapped_waitq, is_darwin_file, file_fd, socket_impl, socket_fd, socket_event, timer_wait,
    enqueue, max_sched_wait, pipe_in,
  }

  -- A handle that need not be waited for.
  abbrev pub is_ready : Kind → ℕ → S → Bool
  is_ready wait_queue h s = not (waitq_empty s h)
  is_ready file h s = false
  is_ready socket h s = false
  is_ready fsdarwin_overlapped h s = event_test s (fs_overlapped_event h)
  is_ready fssmb_overlapped h s = not (waitq_empty s (smb_overlapped_waitq h))
  is_ready event h s = event_test s h
  is_ready timer h s = timer_wait s h == 0
  is_ready other_kind h s = false

  -- What `poll` has to look at for a handle.
  abbrev pub entry : Kind → ℕ → S → List PollFd
  entry file h s =
      if is_darwin_file h then record { fd = file_fd h; events = 0; handle = h } ∷ [] else []
  entry socket h s =
      record {
        fd = socket_fd s (socket_impl h);
        events = socket_event s (socket_impl h);
        handle = h;
      }
      ∷ []
  entry wait_queue h s = []
  entry fsdarwin_overlapped h s = []
  entry fssmb_overlapped h s = []
  entry event h s = []
  entry timer h s = []
  entry other_kind h s = []

  -- The event that speaks for a handle.
  abbrev pub speaker : Kind → ℕ → List Element
  speaker wait_queue h = record { event = waitq_event h; assoc = h } ∷ []
  speaker fsdarwin_overlapped h = record { event = fs_overlapped_event h; assoc = h } ∷ []
  speaker fssmb_overlapped h =
      record { event = waitq_event (smb_overlapped_waitq h); assoc = h } ∷ []
  speaker event h = record { event = h; assoc = h } ∷ []
  speaker file h = []
  speaker socket h = []
  speaker timer h = []
  speaker other_kind h = []

  -- Over the handles of the set, which end at a null one.
  abbrev pub first_handle : List ℕ → S → ℕ
  first_handle [] s = 0
  first_handle (h ∷ hs) s =
      if h == 0 then 0 else if is_ready (kind h) h s then h else first_handle hs s

  abbrev pub entries : List ℕ → S → List PollFd
  entries [] s = []
  entries (h ∷ hs) s = if h == 0 then [] else entry (kind h) h s ++ entries hs s

  abbrev pub speakers : List ℕ → List Element
  speakers [] = []
  speakers (h ∷ hs) = if h == 0 then [] else speaker (kind h) h ++ speakers hs

  pub visit-ready :
      (k : Kind) (h : ℕ) (scan : Scan) (s : S)
      → is_ready k h s ≡ true
      → (visit platform k h scan s).0.triggered ≡ h
  unfolding visit
  visit-ready wait_queue h scan s r = ground arith
  visit-ready file h scan s r = ground arith
  visit-ready socket h scan s r = ground arith
  visit-ready fsdarwin_overlapped h scan s r = ground arith
  visit-ready fssmb_overlapped h scan s r = ground arith
  visit-ready event h scan s r = ground arith
  visit-ready timer h scan s r = ground arith
  visit-ready other_kind h scan s r = ground arith

  pub scan_stops :
      (hs : List ℕ) (scan : Scan) (s : S)
      → scan.triggered ≢ 0
      → scan_handles platform hs scan s ≡ (scan, s)
  unfolding scan_handles
  scan_stops [] scan s ne = refl
  scan_stops (h ∷ hs) scan s ne = ground arith

  module _ (appends : (q : List Element) (e : Element) → enqueue q e ≡ q ++ (e ∷ [])) where
    -- What the visit of a handle that is not ready leaves.
    unfoldable pub Added : Kind → ℕ → Scan → S → Scan × S → Type 0
    Added k h scan s r =
        (r.1 ≡ s)
        × (r.0.triggered ≡ scan.triggered)
        × (r.0.fds ≡ scan.fds ++ entry k h s)
        × (r.0.elements ≡ scan.elements ++ speaker k h)

    pub visit-waiting :
        (k : Kind) (h : ℕ) (scan : Scan) (s : S)
        → is_ready k h s ≡ false
        → Added k h scan s (visit platform k h scan s)
    unfolding visit Added
    visit-waiting wait_queue h scan s r =
        grind (arith, append-nil scan.fds, append-nil scan.elements, appends)
    visit-waiting file h scan s r =
        grind (arith, append-nil scan.fds, append-nil scan.elements, appends)
    visit-waiting socket h scan s r =
        grind (arith, append-nil scan.fds, append-nil scan.elements, appends)
    visit-waiting fsdarwin_overlapped h scan s r =
        grind (arith, append-nil scan.fds, append-nil scan.elements, appends)
    visit-waiting fssmb_overlapped h scan s r =
        grind (arith, append-nil scan.fds, append-nil scan.elements, appends)
    visit-waiting event h scan s r =
        grind (arith, append-nil scan.fds, append-nil scan.elements, appends)
    visit-waiting timer h scan s r =
        grind (arith, append-nil scan.fds, append-nil scan.elements, appends)
    visit-waiting other_kind h scan s r =
        grind (arith, append-nil scan.fds, append-nil scan.elements, appends)

    -- A pass that starts with nothing triggered triggers the first handle, before a null one, that is
    -- ready, if any, given that `ofc_enqueue` adds at the end.
    pub scan-first :
        (hs : List ℕ) (scan : Scan) (s : S)
        → scan.triggered ≡ 0
        → (scan_handles platform hs scan s).0.triggered ≡ first_handle hs s
    unfolding scan_handles Added
    scan-first [] scan s zero_yet = zero_yet
    scan-first (h ∷ hs) scan s zero_yet =
        let r = visit platform (kind h) h scan s in
        grind (
          arith,
          scan-first hs r.0 r.1,
          scan_stops hs r.0 r.1,
          visit-ready (kind h) h scan s,
          visit-waiting (kind h) h scan s,
        )

    -- If no handle is ready and `ofc_enqueue` adds at the end, a pass leaves the state alone, and has listed for `poll` and for the
    -- pipe every handle that can wake it, in the set's order.
    pub scan-lists :
        (hs : List ℕ) (scan : Scan) (s : S)
        → scan.triggered ≡ 0
        → first_handle hs s ≡ 0
        → ((scan_handles platform hs scan s).1 ≡ s)
          × ((scan_handles platform hs scan s).0.fds ≡ scan.fds ++ entries hs s)
          × ((scan_handles platform hs scan s).0.elements ≡ scan.elements ++ speakers hs)
    unfolding scan_handles Added
    scan-lists [] scan s zero_yet none_ready =
        (refl, sym (append-nil scan.fds), sym (append-nil scan.elements))
    scan-lists (h ∷ hs) scan s zero_yet none_ready =
        let r = visit platform (kind h) h scan s in
        grind (
          arith,
          scan-lists hs r.0 r.1,
          visit-waiting (kind h) h scan s,
          append_assoc scan.fds (entry (kind h) h s) (entries hs s),
          append_assoc scan.elements (speaker (kind h) h) (speakers hs),
          append-nil scan.fds,
          append-nil scan.elements,
        )
