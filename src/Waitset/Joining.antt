-- ===== src/Waitset/Joining.antt =====
-- What `ofc_waitset_add_impl` tells a set about a handle that is ready when it joins.
use of_core_darwin.Base.{ℕ, ◌≡◌, true, List, [], ◌∷◌, ◌++◌, if◌then◌else◌, arith, append-nil}
use of_core_darwin.Waitset.{
  Kind, wait_queue, file, socket, fsdarwin_overlapped, fssmb_overlapped, event, timer, other_kind,
  Platform,
}
use of_core_darwin.Waitset.Notify.{signal, join, add}

module _ {S : Type 0} (platform : Platform S) where
  open platform use {
    kind, waitq_event, waitq_empty, event_test, fs_overlapped_event, smb_overlapped_event, set_app,
    write_pipe, pending, locks,
  }

  -- The events that are told for a handle of a kind.
  abbrev pub told : Kind → ℕ → S → List ℕ
  told wait_queue h s = if waitq_empty s h then [] else waitq_event h ∷ []
  told event h s = if event_test s h then h ∷ [] else []
  told fsdarwin_overlapped h s =
      if event_test s (fs_overlapped_event h) then fs_overlapped_event h ∷ [] else []
  told fssmb_overlapped h s =
      if event_test s (smb_overlapped_event h) then smb_overlapped_event h ∷ [] else []
  told file h s = []
  told socket h s = []
  told timer h s = []
  told other_kind h s = []

  -- The association of an event with a set changes no event, queue or pipe.
  abbrev pub Associates : ℕ → ℕ → S → Type 0
  Associates set app s =
      ((e : ℕ) → pending (set_app e app set s) ≡ pending s)
      × ((e h : ℕ) → event_test (set_app e app set s) h ≡ event_test s h)
      × ((e h : ℕ) → waitq_empty (set_app e app set s) h ≡ waitq_empty s h)
      × ((e : ℕ) → locks (set_app e app set s) set ≡ true)

  -- The pipe has room for one more handle.
  abbrev pub Room : ℕ → ℕ → S → Type 0
  Room set app s =
      (e h : ℕ)
      → pending (write_pipe h (set_app e app set s)) ≡ pending (set_app e app set s) ++ (h ∷ [])

  join-pending :
      (k : Kind) (set app h : ℕ) (s : S)
      → Associates set app s
      → Room set app s
      → pending (join platform k set app h s) ≡ pending s ++ told k h s
  unfolding join signal
  join-pending wait_queue set app h s calm room = grind (arith, append-nil (pending s))
  join-pending file set app h s calm room = grind (arith, append-nil (pending s))
  join-pending socket set app h s calm room = grind (arith, append-nil (pending s))
  join-pending fsdarwin_overlapped set app h s calm room = grind (arith, append-nil (pending s))
  join-pending fssmb_overlapped set app h s calm room = grind (arith, append-nil (pending s))
  join-pending event set app h s calm room = grind (arith, append-nil (pending s))
  join-pending timer set app h s calm room = grind (arith, append-nil (pending s))
  join-pending other_kind set app h s calm room = grind (arith, append-nil (pending s))

  -- No event is lost when a handle joins a set: if its event is signalled already, or its queue
  -- holds something, the event is put into the set's pipe, and otherwise nothing is. The set's
  -- handle has to be live and the pipe to have room, and associating an event changes nothing else.
  pub add-pending :
      (set app h : ℕ) (s : S)
      → Associates set app s
      → Room set app s
      → pending (add platform set app h s) ≡ pending s ++ told (kind h) h s
  unfolding add
  add-pending set app h s calm room = join-pending (kind h) set app h s calm room
