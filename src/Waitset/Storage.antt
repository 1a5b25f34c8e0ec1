-- ===== src/Waitset/Storage.antt =====
-- The memory and the lock of one wait: the queue of events and the two lists for `poll` in
-- `ofc_waitset_wait_impl`.
pub mod Balance
use of_core_darwin.Base.{
  ℕ, zero, suc, ◌+◌, ◌≡◌, ◌≢◌, refl, Bool, true, false, not, Option, some, none, List, [], ◌∷◌,
  ◌++◌, ◌==◌, if◌then◌else◌, arith,
}
use of_core_darwin.Host.{
  Call, Event, gave, did, Host, World, M, Ensures, pure, ◌>>=◌, ◌>>◌, call, touch, get_pointer,
}
use of_core_darwin.Host.Counts.{total, lock_of, unlock_of, LocksKept}
use of_core_darwin.Waitset.{
  Kind, wait_queue, file, socket, fsdarwin_overlapped, fssmb_overlapped, event, timer, other_kind,
  Platform,
}
use of_core_darwin.Waitset.Scan.{Scan, start, visit, scan_handles}

-- The addresses of the elements of `eventQueue`, of `darwin_handle_list` and of `ofc_handle_list`.
pub record Held : Type 0 where
  pub elements : List ℕ
  pub fds : ℕ
  pub handles : ℕ

-- These blocks are not in the table of objects.
abbrev pub P : Type 0 → Type 0
P X = M (Unit {0}) X

-- The loop that empties the queue.
unfoldable pub release_elements : List ℕ → P (Unit {0})
release_elements [] = pure tt
release_elements (p ∷ ps) = do call (Call.free p); release_elements ps

module _ (host : Host) where
  -- A new element, filled and put into the queue.
  abbrev pub hold_element : Held → P Held
  hold_element held = do
    p ← get_pointer host Call.malloc
    touch p
    pure (record held { elements = held.elements ++ p ∷ [] })

  -- One more entry in both lists.
  abbrev pub hold_entry : Held → P Held
  hold_entry held = do
    fds ← get_pointer host (Call.realloc held.fds)
    handles ← get_pointer host (Call.realloc held.handles)
    touch fds
    touch handles
    pure (record held { fds = fds; handles = handles })

module _ {S : Type 0} (platform : Platform S) (host : Host) where
  open platform use {
    kind, waitq_empty, event_test, fs_overlapped_event, smb_overlapped_waitq, is_darwin_file,
  }

  -- What the body of the switch allocates for handle `h` of a kind.
  unfoldable pub hold : Kind → ℕ → S → Held → P Held
  hold wait_queue h s held = if waitq_empty s h then hold_element host held else pure held
  hold file h s held = if is_darwin_file h then hold_entry host held else pure held
  hold socket h s held = hold_entry host held
  hold fsdarwin_overlapped h s held =
      if event_test s (fs_overlapped_event h) then pure held else hold_element host held
  hold fssmb_overlapped h s held =
      if waitq_empty s (smb_overlapped_waitq h) then hold_element host held else pure held
  hold event h s held = if event_test s h then pure held else hold_element host held
  hold timer h s held = pure held
  hold other_kind h s held = pure held

  -- The loop over the handles of the set, beside `scan_handles`.
  unfoldable pub hold_handles : List ℕ → Scan → S → Held → P Held
  unfolding hold
  hold_handles [] scan s held = pure held
  hold_handles (h ∷ hs) scan s held =
      let r = visit platform (kind h) h scan s in
      let rest = hold_handles hs r.0 r.1 in
      if h == 0
      then pure held
      else if scan.triggered == 0
      then hold (kind h) h s held >>= rest
      else pure held

  -- A wait on handle `set`, from a state `s` in which the pipe is empty; `handles` are those of the set.
  unfoldable pub storage : ℕ → List ℕ → S → P (Unit {0})
  unfolding hold_handles release_elements
  storage set handles s = do
    p ← get_pointer host (Call.handle_lock set)
    if p == 0 then pure tt else do
      queue ← get_pointer host Call.queue_create
      fds ← get_pointer host Call.malloc
      list ← get_pointer host Call.malloc
      touch fds
      touch list
      held ←
          hold_handles handles (start platform) s
            (record { elements = []; fds = fds; handles = list })
      call (Call.handle_unlock set)
      release_elements held.elements
      call (Call.queue_destroy queue)
      call (Call.free held.fds)
      call (Call.free held.handles)
