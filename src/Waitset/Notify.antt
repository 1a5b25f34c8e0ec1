-- ===== src/Waitset/Notify.antt =====
-- Signals to a wait set, and the association of a handle's event with a set.
use of_core_darwin.Base.{ℕ, Bool, not, if◌then◌else◌}
use of_core_darwin.Waitset.{
  Kind, wait_queue, file, socket, fsdarwin_overlapped, fssmb_overlapped, event, timer, other_kind,
  Platform,
}

module _ {S : Type 0} (platform : Platform S) where
  open platform use {
    kind, waitq_event, waitq_empty, event_test, fs_overlapped_event, smb_overlapped_event, set_app,
    write_pipe, locks,
  }

  -- `ofc_waitset_signal_impl`.
  unfoldable pub signal : ℕ → ℕ → S → S
  signal set h s = if locks s set then write_pipe h s else s

  unfoldable pub wake : ℕ → S → S
  unfolding signal
  wake set s = signal set 0 s

  -- The switch of `ofc_waitset_set_assoc_impl`, for handle `h` of a kind.
  unfoldable pub associate : Kind → ℕ → ℕ → ℕ → S → S
  associate wait_queue h app set s = set_app (waitq_event h) app set s
  associate fsdarwin_overlapped h app set s = set_app (fs_overlapped_event h) app set s
  associate fssmb_overlapped h app set s = set_app (smb_overlapped_event h) app set s
  associate event h app set s = s
  associate file h app set s = s
  associate socket h app set s = s
  associate timer h app set s = s
  associate other_kind h app set s = s

  unfoldable pub set_assoc : ℕ → ℕ → ℕ → S → S
  set_assoc h app set s = associate (kind h) h app set s

  abbrev pub signal_if : Bool → ℕ → ℕ → S → S
  signal_if test set h s = if test then signal set h s else s

  -- The switch of `ofc_waitset_add_impl`, for handle `h` of a kind.
  unfoldable pub join : Kind → ℕ → ℕ → ℕ → S → S
  join wait_queue set app h s =
      let s' = set_app (waitq_event h) app set s in
      signal_if (not (waitq_empty s' h)) set (waitq_event h) s'
  join event set app h s = let s' = set_app h app set s in signal_if (event_test s' h) set h s'
  join fsdarwin_overlapped set app h s =
      let s' = set_app (fs_overlapped_event h) app set s in
      signal_if (event_test s' (fs_overlapped_event h)) set (fs_overlapped_event h) s'
  join fssmb_overlapped set app h s =
      let s' = set_app (smb_overlapped_event h) app set s in
      signal_if (event_test s' (smb_overlapped_event h)) set (smb_overlapped_event h) s'
  join file set app h s = s
  join socket set app h s = s
  join timer set app h s = s
  join other_kind set app h s = s

  unfoldable pub add : ℕ → ℕ → ℕ → S → S
  add set app h s = join (kind h) set app h s
