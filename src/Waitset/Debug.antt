-- ===== src/Waitset/Debug.antt =====
-- `ofc_waitset_debug`: the lines that it prints, and what they say.
use Prim.Native.String.{String}
use of_core_darwin.Base.{
  ℕ, ◌≡◌, refl, Bool, true, false, not, Option, none, some, List, [], ◌∷◌, ◌++◌, ◌==◌,
  if◌then◌else◌, arith,
}
use of_core_darwin.Waitset.{
  Kind, wait_queue, file, socket, fsdarwin_overlapped, fssmb_overlapped, event, timer, other_kind,
  Platform,
}
use of_core_darwin.Waitset.Laws.{is_ready}

-- `triggered` or `not triggered`, and for a wait queue `not empty` or `empty`.
pub data Status : Type 0 where
  empty not_empty triggered not_triggered : Status

-- A call of `ofc_printf`: the text alone, with a status, or with a number of milliseconds.
pub data Line : Type 0 where
  plain : String → Line
  with_status : String → Status → Line
  with_time : String → ℕ → Line

abbrev pub triggered_if : Bool → Status
triggered_if b = if b then triggered else not_triggered

module _ {S : Type 0} (platform : Platform S) where
  open platform use {
    kind, waitq_empty, event_test, fs_overlapped_event, smb_overlapped_waitq, is_darwin_file,
    timer_wait,
  }

  -- The switch, for handle `h` of a kind.
  unfoldable pub describe : Kind → ℕ → S → List Line
  describe wait_queue h s =
      with_status "Wait Queue" (if waitq_empty s h then empty else not_empty) ∷ []
  describe file h s = if is_darwin_file h then plain "Darwin File" ∷ [] else []
  describe socket h s = plain "Darwin Socket" ∷ []
  describe fsdarwin_overlapped h s =
      with_status "Darwin Overlapped" (triggered_if (event_test s (fs_overlapped_event h))) ∷ []
  describe fssmb_overlapped h s =
      with_status "CIFS Overlapped" (triggered_if (waitq_empty s (smb_overlapped_waitq h))) ∷ []
  describe event h s = with_status "Event" (triggered_if (event_test s h)) ∷ []
  describe timer h s = with_time "Timer" (timer_wait s h) ∷ []
  describe other_kind h s = []

  -- The loop over the handles of the set, to a null handle.
  unfoldable pub describe_all : List ℕ → S → List Line
  unfolding describe
  describe_all [] s = []
  describe_all (h ∷ hs) s =
      let rest = describe_all hs s in if h == 0 then [] else describe (kind h) h s ++ rest

  -- Given the set's queue of handles, which is `none` when its lock fails.
  unfoldable pub debug : Option (List ℕ) → S → List Line
  unfolding describe_all
  debug none s = []
  debug (some handles) s = describe_all handles s

  -- What a line tells about readiness, if anything.
  abbrev pub says : Line → List Bool
  says (plain text) = []
  says (with_status text empty) = false ∷ []
  says (with_status text not_empty) = true ∷ []
  says (with_status text triggered) = true ∷ []
  says (with_status text not_triggered) = false ∷ []
  says (with_time text t) = (t == 0) ∷ []

  abbrev pub all_said : List Line → List Bool
  all_said [] = []
  all_said (l ∷ ls) = says l ++ all_said ls

  -- What a pass of the wait finds of the handle, but the opposite for an overlapped of the SMB file system.
  abbrev pub told_of : Kind → ℕ → S → List Bool
  told_of wait_queue h s = is_ready platform wait_queue h s ∷ []
  told_of file h s = []
  told_of socket h s = []
  told_of fsdarwin_overlapped h s = is_ready platform fsdarwin_overlapped h s ∷ []
  told_of fssmb_overlapped h s = not (is_ready platform fssmb_overlapped h s) ∷ []
  told_of event h s = is_ready platform event h s ∷ []
  told_of timer h s = is_ready platform timer h s ∷ []
  told_of other_kind h s = []

  abbrev pub all_told : List ℕ → S → List Bool
  all_told [] s = []
  all_told (h ∷ hs) s = if h == 0 then [] else told_of (kind h) h s ++ all_told hs s

  describe-said :
      (k : Kind) (h : ℕ) (s : S) (rest : List Line)
      → all_said (describe k h s ++ rest) ≡ told_of k h s ++ all_said rest
  unfolding describe
  describe-said wait_queue h s rest = ground arith
  describe-said file h s rest = ground arith
  describe-said socket h s rest = ground arith
  describe-said fsdarwin_overlapped h s rest = ground arith
  describe-said fssmb_overlapped h s rest = ground arith
  describe-said event h s rest = ground arith
  describe-said timer h s rest = ground arith
  describe-said other_kind h s rest = ground arith

  -- The debug lines say of the handles of a set, up to a null one and in their order, what a pass of the
  -- wait would find: which are ready. Only of an overlapped operation of the SMB file system they
  -- say the opposite, and of files and sockets nothing.
  pub debug-told : (hs : List ℕ) (s : S) → all_said (debug (some hs) s) ≡ all_told hs s
  unfolding debug describe_all
  debug-told [] s = refl
  debug-told (h ∷ hs) s =
      grind (arith, debug-told hs s, describe-said (kind h) h s (describe_all hs s))
