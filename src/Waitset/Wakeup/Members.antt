-- ===== src/Waitset/Wakeup/Members.antt =====
-- An event of a wait set is found by the pass when it is signalled, and in the pipe when it is told.
use of_core_darwin.Base.{ℕ, ◌≡◌, ◌≢◌, true, none, List, [], ◌∷◌, ◌++◌, arith}
use of_core_darwin.Waitset.{
  Kind, wait_queue, file, socket, fsdarwin_overlapped, fssmb_overlapped, event, timer, other_kind,
  Element, Platform,
}
use of_core_darwin.Waitset.Wait.{find}
use of_core_darwin.Waitset.Laws.{first_handle, speaker, speakers}
use of_core_darwin.Waitset.Timers.{has}

module _ {S : Type 0} (platform : Platform S) where
  pub member_ready :
      (hs : List ℕ) (e : ℕ) (s : S)
      → e ≢ 0
      → platform.kind e ≡ event
      → has hs e ≡ true
      → platform.event_test s e ≡ true
      → first_handle platform hs s ≢ 0
  member_ready [] e s nz k mine on = ground arith
  member_ready (h ∷ hs) e s nz k mine on = grind (arith, member_ready hs e s nz k)

  find_further :
      (k : Kind) (h g : ℕ) (es : List Element)
      → find es g ≢ none
      → find (speaker platform k h ++ es) g ≢ none
  unfolding find
  find_further wait_queue h g es there = grind arith
  find_further file h g es there = there
  find_further socket h g es there = there
  find_further fsdarwin_overlapped h g es there = grind arith
  find_further fssmb_overlapped h g es there = grind arith
  find_further event h g es there = grind arith
  find_further timer h g es there = there
  find_further other_kind h g es there = there

  find_event :
      (k : Kind) (e : ℕ) (es : List Element)
      → k ≡ event
      → find (speaker platform k e ++ es) e ≢ none
  unfolding find
  find_event wait_queue e es same = ground arith
  find_event file e es same = ground arith
  find_event socket e es same = ground arith
  find_event fsdarwin_overlapped e es same = ground arith
  find_event fssmb_overlapped e es same = ground arith
  find_event event e es same = ground arith
  find_event timer e es same = ground arith
  find_event other_kind e es same = ground arith

  pub member_speaks :
      (hs : List ℕ) (e : ℕ)
      → e ≢ 0
      → platform.kind e ≡ event
      → has hs e ≡ true
      → find (speakers platform hs) e ≢ none
  unfolding find
  member_speaks [] e nz k mine = ground arith
  member_speaks (h ∷ hs) e nz k mine = grind (
    arith,
    member_speaks hs e nz k,
    find_further (platform.kind h) h e (speakers platform hs),
    find_event (platform.kind h) h (speakers platform hs),
  )
