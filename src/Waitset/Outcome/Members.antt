-- ===== src/Waitset/Outcome/Members.antt =====
-- The lists that a pass makes speak for handles of the set only.
use of_core_darwin.Base.{
  ℕ, zero, suc, ◌≡◌, ◌≢◌, refl, ◌⊎◌, inl, inr, Bool, true, false, some, List, [], ◌∷◌, ◌++◌,
  if◌then◌else◌, arith,
}
use of_core_darwin.Waitset.{
  Kind, wait_queue, file, socket, fsdarwin_overlapped, fssmb_overlapped, event, timer, other_kind,
  Element, PollFd, Platform,
}
use of_core_darwin.Waitset.Wait.{find, handle_at}
use of_core_darwin.Waitset.Laws.{first_handle, entry, entries, speaker, speakers}
use of_core_darwin.Waitset.Timers.{has}
use of_core_darwin.Waitset.Pipe.{Works, heard}

module _ {S : Type 0} (platform : Platform S) where
  open platform use {kind}

  pub first_handle-has :
      (hs : List ℕ) (s : S)
      → first_handle platform hs s ≢ 0
      → has hs (first_handle platform hs s) ≡ true
  first_handle-has [] s ne = ground arith
  first_handle-has (h ∷ hs) s ne = grind (arith, first_handle-has hs s)

  handle_at-optional :
      (b : Bool) (f : PollFd) (fds : List PollFd) (i : ℕ)
      → (handle_at ((if b then f ∷ [] else []) ++ fds) i ≡ f.handle)
        ⊎ ((j : ℕ) × (handle_at ((if b then f ∷ [] else []) ++ fds) i ≡ handle_at fds j))
  unfolding handle_at
  handle_at-optional true f fds zero = inl refl
  handle_at-optional true f fds (suc i) = inr (i, refl)
  handle_at-optional false f fds i = inr (i, refl)

  handle_at-entry :
      (k : Kind) (h : ℕ) (s : S) (fds : List PollFd) (i : ℕ)
      → (handle_at (entry platform k h s ++ fds) i ≡ h)
        ⊎ ((j : ℕ) × (handle_at (entry platform k h s ++ fds) i ≡ handle_at fds j))
  unfolding handle_at
  handle_at-entry wait_queue h s fds i = inr (i, refl)
  handle_at-entry file h s fds i = handle_at-optional (platform.is_darwin_file h) _ fds i
  handle_at-entry socket h s fds zero = inl refl
  handle_at-entry socket h s fds (suc i) = inr (i, refl)
  handle_at-entry fsdarwin_overlapped h s fds i = inr (i, refl)
  handle_at-entry fssmb_overlapped h s fds i = inr (i, refl)
  handle_at-entry event h s fds i = inr (i, refl)
  handle_at-entry timer h s fds i = inr (i, refl)
  handle_at-entry other_kind h s fds i = inr (i, refl)

  pub handle_at-has :
      (hs : List ℕ) (s : S) (i : ℕ)
      → handle_at (entries platform hs s) i ≢ 0
      → has hs (handle_at (entries platform hs s) i) ≡ true
  unfolding handle_at
  handle_at-has [] s i ne = ground arith
  handle_at-has (h ∷ hs) s i ne = elim (handle_at-entry (kind h) h s (entries platform hs s) i) [
    | inl e ↦ grind (arith, e)
    | inr (j, e) ↦ grind (arith, e, handle_at-has hs s j)
  ]

  find-speaker :
      (k : Kind) (h : ℕ) (es : List Element) (g : ℕ) (e : Element)
      → find (speaker platform k h ++ es) g ≡ some e
      → (e.assoc ≡ h) ⊎ (find es g ≡ some e)
  unfolding find
  find-speaker wait_queue h es g e found = grind arith
  find-speaker file h es g e found = inr found
  find-speaker socket h es g e found = inr found
  find-speaker fsdarwin_overlapped h es g e found = grind arith
  find-speaker fssmb_overlapped h es g e found = grind arith
  find-speaker event h es g e found = grind arith
  find-speaker timer h es g e found = inr found
  find-speaker other_kind h es g e found = inr found

  pub speakers-has :
      (hs : List ℕ) (g : ℕ) (e : Element)
      → find (speakers platform hs) g ≡ some e
      → (e.assoc ≢ 0) × (has hs e.assoc ≡ true)
  unfolding find
  speakers-has [] g e found = ground arith
  speakers-has (h ∷ hs) g e found =
      grind (arith, find-speaker (kind h) h (speakers platform hs) g e, speakers-has hs g e)

  pub heard-has :
      (works : Works platform) (hs q : List ℕ) (s : S)
      → heard platform works (speakers platform hs) q s ≢ 0
      → has hs (heard platform works (speakers platform hs) q s) ≡ true
  heard-has works hs [] s ne = ground arith
  heard-has works hs (h ∷ q) s ne = grind (arith, heard-has works hs q s, speakers-has hs h)
