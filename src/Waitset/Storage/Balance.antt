-- ===== src/Waitset/Storage/Balance.antt =====
-- What a wait allocates is given back when it ends.
use of_core_darwin.Base.{
  ℕ, ◌+◌, ◌≡◌, ◌≢◌, Bool, true, false, List, [], ◌∷◌, ◌++◌, ◌==◌, if◌then◌else◌, arith,
}
use of_core_darwin.Host.{
  Call, Event, gave, did, Host, World, Ensures, weaker, continued, pure, ◌>>=◌, ◌>>◌, call,
}
use of_core_darwin.Host.Counts.{total, lock_of, unlock_of, LocksKept}
use of_core_darwin.Waitset.{
  Kind, wait_queue, file, socket, fsdarwin_overlapped, fssmb_overlapped, event, timer, other_kind,
  Platform,
}
use of_core_darwin.Waitset.Scan.{Scan, start, visit}
use of_core_darwin.Waitset.Storage.{
  Held, P, hold_element, hold_entry, hold, hold_handles, release_elements, storage,
}

-- Blocks that were given at an address, and given back there.
abbrev pub given : ℕ → Event → ℕ
given a (gave Call.malloc p) = if p == a then 1 else 0
given a (gave (Call.realloc q) p) = if p == a then 1 else 0
given a _ = 0

abbrev pub given_back : ℕ → Event → ℕ
given_back a (did (Call.free q)) = if q == a then 1 else 0
given_back a (gave (Call.realloc q) p) = if q == a then 1 else 0
given_back a _ = 0

abbrev pub times : ℕ → List ℕ → ℕ
times a [] = 0
times a (p ∷ ps) = (if p == a then 1 else 0) + times a ps

abbrev pub held_at : ℕ → Held → ℕ
held_at a held =
    times a held.elements
    + ((if held.fds == a then 1 else 0) + (if held.handles == a then 1 else 0))

times-append : (a : ℕ) (ps qs : List ℕ) → times a (ps ++ qs) ≡ times a ps + times a qs
times-append a [] qs = omega arith
times-append a (p ∷ ps) qs = omega (arith, times-append a ps qs)

-- From `w` and `held` to `w'` and `held'`, the blocks at `a` that were given and not given back are those
-- that came to be held, and the locks of `k` are as they were.
abbrev pub Accounted : ℕ → ℕ → Held → World (Unit {0}) → Held → World (Unit {0}) → Type 0
Accounted a k held w held' w' =
    (total (given a) w'.trace + total (given_back a) w.trace + held_at a held
      ≡ total (given a) w.trace + total (given_back a) w'.trace + held_at a held')
    × (total (lock_of k) w'.trace ≡ total (lock_of k) w.trace)
    × (total (unlock_of k) w'.trace ≡ total (unlock_of k) w.trace)

sum_trans :
    (a k : ℕ) (held : Held) (w : World (Unit {0})) (held' : Held) (w' : World (Unit {0}))
    (held'' : Held) (w'' : World (Unit {0}))
    → Accounted a k held w held' w'
    → Accounted a k held' w' held'' w''
    → Accounted a k held w held'' w''
sum_trans a k held w held' w' held'' w'' (blocks, locks, unlocks) (blocks', locks', unlocks') =
    (omega (arith, blocks, blocks'), omega (arith, locks, locks'), omega (arith, unlocks, unlocks'))

release_elements_lem :
    (a k : ℕ) (ps : List ℕ) (w : World (Unit {0}))
    → Ensures
        (λ done w'.
          (total (given a) w'.trace ≡ total (given a) w.trace)
          × (total (given_back a) w'.trace ≡ total (given_back a) w.trace + times a ps)
          × (total (lock_of k) w'.trace ≡ total (lock_of k) w.trace)
          × (total (unlock_of k) w'.trace ≡ total (unlock_of k) w.trace))
        (release_elements ps w)
unfolding release_elements
release_elements_lem a k [] w = grind arith
release_elements_lem a k (p ∷ ps) w =
    grind (arith, release_elements_lem a k ps (record w { trace = did (Call.free p) ∷ w.trace }))

-- What follows the loop over the handles.
abbrev ended : ℕ → ℕ → Held → P (Unit {0})
ended set queue held = do
  call (Call.handle_unlock set)
  release_elements held.elements
  call (Call.queue_destroy queue)
  call (Call.free held.fds)
  call (Call.free held.handles)

abbrev Ended : ℕ → ℕ → ℕ → Held → World (Unit {0}) → World (Unit {0}) → Type 0
Ended a k set held w w' =
    (total (given a) w'.trace ≡ total (given a) w.trace)
    × (total (given_back a) w'.trace ≡ total (given_back a) w.trace + held_at a held)
    × (total (lock_of k) w'.trace ≡ total (lock_of k) w.trace)
    × (total (unlock_of k) w'.trace ≡ total (unlock_of k) w.trace + (if set == k then 1 else 0))

ended_lem :
    (a k set queue : ℕ) (held : Held) (w : World (Unit {0}))
    → Ensures (λ done w'. Ended a k set held w w') (ended set queue held w)
ended_lem a k set queue held w = grind (
  arith,
  release_elements_lem a k held.elements
      (record w { trace = did (Call.handle_unlock set) ∷ w.trace }),
)

-- Every block at `a` that was given was given back, and so were the locks of `k`.
abbrev pub Balanced : ℕ → ℕ → World (Unit {0}) → World (Unit {0}) → Type 0
Balanced a k w w' =
    (total (given a) w'.trace + total (given_back a) w.trace
      ≡ total (given a) w.trace + total (given_back a) w'.trace)
    × LocksKept k w w'

module _ (host : Host) (room : (trace : List Event) → host.pointer trace Call.malloc ≢ 0)
    (more : (trace : List Event) (p : ℕ) → host.pointer trace (Call.realloc p) ≢ 0) where
  hold_element_lem :
      (a k : ℕ) (held : Held) (w : World (Unit {0}))
      → Ensures (Accounted a k held w) (hold_element host held w)
  hold_element_lem a k held w =
      grind (arith, times-append a held.elements (host.pointer w.trace Call.malloc ∷ []))

  hold_entry_lem :
      (a k : ℕ) (held : Held) (w : World (Unit {0}))
      → Ensures (Accounted a k held w) (hold_entry host held w)
  hold_entry_lem a k held w = grind arith

  hold_nothing :
      (a k : ℕ) (held : Held) (w : World (Unit {0}))
      → Ensures (Accounted a k held w) (pure {A = Unit {0}} held w)
  hold_nothing a k held w = grind arith

  choose :
      (b : Bool) (a k : ℕ) (held : Held) (w : World (Unit {0})) (m n : P Held)
      → Ensures (Accounted a k held w) (m w)
      → Ensures (Accounted a k held w) (n w)
      → Ensures (Accounted a k held w) ((if b then m else n) w)
  choose true a k held w m n first second = first
  choose false a k held w m n first second = second

  element_or_nothing :
      (b : Bool) (a k : ℕ) (held : Held) (w : World (Unit {0}))
      → Ensures (Accounted a k held w) ((if b then hold_element host held else pure held) w)
        × Ensures (Accounted a k held w) ((if b then pure held else hold_element host held) w)
  element_or_nothing true a k held w = (hold_element_lem a k held w, hold_nothing a k held w)
  element_or_nothing false a k held w = (hold_nothing a k held w, hold_element_lem a k held w)

  module _ {S : Type 0} (platform : Platform S) where
    open platform use {
      kind, waitq_empty, event_test, fs_overlapped_event, smb_overlapped_waitq, is_darwin_file,
    }

    hold_lem :
        (a k : ℕ) (type : Kind) (h : ℕ) (s : S) (held : Held) (w : World (Unit {0}))
        → Ensures (Accounted a k held w) (hold platform host type h s held w)
    unfolding hold
    hold_lem a k wait_queue h s held w = (element_or_nothing (waitq_empty s h) a k held w).0
    hold_lem a k file h s held w =
        choose (is_darwin_file h) a k held w (hold_entry host held) (pure held)
          (hold_entry_lem a k held w) (hold_nothing a k held w)
    hold_lem a k socket h s held w = hold_entry_lem a k held w
    hold_lem a k fsdarwin_overlapped h s held w =
        (element_or_nothing (event_test s (fs_overlapped_event h)) a k held w).1
    hold_lem a k fssmb_overlapped h s held w =
        (element_or_nothing (waitq_empty s (smb_overlapped_waitq h)) a k held w).0
    hold_lem a k event h s held w = (element_or_nothing (event_test s h) a k held w).1
    hold_lem a k timer h s held w = hold_nothing a k held w
    hold_lem a k other_kind h s held w = hold_nothing a k held w

    hold_handles_lem :
        (a k : ℕ) (hs : List ℕ) (scan : Scan) (s : S) (held : Held) (w : World (Unit {0}))
        → Ensures (Accounted a k held w) (hold_handles platform host hs scan s held w)
    unfolding hold_handles
    hold_handles_lem a k [] scan s held w = hold_nothing a k held w
    hold_handles_lem a k (h ∷ hs) scan s held w =
        let r = visit platform (kind h) h scan s in
        let on : Ensures (Accounted a k held w)
            ((hold platform host (kind h) h s held >>= hold_handles platform host hs r.0 r.1) w) =
          continued (Accounted a k held w) (Accounted a k held w)
            (hold platform host (kind h) h s held) (hold_handles platform host hs r.0 r.1) w
            (hold_lem a k (kind h) h s held w)
            (λ held' w' now.
              weaker (hold_handles platform host hs r.0 r.1 held' w')
                (hold_handles_lem a k hs r.0 r.1 held' w')
                (λ held'' w'' later. sum_trans a k held w held' w' held'' w'' now later)) in
        grind (arith, on)

    -- From the loop on.
    looped :
        (a k set queue : ℕ) (hs : List ℕ) (s : S) (held : Held) (w : World (Unit {0}))
        → Ensures
            (λ done w'.
              (total (given a) w'.trace + total (given_back a) w.trace + held_at a held
                ≡ total (given a) w.trace + total (given_back a) w'.trace)
              × (total (lock_of k) w'.trace ≡ total (lock_of k) w.trace)
              × (total (unlock_of k) w'.trace
                  ≡ total (unlock_of k) w.trace + (if set == k then 1 else 0)))
            ((hold_handles platform host hs (start platform) s held >>= ended set queue) w)
    looped a k set queue hs s held w =
        continued (Accounted a k held w) _ (hold_handles platform host hs (start platform) s held)
          (ended set queue) w (hold_handles_lem a k hs (start platform) s held w)
          (λ held' w' (blocks, locks, unlocks).
            weaker (ended set queue held' w') (ended_lem a k set queue held' w')
              (λ done w'' (same, back, locks', unlocks'). (
                omega (arith, blocks, same, back),
                omega (arith, locks, locks'),
                omega (arith, unlocks, unlocks'),
              )))

    -- A wait ends, and gives back every block that it allocated, at the address where it was last, and
    -- the lock of the set, whatever handles the set has and whichever is ready. No allocation
    -- fails.
    pub storage-Balanced :
        (a k set : ℕ) (handles : List ℕ) (s : S) (w : World (Unit {0}))
        → Ensures (λ done w'. Balanced a k w w') (storage platform host set handles s w)
    unfolding storage
    storage-Balanced a k set handles s w =
        let answer : Call → List Event → List Event = λ c t. gave c (host.pointer t c) ∷ t in
        let locked = answer (Call.handle_lock set) w.trace in
        let queued = answer Call.queue_create locked in
        let first = answer Call.malloc queued in
        let held : Held = record {
          elements = [];
          fds = host.pointer queued Call.malloc;
          handles = host.pointer first Call.malloc;
        } in
        let on =
          looped a k set (host.pointer locked Call.queue_create) handles s held
            (record w { trace = answer Call.malloc first }) in
        grind (arith, on)
