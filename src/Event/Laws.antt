-- ===== src/Event/Laws.antt =====
-- What the operations on an event promise one another.
use of_core_darwin.Base.{
  ℕ, suc, ◌+◌, ◌≡◌, ◌≢◌, true, false, not, Option, some, none, List, ◌==◌, if◌then◌else◌, arith,
}
use of_core_darwin.Host.{Call, Event, did, Host, World, M, Ensures, pure, ◌>>◌}
use of_core_darwin.Host.Counts.{LocksKept, total}
use of_core_darwin.Event.{
  EventType, is_auto, DarwinEvent, create, set, reset, get_type, destroy, wait, test,
}

-- Every operation as one request.
pub data Request : Type 0 where
  creates : EventType → Request
  sets resets gets_type destroys tests : ℕ → Request
  waits : (DarwinEvent → DarwinEvent) → ℕ → Request

abbrev pub serve : Host → Request → M DarwinEvent (Unit {0})
serve host (creates event_type) = do create host event_type; pure tt
serve host (sets h) = set host h
serve host (resets h) = reset host h
serve host (gets_type h) = do get_type host h; pure tt
serve host (destroys h) = destroy host h
serve host (tests h) = do test host h; pure tt
serve host (waits others h) = wait host others h

abbrev pub mutex_locks : ℕ → Event → ℕ
mutex_locks p (did (Call.mutex_lock q)) = if q == p then 1 else 0
mutex_locks p _ = 0

abbrev pub mutex_unlocks : ℕ → Event → ℕ
mutex_unlocks p (did (Call.mutex_unlock q)) = if q == p then 1 else 0
mutex_unlocks p _ = 0

-- An operation that returns has given back the handle locks and the mutexes that it took.
pub serve-LocksBalanced :
    (host : Host) (k m : ℕ) (w w' : World DarwinEvent) (r : Request)
    → serve host r w ≡ some (tt, w')
    → LocksKept k w w'
      × (total (mutex_locks m) w'.trace + total (mutex_unlocks m) w.trace
          ≡ total (mutex_locks m) w.trace + total (mutex_unlocks m) w'.trace)
unfolding create set reset get_type destroy wait test
serve-LocksBalanced host k m w w' (creates event_type) e = ground arith
serve-LocksBalanced host k m w w' (sets h) e = ground arith
serve-LocksBalanced host k m w w' (resets h) e = ground arith
serve-LocksBalanced host k m w w' (gets_type h) e = ground arith
serve-LocksBalanced host k m w w' (destroys h) e = ground arith
serve-LocksBalanced host k m w w' (tests h) e = ground arith
serve-LocksBalanced host k m w w' (waits others h) e = ground arith

-- The handle of a request.
abbrev pub target : Request → Option ℕ
target (creates event_type) = none
target (sets h) = some h
target (resets h) = some h
target (gets_type h) = some h
target (destroys h) = some h
target (tests h) = some h
target (waits others h) = some h

-- Every operation but `create` ends, whatever the callees answer, if its handle resolves to an event
-- that is there; a wait among them, whatever the other threads do to the event.
pub serve_completes :
    (host : Host) (w : World DarwinEvent) (r : Request) (h : ℕ) (e : DarwinEvent)
    → target r ≡ some h
    → w.object (host.pointer w.trace (Call.handle_lock h)) ≡ some e
    → Ensures (λ reply w'. Unit {0}) (serve host r w)
unfolding create set reset get_type destroy wait test
serve_completes host w (creates event_type) h' e t here = grind arith
serve_completes host w (sets h) h' e t here = grind arith
serve_completes host w (resets h) h' e t here = grind arith
serve_completes host w (gets_type h) h' e t here = grind arith
serve_completes host w (destroys h) h' e t here = grind arith
serve_completes host w (tests h) h' e t here = grind arith
serve_completes host w (waits others h) h' e t here = grind arith

abbrev pub Live : Host → ℕ → ℕ → Type 0
Live host h p = ((trace : List Event) → host.pointer trace (Call.handle_lock h) ≡ p) × (p ≢ 0)

abbrev pub signals : ℕ → ℕ → Event → ℕ
signals s h (did (Call.waitset_signal t g)) = if t == s then (if g == h then 1 else 0) else 0
signals s h _ = 0

abbrev pub sleeps : ℕ → Event → ℕ
sleeps p (did (Call.cond_wait q)) = if q == p then 1 else 0
sleeps p _ = 0

module _ (host : Host) (h p : ℕ) (live : Live host h p) (w : World DarwinEvent) (e : DarwinEvent)
    (here : w.object p ≡ some e) where
  -- On a live handle, an event that was set tests as signalled, whatever it was before.
  pub test-set : Ensures (λ seen w'. seen ≡ true) ((do set host h; test host h) w)
  unfolding set test
  test-set = grind arith

  -- On a live handle, an event that was reset tests as not signalled, whatever it was before.
  pub test-reset : Ensures (λ seen w'. seen ≡ false) ((do reset host h; test host h) w)
  unfolding reset test
  test-reset = grind arith

  -- On a live handle that belongs to a wait set, setting the event ends and passes it on to the set
  -- exactly once.
  pub set-signals :
      (s : ℕ)
      → s ≢ 0
      → ((trace : List Event) → host.pointer trace (Call.handle_get_wait_set h) ≡ s)
      → Ensures
          (λ _ w'. total (signals s h) w'.trace ≡ suc (total (signals s h) w.trace))
          (set host h w)
  unfolding set
  set-signals s ne member = grind arith

  -- On a live handle, a wait on a signalled event ends and does not sleep; it takes the signal of an automatic event and leaves
  -- that of a manual one.
  pub wait_signalled :
      (others : DarwinEvent → DarwinEvent)
      → e.signalled ≡ true
      → Ensures
          (λ _ w'.
            (total (sleeps p) w'.trace ≡ total (sleeps p) w.trace)
            × (w'.object p ≡ some (record e { signalled = not (is_auto e.event_type) })))
          (wait host others h w)
  unfolding wait
  wait_signalled others on = grind arith

  -- On a live handle, a wait on an event that is not signalled sleeps once, and takes the event as the others left it
  -- without looking at its signal again.
  pub wait-sleeps :
      (others : DarwinEvent → DarwinEvent)
      → e.signalled ≡ false
      → Ensures
          (λ _ w'.
            (total (sleeps p) w'.trace ≡ suc (total (sleeps p) w.trace))
            × (w'.object p
                ≡ some (record (others e) {
                  signalled = if is_auto (others e).event_type then false else (others e).signalled;
                })))
          (wait host others h w)
  unfolding wait
  wait-sleeps others off = grind arith
