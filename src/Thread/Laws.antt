-- ===== src/Thread/Laws.antt =====
-- Who releases the object of a thread, and what its deletion tells it.
use of_core_darwin.Base.{ℕ, suc, ◌≡◌, ◌≢◌, true, some, none, List, ◌==◌, if◌then◌else◌, arith}
use of_core_darwin.Base.Int.{pos}
use of_core_darwin.Host.{Call, Event, did, Host, World, Ensures, ◌>>◌}
use of_core_darwin.Host.Counts.{total}
use of_core_darwin.Thread.{
  detached, joined, DarwinThread, launch, create, set_waitset, delete, wait, is_deleting,
}

abbrev pub frees : ℕ → Event → ℕ
frees p (did (Call.free q)) = if q == p then 1 else 0
frees p _ = 0

abbrev pub joins : ℕ → Event → ℕ
joins p (did (Call.pthread_join q)) = if q == p then 1 else 0
joins p _ = 0

abbrev pub wakes : ℕ → Event → ℕ
wakes s (did (Call.waitset_wake q)) = if q == s then 1 else 0
wakes s _ = 0

-- The object was released, once more than before.
abbrev pub Released : ℕ → World DarwinThread → World DarwinThread → Type 0
Released p w w' = (w'.object p ≡ none) × (total (frees p) w'.trace ≡ suc (total (frees p) w.trace))

module _ (host : Host) (p : ℕ) (ne : p ≢ 0) (w : World DarwinThread) (t : DarwinThread)
    (here : w.object p ≡ some t) where
  -- A detached thread releases its own object when its function ends, exactly once, if nothing that
  -- other threads do meanwhile changes how it was detached.
  pub launch-Released :
      (others : DarwinThread → DarwinThread)
      → t.detachstate ≡ detached
      → (others t).detachstate ≡ t.detachstate
      → Ensures (λ done w'. Released p w w') (launch host others p w)
  unfolding launch
  launch-Released others own kept = grind arith

  -- A thread to be joined leaves its object to the wait for it: when its function has ended and it has
  -- been waited for, through a live handle, it was joined once and its object released once, if
  -- nothing that other threads do meanwhile changes how it was detached.
  pub launch-wait-Released :
      (h : ℕ) (others : DarwinThread → DarwinThread)
      → ((trace : List Event) → host.pointer trace (Call.handle_lock h) ≡ p)
      → t.detachstate ≡ joined
      → (others t).detachstate ≡ t.detachstate
      → Ensures
          (λ done w'. (total (joins p) w'.trace ≡ suc (total (joins p) w.trace)) × Released p w w')
          ((do launch host others p; wait host h) w)
  unfolding launch wait
  launch-wait-Released h others live own kept = grind arith

  -- After a thread was deleted through a live handle it reads that it is to end, and the wait set that
  -- was given to it, if any, was woken exactly once.
  pub delete-is_deleting :
      (h s : ℕ)
      → s ≢ 0
      → ((trace : List Event) → host.pointer trace (Call.handle_lock h) ≡ p)
      → Ensures
          (λ seen w'. (seen ≡ true) × (total (wakes s) w'.trace ≡ suc (total (wakes s) w.trace)))
          ((do set_waitset host h s; delete host h; is_deleting host h) w)
  unfolding set_waitset delete is_deleting
  delete-is_deleting h s nz live = grind arith

-- `ofc_thread_create_impl` reads the object of a detached thread after it was started: if the thread
-- has ended by then, the object is gone and the read is a fault. No allocation or start fails here.
pub create_fault :
    (host : Host) (memory : DarwinThread) (notify : ℕ) (w : World DarwinThread)
    → ((trace : List Event) → host.pointer trace Call.malloc ≢ 0)
    → ((trace : List Event) (p : ℕ) → host.number trace (Call.pthread_create p) ≡ pos 0)
    → create host (launch host (λ t. t)) memory detached notify w ≡ none
unfolding create launch
create_fault host memory notify w room starts = grind arith
