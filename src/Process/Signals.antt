-- ===== src/Process/Signals.antt =====
-- Processes behind handles: their ids, and their end.
use of_core_darwin.Base.{ℕ, suc, ◌^◌, ◌<◌, ◌≡◌, ◌≢◌, some, List, ◌∷◌, if◌then◌else◌, arith}
use of_core_darwin.Base.Int.{ℤ, pos, eqb_ℤ}
use of_core_darwin.Host.{Call, Event, gave, did, Host, World, Ensures, pure, ◌>>=◌, ◌>>◌}
use of_core_darwin.Host.Counts.{total, LocksKept}
use of_core_darwin.Process.{get_id, term, sigterm}

abbrev pub kills : ℤ → Event → ℕ
kills pid (did (Call.kill p s)) = if eqb_ℤ p pid then (if eqb_ℤ s sigterm then 1 else 0) else 0
kills pid _ = 0

module _ (host : Host) (h : ℕ) (w : World (Unit {0})) where
  -- Through a handle that stands for the process `pid`, which fits an `int`, the id that is read is `pid`, one signal goes to
  -- that process and to no other, and the locks taken are given back.
  pub term-get_id :
      (pid : ℕ)
      → pid ≢ 0
      → pid < 2 ^ 31
      → ((trace : List Event) → host.pointer trace (Call.handle_lock h) ≡ pid)
      → Ensures
          (λ id w'.
            (id ≡ pos pid)
            × LocksKept h w w'
            × (total (kills (pos pid)) w'.trace ≡ suc (total (kills (pos pid)) w.trace))
            × ((q : ℤ) → q ≢ pos pid → total (kills q) w'.trace ≡ total (kills q) w.trace))
          ((do id ← get_id host h; term host h; pure id) w)
  unfolding get_id term
  term-get_id pid ne small live = grind arith

  -- On a handle that does not resolve, ending the process sends the signal to process 0, which is every
  -- process of the caller's own group, and unlocks a handle that was not locked; reading the id
  -- gives 0 and does nothing more.
  pub term_group :
      ((trace : List Event) → host.pointer trace (Call.handle_lock h) ≡ 0)
      → Ensures
          (λ done w'.
            (total (kills (pos 0)) w'.trace ≡ suc (total (kills (pos 0)) w.trace))
            × (¬ LocksKept h w w'))
          (term host h w)
        × (get_id host h w
            ≡ some (pos 0, record w { trace = gave (Call.handle_lock h) 0 ∷ w.trace }))
  unfolding get_id term
  term_group dead = grind arith
