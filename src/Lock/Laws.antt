-- ===== src/Lock/Laws.antt =====
-- How a lock is used from its making to its end.
use of_core_darwin.Base.{ℕ, ◌+◌, ◌≡◌, ◌≢◌, some, List, ◌∷◌, ◌==◌, if◌then◌else◌, arith}
use of_core_darwin.Base.Int.{pos}
use of_core_darwin.Host.{Call, Event, gave, returned, did, Host, World, Ensures, pure, ◌>>=◌, ◌>>◌}
use of_core_darwin.Host.Counts.{total}
use of_core_darwin.Lock.{P, destroy, init, try, lock, unlock}

-- Times that a mutex was taken, by waiting or by trying, and given back.
abbrev pub taken : ℕ → Event → ℕ
taken p (did (Call.mutex_lock q)) = if q == p then 1 else 0
taken p (returned (Call.mutex_trylock q) (pos n)) = if q == p then (if n == 0 then 1 else 0) else 0
taken p _ = 0

abbrev pub given_back : ℕ → Event → ℕ
given_back p (did (Call.mutex_unlock q)) = if q == p then 1 else 0
given_back p _ = 0

-- A client that tries the lock, and gives it back exactly if it was told that it has it.
abbrev pub try_once : Host → ℕ → P (Unit {0})
try_once host p = do got ← try host p; if got then unlock host p else pure tt

-- A lock that was made, taken, tried and given back, and is destroyed, was given back as often as it was
-- taken, whether or not the attempt got it; its type is set between the making of its attributes and
-- of its mutex; and its mutex, its attributes and its memory are given up in this order, each once.
-- No allocation fails.
pub init-destroy :
    (host : Host) (w : World (Unit {0}))
    → ((trace : List Event) → host.pointer trace Call.malloc ≢ 0)
    → let p = host.pointer w.trace Call.malloc in
      let made =
        did (Call.mutex_init p)
        ∷ did (Call.mutexattr_recursive p)
        ∷ did (Call.mutexattr_init p)
        ∷ gave Call.malloc p
        ∷ w.trace in
      let gone : List Event → List Event = λ trace.
        did (Call.free p) ∷ did (Call.mutexattr_destroy p) ∷ did (Call.mutex_destroy p) ∷ trace in
      Ensures {X = List Event × List Event}
        (λ between w'.
          (between.0 ≡ made)
          × (w'.trace ≡ gone between.1)
          × (total (taken p) between.1 + total (given_back p) made
              ≡ total (taken p) made + total (given_back p) between.1))
        ((do
          q ← init host
          before ← (λ v. some (v.trace, v))
          lock host q
          try_once host q
          unlock host q
          after ← (λ v. some (v.trace, v))
          destroy host q
          pure (before, after))
          w)
unfolding init destroy try lock unlock
init-destroy host w room = grind arith
