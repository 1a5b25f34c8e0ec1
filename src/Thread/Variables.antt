-- ===== src/Thread/Variables.antt =====
-- The variables of a thread in src/thread_darwin.c, which are keys of the system.
use of_core_darwin.Base.{ℕ, ◌%◌, ◌^◌, ◌<◌, ◌≡◌, ◌≢◌, List, [], ◌∷◌, ◌==◌, if◌then◌else◌, arith}
use of_core_darwin.Host.{
  Call, Event, did, Host, World, M, Ensures, pure, ◌>>=◌, ◌>>◌, call, get_pointer,
}
use of_core_darwin.Thread.{DarwinThread}

module _ (host : Host) where
  -- `OFC_DWORD` has 32 bits, a key may have more.
  unfoldable pub create_variable : M DarwinThread ℕ
  create_variable = do key ← get_pointer host Call.key_create; pure (key % 2 ^ 32)

  unfoldable pub destroy_variable : ℕ → M DarwinThread (Unit {0})
  destroy_variable dkey = call (Call.key_delete dkey)

  unfoldable pub get_variable : ℕ → M DarwinThread ℕ
  get_variable var = get_pointer host (Call.getspecific var)

  unfoldable pub set_variable : ℕ → ℕ → M DarwinThread (Unit {0})
  set_variable var val = call (Call.setspecific var val)

-- The last value that a thread gave to a key, or NULL.
abbrev pub value_of : ℕ → List Event → ℕ
value_of key [] = 0
value_of key (did (Call.setspecific k val) ∷ es) = if k == key then val else value_of key es
value_of key (did _ ∷ es) = value_of key es
value_of key (_ ∷ es) = value_of key es

-- Two variables that are made while the system gives different keys of 32 bits keep their values apart:
-- each reads what was last given to it. The system answers with the last value of the key, as
-- `pthread_getspecific` promises.
pub get-set_variable :
    (host : Host) (w : World DarwinThread) (a b : ℕ)
    → ((trace : List Event) (key : ℕ)
        → host.pointer trace (Call.getspecific key) ≡ value_of key trace)
    → ((trace : List Event) → host.pointer trace Call.key_create < 2 ^ 32)
    → ((trace : List Event) (key : ℕ)
        → host.pointer (Event.gave Call.key_create key ∷ trace) Call.key_create ≢ key)
    → Ensures {X = ℕ × ℕ}
        (λ seen w'. (seen.0 ≡ a) × (seen.1 ≡ b))
        ((do
          x ← create_variable host
          y ← create_variable host
          set_variable host x a
          set_variable host y b
          first ← get_variable host x
          second ← get_variable host y
          pure (first, second))
          w)
unfolding create_variable get_variable set_variable
get-set_variable host w a b answers narrow fresh = grind arith
