-- ===== src/Lock.antt =====
-- src/lock_darwin.c: a recursive mutex in memory of its own. A lock is known by its address, which is
-- also that of its mutex and of its attributes.
pub mod Laws
use of_core_darwin.Base.{ℕ, Bool, true, false, ◌==◌}
use of_core_darwin.Base.Int.{ℤ, pos, eqb_ℤ}
use of_core_darwin.Host.{Call, Host, M, pure, ◌>>=◌, ◌>>◌, call, touch, get_pointer, get_number}

-- No field of a lock is read, so no object is in the table.
abbrev pub P : Type 0 → Type 0
P X = M (Unit {0}) X

module _ (host : Host) where
  unfoldable pub destroy : ℕ → P (Unit {0})
  destroy lock = do
    touch lock
    call (Call.mutex_destroy lock)
    call (Call.mutexattr_destroy lock)
    call (Call.free lock)

  unfoldable pub init : P ℕ
  init = do
    lock ← get_pointer host Call.malloc
    touch lock
    call (Call.mutexattr_init lock)
    call (Call.mutexattr_recursive lock)
    call (Call.mutex_init lock)
    pure lock

  unfoldable pub try : ℕ → P Bool
  try lock = do
    touch lock
    status ← get_number host (Call.mutex_trylock lock)
    pure (eqb_ℤ status (pos 0))

  unfoldable pub lock : ℕ → P (Unit {0})
  lock p = do touch p; call (Call.mutex_lock p)

  unfoldable pub unlock : ℕ → P (Unit {0})
  unlock p = do touch p; call (Call.mutex_unlock p)
