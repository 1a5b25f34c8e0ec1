-- ===== src/Event.antt =====
-- src/event_darwin.c: an event object behind a handle, with a mutex and a condition variable.
pub mod Laws
pub mod Threads
pub mod Refine
mod Examples
use of_core_darwin.Base.{ℕ, Bool, true, false, ◌==◌, if◌then◌else◌}
use of_core_darwin.Host.{
  Call, HandleType, Host, M, pure, ◌>>=◌, ◌>>◌, call, load, fill, update, free_object, get_pointer,
}

-- `OFC_EVENT_TYPE`.
pub data EventType : Type 0 where
  auto manual : EventType

-- `DARWIN_EVENT`; its mutex and condition variable are known to the host by its address.
pub record DarwinEvent : Type 0 where
  pub event_type : EventType
  pub signalled : Bool

abbrev pub is_auto : EventType → Bool
is_auto auto = true
is_auto manual = false

-- What a wait does to the event when it ends.
unfoldable pub take : DarwinEvent → DarwinEvent
take e = if is_auto e.event_type then record e { signalled = false } else e

module _ (host : Host) where
  unfoldable pub create : EventType → M DarwinEvent ℕ
  create event_type = do
    p ← get_pointer host Call.malloc
    if p == 0 then pure 0 else do
      fill p (record { event_type = event_type; signalled = false })
      call (Call.cond_init p)
      call (Call.mutex_init p)
      get_pointer host (Call.handle_create HandleType.event_handle p)

  -- `ofc_waitset_signal_impl`, for an event that belongs to a wait set.
  abbrev pub signal_wait_set : ℕ → ℕ → M DarwinEvent (Unit {0})
  signal_wait_set set h = if set == 0 then pure tt else call (Call.waitset_signal set h)

  unfoldable pub set : ℕ → M DarwinEvent (Unit {0})
  set h = do
    p ← get_pointer host (Call.handle_lock h)
    if p == 0 then pure tt else do
      call (Call.mutex_lock p)
      update p (λ e. record e { signalled = true })
      call (Call.cond_broadcast p)
      wait_set ← get_pointer host (Call.handle_get_wait_set h)
      call (Call.handle_unlock h)
      signal_wait_set wait_set h
      call (Call.mutex_unlock p)

  unfoldable pub reset : ℕ → M DarwinEvent (Unit {0})
  reset h = do
    p ← get_pointer host (Call.handle_lock h)
    if p == 0 then pure tt else do
      call (Call.mutex_lock p)
      update p (λ e. record e { signalled = false })
      call (Call.mutex_unlock p)
      call (Call.handle_unlock h)

  unfoldable pub get_type : ℕ → M DarwinEvent EventType
  get_type h = do
    p ← get_pointer host (Call.handle_lock h)
    if p == 0 then pure auto else do e ← load p; call (Call.handle_unlock h); pure e.event_type

  unfoldable pub destroy : ℕ → M DarwinEvent (Unit {0})
  destroy h = do
    p ← get_pointer host (Call.handle_lock h)
    if p == 0 then pure tt else do
      load p
      call (Call.cond_destroy p)
      call (Call.mutex_destroy p)
      free_object p
      call (Call.handle_destroy h)
      call (Call.handle_unlock h)

  -- `pthread_cond_wait`: the mutex is free while the thread sleeps, and `others` is what the other
  -- threads do to the event in the meantime.
  abbrev pub cond_wait : (DarwinEvent → DarwinEvent) → ℕ → M DarwinEvent (Unit {0})
  cond_wait others p = do call (Call.cond_wait p); update p others

  abbrev pub sleep_unless : Bool → (DarwinEvent → DarwinEvent) → ℕ → M DarwinEvent (Unit {0})
  sleep_unless signalled others p = if signalled then pure tt else cond_wait others p

  unfoldable pub wait : (others : DarwinEvent → DarwinEvent) → ℕ → M DarwinEvent (Unit {0})
  unfolding take
  wait others h = do
    p ← get_pointer host (Call.handle_lock h)
    if p == 0 then pure tt else do
      call (Call.mutex_lock p)
      call (Call.handle_unlock h)
      e ← load p
      sleep_unless e.signalled others p
      update p take
      call (Call.mutex_unlock p)

  unfoldable pub test : ℕ → M DarwinEvent Bool
  test h = do
    p ← get_pointer host (Call.handle_lock h)
    if p == 0 then pure true else do
      call (Call.mutex_lock p)
      e ← load p
      call (Call.mutex_unlock p)
      call (Call.handle_unlock h)
      pure e.signalled
