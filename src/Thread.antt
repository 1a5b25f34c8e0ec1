-- ===== src/Thread.antt =====
-- src/thread_darwin.c: a thread behind a handle, and who releases its object.
pub mod Laws
pub mod Sleep
pub mod Variables
pub mod Requests
mod Examples
use of_core_darwin.Base.{ℕ, Bool, true, false, not, ◌==◌, if◌then◌else◌}
use of_core_darwin.Base.Int.{ℤ, pos, eqb_ℤ}
use of_core_darwin.Host.{
  Call, HandleType, Host, M, pure, ◌>>=◌, ◌>>◌, call, load, fill, update, free_object, get_pointer,
  get_number,
}

-- `OFC_THREAD_DETACHSTATE`.
pub data DetachState : Type 0 where
  detached joined other_state : DetachState

abbrev pub is_detached : DetachState → Bool
is_detached detached = true
is_detached joined = false
is_detached other_state = false

abbrev pub is_joined : DetachState → Bool
is_joined detached = false
is_joined joined = true
is_joined other_state = false

-- `DARWIN_THREAD`. The system's thread is known by the object's address; what it runs is known to the
-- host by the handle.
pub record DarwinThread : Type 0 where
  pub ret : ℤ
  pub delete_me : Bool
  pub handle : ℕ
  pub detachstate : DetachState
  pub wait_set : ℕ
  pub notify : ℕ

module _ (host : Host) where
  abbrev pub set_notify : ℕ → M DarwinThread (Unit {0})
  set_notify notify = if notify == 0 then pure tt else call (Call.event_set notify)

  abbrev pub release : ℕ → ℕ → M DarwinThread (Unit {0})
  release p handle = do call (Call.handle_destroy handle); free_object p

  abbrev pub release_if : Bool → ℕ → ℕ → M DarwinThread (Unit {0})
  release_if detaches p handle =
      if detaches then (do call (Call.pthread_cancel p); release p handle) else pure tt

  -- What the new thread does; `others` is what other threads do to its object while its function runs.
  unfoldable pub launch : (others : DarwinThread → DarwinThread) → ℕ → M DarwinThread (Unit {0})
  launch others p = do
    t ← load p
    ret ← get_number host (Call.scheduler t.handle)
    update p (λ t. record (others t) { ret = ret })
    t ← load p
    set_notify t.notify
    release_if (is_detached t.detachstate) p t.handle

  -- The attribute that the thread is created with; `pthread_attr_init` is not traced.
  abbrev pub set_detach_attribute : DetachState → M DarwinThread (Unit {0})
  set_detach_attribute detached = call (Call.set_detachstate true)
  set_detach_attribute joined = call (Call.set_detachstate false)
  set_detach_attribute other_state = pure tt

  -- What the call of `ofc_thread_create_impl` that starts the thread has as its result.
  abbrev pub started : ℕ → ℕ → Bool → M DarwinThread ℕ
  started p handle true = do t ← load p; pure t.handle
  started p handle false = do release p handle; pure 0

  -- `meanwhile` is what the new thread does before its creator goes on.
  unfoldable pub create :
      (meanwhile : ℕ → M DarwinThread (Unit {0}))
      → DarwinThread
      → DetachState
      → ℕ
      → M DarwinThread ℕ
  create meanwhile memory detachstate notify = do
    p ← get_pointer host Call.malloc
    if p == 0 then pure 0 else do
      handle ← get_pointer host (Call.handle_create HandleType.thread_handle p)
      fill p (record {
        ret = memory.ret;
        delete_me = false;
        handle = handle;
        detachstate = detachstate;
        wait_set = 0;
        notify = notify;
      })
      set_detach_attribute detachstate
      status ← get_number host (Call.pthread_create p)
      if eqb_ℤ status (pos 0) then meanwhile p else pure tt
      started p handle (eqb_ℤ status (pos 0))

  unfoldable pub set_waitset : ℕ → ℕ → M DarwinThread (Unit {0})
  set_waitset h wait_set = do
    p ← get_pointer host (Call.handle_lock h)
    if p == 0
        then pure tt
        else do update p (λ t. record t { wait_set = wait_set }); call (Call.handle_unlock h)

  abbrev pub wake_set : ℕ → M DarwinThread (Unit {0})
  wake_set wait_set = if wait_set == 0 then pure tt else call (Call.waitset_wake wait_set)

  unfoldable pub delete : ℕ → M DarwinThread (Unit {0})
  delete h = do
    p ← get_pointer host (Call.handle_lock h)
    if p == 0 then pure tt else do
      update p (λ t. record t { delete_me = true })
      t ← load p
      wake_set t.wait_set
      call (Call.handle_unlock h)

  abbrev pub join_if : Bool → ℕ → ℕ → M DarwinThread (Unit {0})
  join_if joins p handle =
      if joins then (do call (Call.pthread_join p); release p handle) else pure tt

  unfoldable pub wait : ℕ → M DarwinThread (Unit {0})
  wait h = do
    p ← get_pointer host (Call.handle_lock h)
    if p == 0 then pure tt else do
      t ← load p
      join_if (is_joined t.detachstate) p t.handle
      call (Call.handle_unlock h)

  unfoldable pub is_deleting : ℕ → M DarwinThread Bool
  is_deleting h = do
    p ← get_pointer host (Call.handle_lock h)
    if p == 0 then pure false else do t ← load p; call (Call.handle_unlock h); pure t.delete_me

  unfoldable pub detach : ℕ → M DarwinThread (Unit {0})
  detach h = do
    p ← get_pointer host (Call.handle_lock h)
    if p == 0 then pure tt else do
      update p (λ t. record t { detachstate = detached })
      call (Call.pthread_detach p)
      call (Call.handle_unlock h)
