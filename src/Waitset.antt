-- ===== src/Waitset.antt =====
-- src/waitset_darwin.c: what a wait set takes from the rest of the system.
pub mod Notify
pub mod Scan
pub mod Wait
pub mod Laws
pub mod Timers
pub mod Pipe
pub mod Outcome
pub mod Joining
pub mod Wakeup
pub mod Debug
pub mod Ends
pub mod Storage
mod Examples
use of_core_darwin.Base.{ℕ, Bool, Option, List}
use of_core_darwin.Base.Int.{ℤ}

-- `ofc_handle_get_type`; `other_kind` stands for the types that cannot be waited on.
pub data Kind : Type 0 where
  wait_queue file socket fsdarwin_overlapped fssmb_overlapped event timer other_kind : Kind

-- `EVENT_ELEMENT`: an event, and the handle that it speaks for.
pub record Element : Type 0 where
  pub event : ℕ
  pub assoc : ℕ

-- An entry of `darwin_handle_list`, with its entry of `ofc_handle_list`.
pub record PollFd : Type 0 where
  pub fd : ℤ
  pub events : ℕ
  pub handle : ℕ

-- Over a state `S` of the system: of_core's handles, queues, events and timers, the socket objects
-- of this library, the set's pipe and `poll`. `pending` is what the pipe holds, oldest first.
pub record Platform (S : Type 0) : Type 0 where
  pub kind : ℕ → Kind
  pub waitq_event : ℕ → ℕ
  pub waitq_empty : S → ℕ → Bool
  pub event_test : S → ℕ → Bool
  pub event_is_auto : S → ℕ → Bool
  pub event_reset : ℕ → S → S
  pub fs_overlapped_event : ℕ → ℕ
  pub smb_overlapped_waitq : ℕ → ℕ
  pub smb_overlapped_event : ℕ → ℕ
  pub is_darwin_file : ℕ → Bool
  pub file_fd : ℕ → ℤ
  pub socket_impl : ℕ → ℕ
  pub socket_fd : S → ℕ → ℤ
  pub socket_event : S → ℕ → ℕ
  pub set_socket_event : ℕ → ℕ → S → S
  pub timer_wait : S → ℕ → ℕ
  pub set_app : ℕ → ℕ → ℕ → S → S
  pub enqueue : List Element → Element → List Element
  pub max_sched_wait : ℕ
  pub pipe_in : ℤ
  pub pending : S → List ℕ
  pub read_pipe : S → Option ℕ × S
  -- Whether `ofc_handle_lock` finds the set of a handle.
  pub locks : S → ℕ → Bool
  -- The set's end of the pipe that a signal is written to.
  pub write_pipe : ℕ → S → S
  -- The count that `poll` returns, and `revents` by index.
  pub poll : S → List PollFd → ℕ → ℤ × (ℕ → ℕ) × S
