-- ===== src/Process.antt =====
-- src/process_darwin.c: processes that are started, signalled and ended. A program is what one process
-- does: `fork` returns 0 in the run of a child, and the child's id in the run of its parent.
pub mod Exec
pub mod Signals
mod Examples
use of_core_darwin.Base.{
  ℕ, zero, suc, Bool, true, false, not, Option, none, some, List, [], ◌∷◌, ◌==◌, if◌then◌else◌,
}
use of_core_darwin.Base.Int.{ℤ, pos, negsuc, ltb_ℤ, eqb_ℤ, to_int}
use of_core_darwin.Host.{
  Call, HandleType, Host, M, pure, ◌>>=◌, ◌>>◌, call, touch, get_pointer, get_number,
}

-- How a program of a process ends: it returns, or the process exits, aborts, or runs another program.
pub data Finish : Type 0 where
  returned : ℕ → Finish
  exited : ℕ → Finish
  aborted replaced : Finish

-- No object of these functions is in the table of objects.
abbrev pub P : Type 0 → Type 0
P X = M (Unit {0}) X

abbrev pub sigterm : ℤ
sigterm = pos 15

abbrev pub ex_ok : ℕ
ex_ok = 0

-- The loop that fills `exec_argv`; `none` is a read past the end of `argv`.
unfoldable pub copy_argv : ℕ → List ℕ → Option (List ℕ)
copy_argv zero argv = some (0 ∷ [])
copy_argv (suc argc) [] = none
copy_argv (suc argc) (a ∷ argv) = elim (copy_argv argc argv) [
  | none ↦ none
  | some copy ↦ some (a ∷ copy)
]

-- `struct passwd`.
pub record Passwd : Type 0 where
  pub pw_uid : ℕ
  pub pw_gid : ℕ

module _ (host : Host) where
  unfoldable pub get : P ℤ
  get = get_number host Call.getpid

  unfoldable pub block_signal : ℤ → P (Unit {0})
  block_signal signal = call (Call.sigmask true signal)

  unfoldable pub unblock_signal : ℤ → P (Unit {0})
  unblock_signal signal = call (Call.sigmask false signal)

  unfoldable pub term_trap : ℕ → P Bool
  term_trap trap = do
    status ← get_number host (Call.sigaction sigterm trap)
    pure (eqb_ℤ status (pos 0))

  -- `ofc_process_crash_impl`, which `ofc_process_crash` of of_core calls.
  unfoldable pub crash : P Finish
  crash = do call Call.write_console; pure aborted

  -- The original process: `memory` is what its own variable `pid2` holds.
  unfoldable pub original : (invalid_handle memory : ℕ) → ℕ → ℕ → ℕ → ℤ → P Finish
  original invalid_handle memory block cname cuname pid = do
    status ← get_number host (Call.waitpid pid)
    process ←
        if eqb_ℤ status (pos ex_ok)
        then get_pointer host (Call.handle_create HandleType.process_handle memory)
        else pure invalid_handle
    call (Call.free block)
    call (Call.free cuname)
    call (Call.free cname)
    pure (returned process)

  abbrev pub argv_copy : ℕ → List ℕ → P (List ℕ)
  argv_copy argc argv = λ w. elim (copy_argv argc argv) [ none ↦ none | some copy ↦ some (copy, w) ]

  -- `passwd` is what stands where `getpwnam` points.
  module _ (passwd : ℕ → Passwd) where
    abbrev pub become : ℕ → P (Unit {0})
    become user = if user == 0 then pure tt else do
      get_number host (Call.setgid (passwd user).pw_gid)
      get_number host (Call.setuid (passwd user).pw_uid)
      pure tt

    abbrev pub become_named : ℕ → P (Unit {0})
    become_named cuname =
        if cuname == 0
        then pure tt
        else do user ← get_pointer host (Call.getpwnam cuname); become user

    -- A result that is not negative is an `execve` that did not return.
    unfoldable pub daemon : ℕ → ℕ → List ℕ → P Finish
    unfolding crash
    daemon cname cuname exec_argv = do
      become_named cuname
      ret3 ← get_number host (Call.execve cname exec_argv)
      if ltb_ℤ ret3 (pos 0) then crash else pure replaced

    unfoldable pub first_child : ℕ → ℕ → List ℕ → P Finish
    unfolding crash daemon
    first_child cname cuname exec_argv = do
      pid2 ← get_number host Call.fork
      if ltb_ℤ pid2 (pos 0)
          then crash
          else if eqb_ℤ pid2 (pos 0)
          then daemon cname cuname exec_argv
          else pure (exited ex_ok)

    unfoldable pub exec : (invalid_handle memory : ℕ) → ℕ → ℕ → ℕ → List ℕ → P Finish
    unfolding copy_argv crash first_child original
    exec invalid_handle memory name uname argc argv = do
      cname ← get_pointer host (Call.tstr2cstr name)
      cuname ← get_pointer host (Call.tstr2cstr uname)
      block ← get_pointer host Call.malloc
      touch block
      exec_argv ← argv_copy argc argv
      pid ← get_number host Call.fork
      if ltb_ℤ pid (pos 0)
          then crash
          else if eqb_ℤ pid (pos 0)
          then first_child cname cuname exec_argv
          else original invalid_handle memory block cname cuname pid

  -- The id of a process, of C's type `int`, stands in the handle in place of an address.
  unfoldable pub get_id : ℕ → P ℤ
  get_id h = do
    p ← get_pointer host (Call.handle_lock h)
    if eqb_ℤ (to_int p) (pos 0)
        then pure (to_int p)
        else do call (Call.handle_unlock h); pure (to_int p)

  unfoldable pub term : ℕ → P (Unit {0})
  term h = do
    p ← get_pointer host (Call.handle_lock h)
    call (Call.kill (to_int p) sigterm)
    call (Call.handle_destroy h)
    call (Call.handle_unlock h)

  unfoldable pub kill : ℤ → P (Unit {0})
  kill pid = call (Call.kill pid sigterm)

unfoldable pub relative_addr : ℕ → ℕ
relative_addr addr = addr
