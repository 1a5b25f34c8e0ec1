-- ===== src/Process/Exec.antt =====
-- What starting a process leaves in each of the three processes that run it.
use of_core_darwin.Base.{
  ℕ, zero, suc, ◌+◌, ◌≤◌, ◌≡◌, ◌≢◌, refl, true, false, ◌⊎◌, some, List, [], ◌∷◌, ◌==◌,
  if◌then◌else◌, arith, length,
}
use of_core_darwin.Base.Int.{ℤ, pos, negsuc, ltb_ℤ}
use of_core_darwin.Host.{
  Call, process_handle, Event, gave, returned as event_returned, did, Host, World, Ensures,
}
use of_core_darwin.Host.Counts.{total}
use of_core_darwin.Process.{
  Finish, Passwd, returned, exited, aborted, replaced, copy_argv, crash, daemon, first_child,
  original, exec,
}

-- The handle `h`, made for a process with the id `id`.
abbrev pub made_for : ℕ → ℕ → Event → ℕ
made_for id h (gave (Call.handle_create process_handle p) g) =
    if p == id then (if g == h then 1 else 0) else 0
made_for id h _ = 0

-- Memory given at an address, by `ofc_malloc` or as a C string, and given back there.
abbrev pub blocks_at : ℕ → Event → ℕ
blocks_at a (gave Call.malloc p) = if p == a then 1 else 0
blocks_at a (gave (Call.tstr2cstr s) p) = if p == a then 1 else 0
blocks_at a _ = 0

abbrev pub frees_at : ℕ → Event → ℕ
frees_at a (did (Call.free p)) = if p == a then 1 else 0
frees_at a _ = 0

-- What the original process comes to: it returns, at every address as much memory is given
-- back as was given there, and the handle, if there
-- is one, was made for the id `memory` and for no other.
abbrev pub Started : ℕ → ℕ → World (Unit {0}) → Finish → World (Unit {0}) → Type 0
Started invalid_handle memory w (returned process) w' =
    ((a : ℕ)
      → total (frees_at a) w'.trace + total (blocks_at a) w.trace
        ≡ total (frees_at a) w.trace + total (blocks_at a) w'.trace)
    × ((process ≡ invalid_handle)
        ⊎ (total (made_for memory process) w'.trace
            ≡ suc (total (made_for memory process) w.trace)))
    × ((id : ℕ)
        → id ≢ memory
        → total (made_for id process) w'.trace ≡ total (made_for id process) w.trace)
Started invalid_handle memory w (exited code) w' = ⊥
Started invalid_handle memory w aborted w' = ⊥
Started invalid_handle memory w replaced w' = ⊥

copy_argv_lem :
    (argc : ℕ) (argv : List ℕ)
    → argc ≤ length argv
    → (copy : List ℕ) × (copy_argv argc argv ≡ some copy) × (length copy ≡ argc + 1)
unfolding copy_argv
copy_argv_lem zero argv fits = (0 ∷ [], refl, omega arith)
copy_argv_lem (suc argc) [] fits = absurd (omega arith)
copy_argv_lem (suc argc) (a ∷ argv) fits =
    let (copy, e, size) = copy_argv_lem argc argv (omega arith) in
    (a ∷ copy, rw e refl, omega (arith, size))

-- The answer to the first `fork`, which follows three calls for memory.
abbrev pub forked : Host → ℕ → ℕ → List Event → ℤ
forked host name uname trace =
    let named = gave (Call.tstr2cstr name) (host.pointer trace (Call.tstr2cstr name)) ∷ trace in
    let for_user =
      gave (Call.tstr2cstr uname) (host.pointer named (Call.tstr2cstr uname)) ∷ named in
    host.number (gave Call.malloc (host.pointer for_user Call.malloc) ∷ for_user) Call.fork

abbrev pub NotReturned : Finish → Type 0
NotReturned (returned process) = ⊥
NotReturned (exited code) = Unit {0}
NotReturned aborted = Unit {0}
NotReturned replaced = Unit {0}

-- What becomes of a process, by what the first `fork` gave it: a failure, the place of the child, or the
-- id of the child.
abbrev pub Branch : ℤ → ℕ → ℕ → World (Unit {0}) → Finish → World (Unit {0}) → Type 0
Branch (negsuc n) invalid_handle memory w f w' = f ≡ aborted
Branch (pos zero) invalid_handle memory w f w' = NotReturned f
Branch (pos (suc n)) invalid_handle memory w f w' = Started invalid_handle memory w f w'

module _ (host : Host) (passwd : ℕ → Passwd) (w : World (Unit {0}))
    (invalid_handle memory name uname argc : ℕ) (argv : List ℕ)
    (room : (trace : List Event) → host.pointer trace Call.malloc ≢ 0)
    (fits : argc ≤ length argv) where
  exec_role :
      (pid : ℤ)
      → forked host name uname w.trace ≡ pid
      → Ensures
          (Branch pid invalid_handle memory w)
          (exec host passwd invalid_handle memory name uname argc argv w)
  unfolding exec original first_child daemon crash
  exec_role (negsuc n) answer =
      let (copy, e, size) = copy_argv_lem argc argv fits in grind (arith, e)
  exec_role (pos zero) answer =
      let (copy, e, size) = copy_argv_lem argc argv fits in grind (arith, e)
  exec_role (pos (suc n)) answer =
      let (copy, e, size) = copy_argv_lem argc argv fits in grind (arith, e)

  -- `ofc_process_exec_impl` ends, and returns only in the process that called it: the children exit, abort,
  -- or run the program, and when the first `fork` fails it aborts. The original process gives back all
  -- its memory, each block at its own address; but the handle it returns, if a handle, stands for what its variable `pid2`
  -- held before, since only the child assigns that variable. No allocation fails here, and `argv` has
  -- `argc` entries.
  pub exec-Started :
      Ensures
        (Branch (forked host name uname w.trace) invalid_handle memory w)
        (exec host passwd invalid_handle memory name uname argc argv w)
  exec-Started = exec_role (forked host name uname w.trace) refl

-- The calls of a daemon for a user that the system knows, newest first: `setgid` and then `setuid`, with
-- the group and the id of that user.
abbrev pub as_user : Host → ℕ → Passwd → ℕ → List Event → List Event
as_user host cuname entry user trace =
    let answer : Call → List Event → List Event = λ c t. event_returned c (host.number t c) ∷ t in
    answer (Call.setuid entry.pw_uid)
      (answer (Call.setgid entry.pw_gid) (gave (Call.getpwnam cuname) user ∷ trace))

-- Given the name of a user that the system knows, the daemon takes the group and then the id of
-- that user and calls `execve`: it becomes the program unless `execve` fails, and aborts if it does. What
-- `setgid` and `setuid` return makes no difference: it also runs the program when both fail.
pub daemon-as_user :
    (host : Host) (passwd : ℕ → Passwd) (w : World (Unit {0})) (cname cuname user : ℕ)
    (exec_argv : List ℕ)
    → cuname ≢ 0
    → user ≢ 0
    → ((trace : List Event) → host.pointer trace (Call.getpwnam cuname) ≡ user)
    → let calls = as_user host cuname (passwd user) user w.trace in
      let execs = Call.execve cname exec_argv in
      let ret3 = host.number calls execs in
      Ensures
        (λ f w'.
          (ltb_ℤ ret3 (pos 0) ≡ false
            → (f ≡ replaced) × (w'.trace ≡ event_returned execs ret3 ∷ calls))
          × (ltb_ℤ ret3 (pos 0) ≡ true
              → (f ≡ aborted)
                × (w'.trace ≡ did Call.write_console ∷ event_returned execs ret3 ∷ calls)))
        (daemon host passwd cname cuname exec_argv w)
unfolding daemon crash
daemon-as_user host passwd w cname cuname user exec_argv named known found = grind arith
