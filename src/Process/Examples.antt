-- ===== src/Process/Examples.antt =====
-- A process 41 behind handle 7, and a child with the id 43.
use of_core_darwin.Base.{
  ℕ, ◌≡◌, refl, true, false, none, some, List, [], ◌∷◌, ◌==◌, if◌then◌else◌, arith,
}
use of_core_darwin.Base.Int.{ℤ, pos}
use of_core_darwin.Host.{Call, inet, Event, returned, did, gave, Host, World, Ensures}
use of_core_darwin.Host.Counts.{total, LocksKept}
use of_core_darwin.Process.{Passwd, aborted, replaced, daemon, exec, get_id, term}
use of_core_darwin.Process.Exec.{Started, exec-Started, daemon-as_user}
use of_core_darwin.Process.Signals.{kills, term_group}

abbrev pointer_of : Call → ℕ
pointer_of (Call.handle_lock h) = if h == 7 then 41 else 0
pointer_of (Call.handle_create type p) = 9
pointer_of (Call.getpwnam user) = 500
pointer_of _ = 100

abbrev number_of : Call → ℤ
number_of Call.fork = pos 43
number_of (Call.execve path argv) = pos 0
number_of _ = pos 0

abbrev host : Host
host = record {
  pointer = λ trace c. pointer_of c;
  number = λ trace c. number_of c;
  errno = λ trace. pos 0;
  sockaddr = λ trace. record { family = inet; port = []; addr = []; addr6 = []; scope = 0 };
  bytes = λ trace. [];
}

abbrev world : World (Unit {0})
world = record { object = λ p. none; trace = [] }

abbrev passwd : ℕ → Passwd
passwd user = record { pw_uid = 501; pw_gid = 20 }

exec-Started_example :
    Ensures (Started 0 77 world) (exec host passwd 0 77 200 0 2 (300 ∷ 301 ∷ []) world)
exec-Started_example =
    exec-Started host passwd world 0 77 200 0 2 (300 ∷ 301 ∷ []) (λ trace e. omega arith)
      (omega arith)

abbrev user_calls : List Event
user_calls =
    returned (Call.setuid 501) (pos 0)
    ∷ returned (Call.setgid 20) (pos 0)
    ∷ gave (Call.getpwnam 201) 500
    ∷ []

daemon-as_user_example :
    Ensures
      (λ f w'.
        (false ≡ false
          → (f ≡ replaced)
            × (w'.trace ≡ returned (Call.execve 200 (300 ∷ [])) (pos 0) ∷ user_calls))
        × (false ≡ true
            → (f ≡ aborted)
              × (w'.trace
                  ≡ did Call.write_console
                    ∷ returned (Call.execve 200 (300 ∷ [])) (pos 0)
                    ∷ user_calls)))
      (daemon host passwd 200 201 (300 ∷ []) world)
daemon-as_user_example =
    daemon-as_user host passwd world 200 201 500 (300 ∷ []) (λ e. omega arith) (λ e. omega arith)
      (λ trace. refl)

term_group_example :
    Ensures
      (λ done w'. (total (kills (pos 0)) w'.trace ≡ 1) × (¬ LocksKept 8 world w'))
      (term host 8 world)
    × (get_id host 8 world
        ≡ some (pos 0, record world { trace = gave (Call.handle_lock 8) 0 ∷ [] }))
term_group_example = term_group host 8 world (λ trace. refl)
