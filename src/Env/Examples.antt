-- ===== src/Env/Examples.antt =====
-- An environment that has every name.
use Prim.Native.String.{String}
use of_core_darwin.Base.{ℕ, ◌≡◌, ◌≢◌, true, false, none, some, [], get_elem?}
use of_core_darwin.Base.Int.{pos}
use of_core_darwin.Host.{Call, inet, Host, World, Ensures}
use of_core_darwin.Host.Counts.{total}
use of_core_darwin.Env.{env2str, get}
use of_core_darwin.Env.Laws.{found_calls, touches, get_lem}

abbrev pointer_of : Call → ℕ
pointer_of (Call.getenv name) = 300
pointer_of _ = 400

abbrev host : Host
host = record {
  pointer = λ trace c. pointer_of c;
  number = λ trace c. pos 0;
  errno = λ trace. pos 0;
  sockaddr = λ trace. record { family = inet; port = []; addr = []; addr6 = []; scope = 0 };
  bytes = λ trace. [];
}

abbrev world : World (Unit {0})
world = record { object = λ p. none; trace = [] }

abbrev buffer : ℕ
buffer = 50

abbrev path : ℕ
path = 300

get_lem_example :
    Ensures
      (λ found w'.
        (found ≡ true
          → (buffer ≢ 0)
            × ((name : String) × (get_elem? env2str 2 ≡ some name)
                × (path ≢ 0)
                × (w'.trace ≡ found_calls host 50 80 name [])))
        × (found ≡ false
            → (total touches w'.trace ≡ 0)
              × ((name : String) → buffer ≢ 0 → get_elem? env2str 2 ≡ some name → path ≡ 0)))
      (get host 2 50 80 world)
unfolding get
get_lem_example = get_lem host world 2 50 80
