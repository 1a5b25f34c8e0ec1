-- ===== src/Env/Laws.antt =====
-- What a lookup in the environment writes, and what it leaves.
use Prim.Native.String.{String}
use of_core_darwin.Base.{ℕ, zero, suc, ◌≡◌, ◌≢◌, true, false, some, List, ◌∷◌, get_elem?, arith}
use of_core_darwin.Host.{Call, Event, gave, did, Host, World, Ensures}
use of_core_darwin.Host.Counts.{total}
use of_core_darwin.Env.{env2str, get}

-- The calls of a lookup that succeeds, newest first: the value found is converted, the converted string is
-- copied to `ptr`, at most `len` characters of it, and freed.
abbrev pub found_calls : Host → ℕ → ℕ → String → List Event → List Event
found_calls host ptr len name trace =
    let asked = gave (Call.getenv name) (host.pointer trace (Call.getenv name)) ∷ trace in
    let convert = Call.cstr2tstr (host.pointer trace (Call.getenv name)) in
    let path = host.pointer asked convert in
    did (Call.free path) ∷ did (Call.tstrncpy ptr path len) ∷ gave convert path ∷ asked

-- Calls that write to memory, or that give it back or take it.
abbrev pub touches : Event → ℕ
touches (did (Call.tstrncpy p s n)) = 1
touches (gave (Call.cstr2tstr s) p) = 1
touches (did (Call.free p)) = 1
touches _ = 0

-- A lookup always ends. It succeeds exactly when the caller gives memory, the value has an entry in the
-- table, and the environment has that name; then what was found is converted, the converted string is
-- copied to the caller's memory, within the length given, and that string is freed. Else nothing is
-- converted, copied or freed.
pub get_lem :
    (host : Host) (w : World (Unit {0})) (value ptr len : ℕ)
    → Ensures
        (λ found w'.
          (found ≡ true
            → (ptr ≢ 0)
              × ((name : String) × (get_elem? env2str value ≡ some name)
                  × (host.pointer w.trace (Call.getenv name) ≢ 0)
                  × (w'.trace ≡ found_calls host ptr len name w.trace)))
          × (found ≡ false
              → (total touches w'.trace ≡ total touches w.trace)
                × ((name : String)
                    → ptr ≢ 0
                    → get_elem? env2str value ≡ some name
                    → host.pointer w.trace (Call.getenv name) ≡ 0)))
        (get host value ptr len w)
unfolding get
get_lem host w zero ptr len = grind arith
get_lem host w (suc zero) ptr len = grind arith
get_lem host w (suc (suc zero)) ptr len = grind arith
get_lem host w (suc (suc (suc n))) ptr len = grind arith
