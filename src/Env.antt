-- ===== src/Env.antt =====
-- src/env_darwin.c: the places that the environment names.
pub mod Laws
mod Examples
use Prim.Native.String.{String}
use of_core_darwin.Base.{
  ℕ, Bool, true, false, not, ltb, ◌&&◌, Option, none, some, List, [], ◌∷◌, ◌==◌, if◌then◌else◌,
  get_elem?, length,
}
use of_core_darwin.Host.{Call, Host, M, pure, ◌>>=◌, ◌>>◌, call, get_pointer}

-- `OFC_ENV_NUM` is the number of entries.
abbrev pub env2str : List String
env2str = "OPEN_FILES_HOME" ∷ "OPEN_FILES_INSTALL" ∷ "OPEN_FILES_ROOT" ∷ []

-- `none` is a read outside of the table.
abbrev pub name_of : ℕ → M (Unit {0}) String
name_of value w = elim (get_elem? env2str value) [ none ↦ none | some name ↦ some (name, w) ]

module _ (host : Host) where
  abbrev pub copy_to : ℕ → ℕ → ℕ → M (Unit {0}) Bool
  copy_to ptr len env = if env == 0 then pure false else do
    path ← get_pointer host (Call.cstr2tstr env)
    call (Call.tstrncpy ptr path len)
    call (Call.free path)
    pure true

  unfoldable pub get : ℕ → ℕ → ℕ → M (Unit {0}) Bool
  get value ptr len =
      if not (ptr == 0) && ltb value 3
      then (do name ← name_of value; env ← get_pointer host (Call.getenv name); copy_to ptr len env)
      else pure false
