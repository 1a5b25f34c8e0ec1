-- ===== src/Console/Output.antt =====
-- What the output functions send to the system.
use of_core_darwin.Base.{ℕ, ◌≡◌, refl, ◌⊎◌, List, [], ◌∷◌, ◌++◌, if◌then◌else◌, arith, length}
use of_core_darwin.Base.Int.{pos, negsuc, pos_part, eqb_ℤ}
use of_core_darwin.Console.{
  Sent, Console, Kernel, write, fsync, stdout_fileno, open_log, take, write_stdout, write_log,
  write_console,
}
use of_core_darwin.Console.Input.{Lacks, IsLibc}

-- The bytes that the standard output took, oldest first.
abbrev pub shown : List Sent → List ℕ
shown [] = []
shown (write fd bytes taken ∷ sent) =
    shown sent ++ (if eqb_ℤ fd stdout_fileno then take (pos_part taken) bytes else [])
shown (fsync fd ∷ sent) = shown sent

-- `g_fd` is as it was at the start, or the standard output.
abbrev pub IsConsole : Console → Type 0
IsConsole s = (s.g_fd ≡ negsuc 0) ⊎ (s.g_fd ≡ stdout_fileno)

-- An operation asks the system once to write these bytes to the standard output, and to flush it. Those
-- are shown that the system took, and nothing is sent again.
abbrev pub Shows : Kernel → List ℕ → Console → Console → Type 0
Shows kernel bytes s s' =
    let taken = kernel s.sent stdout_fileno bytes in
    (s'.g_fd ≡ stdout_fileno)
    × (s'.sent ≡ fsync stdout_fileno ∷ write stdout_fileno bytes taken ∷ s.sent)
    × (shown s'.sent ≡ shown s.sent ++ take (pos_part taken) bytes)
    × (taken ≡ pos (length bytes) → shown s'.sent ≡ shown s.sent ++ bytes)

take-all : (xs : List ℕ) → take (length xs) xs ≡ xs
take-all [] = refl
take-all (x ∷ xs) = rw (take-all xs) refl

take-append : (xs ys : List ℕ) → take (length xs) (xs ++ ys) ≡ xs
take-append [] ys = refl
take-append (x ∷ xs) ys = rw (take-append xs ys) refl

-- From the start of the program on, the console, the log and the standard output ask the system for one
-- write of each text, its bytes up to the NUL, or as many as the caller says. They show the text whole
-- after what was shown before, if the system takes all of it; of a text of which it takes fewer bytes
-- only those are shown, and of one that it refuses nothing, since no write is repeated.
pub write-Shows :
    (strlen : List ℕ → ℕ) (strncpy : List ℕ → List ℕ → ℕ → List ℕ)
    → IsLibc strlen strncpy
    → (kernel : Kernel) (s : Console) (text rest : List ℕ) (level : ℕ) → IsConsole s
    → Lacks 0 text
    → Shows kernel text s (write_console strlen strncpy kernel (text ++ 0 ∷ rest) s)
      × Shows kernel text s (write_log kernel level (text ++ rest) (length text) s)
      × Shows kernel text s (write_stdout kernel (text ++ rest) (length text) s)
unfolding write_console write_log write_stdout open_log
write-Shows strlen strncpy libc kernel s text rest level ready clean = ground (
  arith,
  libc.strlen_text text rest clean,
  take-append text (0 ∷ rest),
  take-append text rest,
  take-all text,
)
