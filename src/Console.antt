-- ===== src/Console.antt =====
-- src/console_darwin.c: output to the log and the console, and what is read from the terminal.
pub mod Output
pub mod Input
mod Examples
use of_core_darwin.Base.{
  ℕ, zero, suc, ◌+◌, ◌-◌, Bool, true, false, ltb, Option, none, some, List, [], ◌∷◌, ◌++◌, ◌==◌,
  if◌then◌else◌, ◌>>=◌, length, set,
}
use of_core_darwin.Base.Int.{ℤ, pos, negsuc, eqb_ℤ}

-- The calls that reach the system, newest first, and `g_fd`. A `write` has what it returned: the number of
-- bytes that were taken, which may be fewer than it was given, or -1.
pub data Sent : Type 0 where
  write : ℤ → List ℕ → ℤ → Sent
  fsync : ℤ → Sent

pub record Console : Type 0 where
  pub g_fd : ℤ
  pub sent : List Sent

abbrev pub stdout_fileno : ℤ
stdout_fileno = pos 1

-- The program starts with `g_fd = -1`.
abbrev pub initial : Console
initial = record { g_fd = negsuc 0; sent = [] }

-- LOG_TO_FILE is not defined.
unfoldable pub open_log : Console → Console
open_log s = record s { g_fd = stdout_fileno }

abbrev pub opened : Console → Console
unfolding open_log
opened s = if eqb_ℤ s.g_fd (negsuc 0) then open_log s else s

-- The first `n` bytes of the memory behind a pointer.
abbrev pub take : ℕ → List ℕ → List ℕ
take zero bytes = []
take (suc n) [] = []
take (suc n) (b ∷ bytes) = b ∷ take n bytes

-- What the system answers to a `write`, by all that was sent before. The code does not look at it.
abbrev pub Kernel : Type 0
Kernel = List Sent → ℤ → List ℕ → ℤ

abbrev pub write_all : Kernel → List ℕ → Console → Console
write_all kernel bytes s = record s {
  sent = fsync s.g_fd ∷ write s.g_fd bytes (kernel s.sent s.g_fd bytes) ∷ s.sent;
}

unfoldable pub write_stdout : Kernel → List ℕ → ℕ → Console → Console
unfolding opened
write_stdout kernel obuf len s = write_all kernel (take len obuf) (opened s)

unfoldable pub write_log : Kernel → (level : ℕ) → List ℕ → ℕ → Console → Console
unfolding write_stdout
write_log kernel level obuf len s = write_stdout kernel obuf len s

-- `buf[i] = v`; `none` is a write outside of the buffer.
abbrev pub store : List ℕ → ℕ → ℕ → Option (List ℕ)
store buf i v = if ltb i (length buf) then some (set buf i v) else none

-- What `fgets` takes from its input: at most `n` bytes, to a line feed.
abbrev pub take_line : ℕ → List ℕ → List ℕ × List ℕ
take_line zero input = ([], input)
take_line (suc n) [] = ([], [])
take_line (suc n) (c ∷ cs) =
    let (line, rest) = take_line n cs in if c == 10 then (c ∷ [], cs) else (c ∷ line, rest)

-- Bytes over the start of a buffer; `none` is a write outside of it.
abbrev pub overwrite : List ℕ → List ℕ → Option (List ℕ)
overwrite [] buf = some buf
overwrite (b ∷ bytes) [] = none
overwrite (b ∷ bytes) (x ∷ buf) = overwrite bytes buf >>= λ rest. some (b ∷ rest)

-- `fgets`: at the end of the input it leaves the buffer alone.
unfoldable pub fgets : List ℕ → ℕ → List ℕ → Option (List ℕ × List ℕ)
fgets buf zero input = some (buf, input)
fgets buf (suc zero) input = overwrite (0 ∷ []) buf >>= λ out. some (out, input)
fgets buf (suc (suc n)) [] = some (buf, [])
fgets buf (suc (suc n)) (c ∷ cs) =
    let (line, rest) = take_line (suc n) (c ∷ cs) in
    overwrite (line ++ 0 ∷ []) buf >>= λ out. some (out, rest)

-- Over `ofc_strlen` and `ofc_strncpy`, of_core's own functions on the memory behind a pointer.
module _ (strlen : List ℕ → ℕ) (strncpy : List ℕ → List ℕ → ℕ → List ℕ) where
  unfoldable pub write_console : Kernel → List ℕ → Console → Console
  unfolding opened
  write_console kernel obuf s = write_all kernel (take (strlen obuf) obuf) (opened s)

  -- The caller's buffer and the rest of the input. At length 0 the index `len - 1` wraps around and
  -- lies outside of every buffer.
  unfoldable pub read_stdin : List ℕ → ℕ → List ℕ → Option (List ℕ × List ℕ)
  unfolding fgets
  read_stdin inbuf len input = do
    (buf, rest) ← fgets inbuf len input
    let len' = if ltb (strlen buf) len then strlen buf else len
    out ← if len' == 0 then none else store buf (len' - 1) 0
    some (out, rest)

  -- `pass` is what `getpass` returns.
  unfoldable pub read_password : List ℕ → List ℕ → ℕ → Option (List ℕ)
  read_password pass inbuf len = store (strncpy inbuf pass (len - 1)) len 0
