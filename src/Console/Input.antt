-- ===== src/Console/Input.antt =====
-- What the terminal's input becomes in the caller's buffer.
use of_core_darwin.Base.{
  ℕ, zero, suc, ◌+◌, ◌-◌, ◌≤◌, ◌≡◌, ◌≢◌, ◌⊎◌, none, some, List, [], ◌∷◌, ◌++◌, arith, length,
  length-append, set-append, append_assoc,
}
use of_core_darwin.Console.{store, fgets, read_stdin, read_password}

-- A byte that a text does not hold.
abbrev pub Lacks : ℕ → List ℕ → Type 0
Lacks x [] = Unit {0}
Lacks x (c ∷ cs) = (c ≢ x) × Lacks x cs

-- What is relied on of of_core's string functions: the length is up to the first NUL, and a copy writes
-- the first `n` bytes of the buffer only.
pub record IsLibc (strlen : List ℕ → ℕ) (strncpy : List ℕ → List ℕ → ℕ → List ℕ) : Type 0 where
  pub strlen_text : (text rest : List ℕ) → Lacks 0 text → strlen (text ++ 0 ∷ rest) ≡ length text
  pub strncpy_within :
      (text head tail : List ℕ)
      → (new : List ℕ) × (length new ≡ length head)
        × (strncpy (head ++ tail) text (length head) ≡ new ++ tail)

store-append :
    (xs tail : List ℕ) (last next n : ℕ)
    → length xs ≡ n
    → store (xs ++ last ∷ next ∷ tail) (n + 1) 0 ≡ some (xs ++ last ∷ 0 ∷ tail)
store-append xs tail last next n size = grind (
  arith,
  length-append xs (last ∷ next ∷ tail),
  length-append xs (last ∷ []),
  append_assoc xs (last ∷ []) (next ∷ tail),
  append_assoc xs (last ∷ []) (0 ∷ tail),
  set-append (xs ++ last ∷ []) tail next 0,
)

module _ (strlen : List ℕ → ℕ) (strncpy : List ℕ → List ℕ → ℕ → List ℕ)
    (libc : IsLibc strlen strncpy) where
  -- At the end of the input, or of a buffer of no length, a buffer that holds the empty string is written
  -- to before its first byte.
  pub read_stdin_fault :
      (tail input : List ℕ) (len : ℕ)
      → (len ≡ 0) ⊎ ((2 ≤ len) × (input ≡ []))
      → read_stdin strlen strncpy (0 ∷ tail) len input ≡ none
  unfolding read_stdin fgets
  read_stdin_fault tail input zero at = ground arith
  read_stdin_fault tail input (suc zero) at = ground arith
  read_stdin_fault tail [] (suc (suc n)) at =
      let empty : strlen (0 ∷ tail) ≡ 0 = libc.strlen_text [] tail tt in ground (arith, empty)
  read_stdin_fault tail (c ∷ input) (suc (suc n)) at = ground arith

  -- A password is ended one byte past the length that the caller gives: outside of a buffer of that
  -- length, and else behind a byte that is left as it was.
  pub read_password_past :
      (pass head tail : List ℕ) (last : ℕ)
      → (read_password strlen strncpy pass (head ++ last ∷ []) (length head + 1) ≡ none)
        × ((next : ℕ)
            → (new : List ℕ) × (length new ≡ length head)
              × (read_password strlen strncpy pass (head ++ last ∷ next ∷ tail) (length head + 1)
                  ≡ some (new ++ last ∷ 0 ∷ tail)))
  unfolding read_password
  read_password_past pass head tail last =
      let (short, short_size, cut) = libc.strncpy_within pass head (last ∷ []) in
      let back : length head + 1 - 1 ≡ length head = omega arith in
      (
        rw (back, cut) (ground (arith, length-append short (last ∷ []))),
        λ next.
            let (new, size, copied) = libc.strncpy_within pass head (last ∷ next ∷ tail) in
            (new, size, rw (back, copied) (store-append new tail last next (length head) size)),
      )
