-- ===== src/Console/Examples.antt =====
-- Concrete string functions, and a terminal session.
use of_core_darwin.Base.{
  ℕ, zero, suc, ◌≡◌, refl, ap, inl, inr, none, some, List, [], ◌∷◌, ◌++◌, ◌==◌, if◌then◌else◌,
  arith, length,
}
use of_core_darwin.Base.Int.{pos}
use of_core_darwin.Console.{
  Kernel, initial, write_console, write_log, write_stdout, read_stdin, read_password,
}
use of_core_darwin.Console.Input.{Lacks, IsLibc, read_stdin_fault, read_password_past}
use of_core_darwin.Console.Output.{Shows, write-Shows}

abbrev strlen : List ℕ → ℕ
strlen [] = 0
strlen (c ∷ cs) = if c == 0 then 0 else suc (strlen cs)

abbrev strncpy : List ℕ → List ℕ → ℕ → List ℕ
strncpy buf text zero = buf
strncpy [] text (suc n) = []
strncpy (x ∷ buf) [] (suc n) = 0 ∷ strncpy buf [] n
strncpy (x ∷ buf) (c ∷ text) (suc n) = c ∷ strncpy buf text n

strlen-text : (text rest : List ℕ) → Lacks 0 text → strlen (text ++ 0 ∷ rest) ≡ length text
strlen-text [] rest clean = refl
strlen-text (c ∷ text) rest clean = ground (arith, strlen-text text rest clean.1, clean.0)

strncpy-within :
    (text head tail : List ℕ)
    → (new : List ℕ) × (length new ≡ length head)
      × (strncpy (head ++ tail) text (length head) ≡ new ++ tail)
strncpy-within text [] tail = ([], refl, refl)
strncpy-within [] (x ∷ head) tail =
    let (new, size, e) = strncpy-within [] head tail in (0 ∷ new, ap suc size, ap (◌∷◌ 0) e)
strncpy-within (c ∷ text) (x ∷ head) tail =
    let (new, size, e) = strncpy-within text head tail in (c ∷ new, ap suc size, ap (◌∷◌ c) e)

libc : IsLibc strlen strncpy
libc = record { strlen_text = strlen-text; strncpy_within = strncpy-within }

-- A terminal that takes one byte of each write.
abbrev slow : Kernel
slow sent fd bytes = pos 1

write-Shows_example :
    Shows slow
      (104 ∷ 105 ∷ [])
      initial
      (write_console strlen strncpy slow (104 ∷ 105 ∷ 0 ∷ 9 ∷ []) initial)
    × Shows slow (104 ∷ 105 ∷ []) initial (write_log slow 2 (104 ∷ 105 ∷ 9 ∷ []) 2 initial)
    × Shows slow (104 ∷ 105 ∷ []) initial (write_stdout slow (104 ∷ 105 ∷ 9 ∷ []) 2 initial)
write-Shows_example =
    write-Shows strlen strncpy libc slow initial (104 ∷ 105 ∷ []) (9 ∷ []) 2 (inl refl)
      (omega arith)

read_stdin_fault_example : read_stdin strlen strncpy (0 ∷ 7 ∷ 7 ∷ []) 3 [] ≡ none
read_stdin_fault_example =
    read_stdin_fault strlen strncpy libc (7 ∷ 7 ∷ []) [] 3 (inr (omega arith, refl))

read_password_past_example :
    (read_password strlen strncpy (97 ∷ 98 ∷ []) (7 ∷ 7 ∷ 7 ∷ []) 3 ≡ none)
    × ((next : ℕ)
        → (new : List ℕ) × (length new ≡ 2)
          × (read_password strlen strncpy (97 ∷ 98 ∷ []) (7 ∷ 7 ∷ 7 ∷ next ∷ []) 3
              ≡ some (new ++ 7 ∷ 0 ∷ [])))
read_password_past_example = read_password_past strlen strncpy libc (97 ∷ 98 ∷ []) (7 ∷ 7 ∷ []) [] 7
