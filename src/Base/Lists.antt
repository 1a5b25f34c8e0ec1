-- ===== src/Base/Lists.antt =====
-- List functions over the native numbers.
use Prim.Native.Nat.{ℕ, zero, suc, ◌+◌, ◌≤◌, ◌<◌}
use mathlib.Core.Path.{◌≡◌, refl, ap}
use mathlib.Core.Logic.{◌≢◌}
use mathlib.Core.Option.{Option, none, some}
use mathlib.Core.List.{List, [], ◌∷◌, ◌++◌}
use native.Mathlib.Omega.{arith}

module _ {ℓ} {A : Type ℓ} where
  abbrev pub length : List A → ℕ
  length [] = 0
  length (x ∷ xs) = suc (length xs)

  abbrev pub get_elem? : List A → ℕ → Option A
  get_elem? [] i = none
  get_elem? (x ∷ xs) zero = some x
  get_elem? (x ∷ xs) (suc i) = get_elem? xs i

  abbrev pub get_or : List A → ℕ → A → A
  get_or [] i d = d
  get_or (x ∷ xs) zero d = x
  get_or (x ∷ xs) (suc i) d = get_or xs i d

  -- A write out of bounds changes nothing.
  abbrev pub set : List A → ℕ → A → List A
  set [] i v = []
  set (x ∷ xs) zero v = v ∷ xs
  set (x ∷ xs) (suc i) v = x ∷ set xs i v

  pub length-append : (xs ys : List A) → length (xs ++ ys) ≡ length xs + length ys
  length-append [] ys = omega arith
  length-append (x ∷ xs) ys = omega (arith, length-append xs ys)

  pub set-append : (xs zs : List A) (z v : A) → set (xs ++ z ∷ zs) (length xs) v ≡ xs ++ v ∷ zs
  set-append [] zs z v = refl
  set-append (x ∷ xs) zs z v = ap (◌∷◌ x) (set-append xs zs z v)

  pub get_elem?-append : (xs zs : List A) (z : A) → get_elem? (xs ++ z ∷ zs) (length xs) ≡ some z
  get_elem?-append [] zs z = refl
  get_elem?-append (x ∷ xs) zs z = get_elem?-append xs zs z

  pub get_elem?-lt : (xs : List A) (i : ℕ) → i < length xs → get_elem? xs i ≢ none
  get_elem?-lt [] i lt = absurd (omega arith)
  get_elem?-lt (x ∷ xs) zero lt = λ e. cc
  get_elem?-lt (x ∷ xs) (suc i) lt = get_elem?-lt xs i (omega arith)

  pub get_elem?-ge : (xs : List A) (i : ℕ) → length xs ≤ i → get_elem? xs i ≡ none
  get_elem?-ge [] i ge = refl
  get_elem?-ge (x ∷ xs) zero ge = absurd (omega arith)
  get_elem?-ge (x ∷ xs) (suc i) ge = get_elem?-ge xs i (omega arith)
