-- ===== src/Base/Bits/Step.antt =====
-- `bit_or` and `bit_and` by their lowest digit: what the native operations are defined by takes as many
-- rounds as its first argument, and rounds beyond that change nothing.
use Prim.Native.Nat.{
  ℕ, zero, suc, ◌+◌, ◌-◌, ◌*◌, ◌/◌, ◌%◌, ◌≤◌, min, max, bit_and, bit_or, digits, bit_and-bitwise,
  bit_or-bitwise,
}
use mathlib.Core.Path.{◌≡◌, refl, ap, ◌∙◌}
use native.Mathlib.Omega.{arith}

module _ (rest : ℕ → ℕ) (digit : ℕ → ℕ → ℕ) where
  one_round :
      (rounds x y : ℕ)
      → x ≤ rounds
      → digits rest digit (suc rounds) x y ≡ digits rest digit rounds x y
  one_round zero zero y le = refl
  one_round (suc rounds) zero y le = refl
  one_round zero (suc x) y le = absurd (omega arith)
  one_round (suc rounds) (suc x) y le = rw (one_round rounds (suc x / 2) (y / 2) (omega arith))

  spare_rounds :
      (spare rounds x y : ℕ)
      → x ≤ rounds
      → digits rest digit (spare + rounds) x y ≡ digits rest digit rounds x y
  spare_rounds zero rounds x y le =
      let none_spare : 0 + rounds ≡ rounds = omega arith in
      ap (λ n. digits rest digit n x y) none_spare
  spare_rounds (suc spare) rounds x y le =
      let last : suc spare + rounds ≡ suc (spare + rounds) = omega arith in
      ap (λ n. digits rest digit n x y) last
      ∙ one_round (spare + rounds) x y (omega arith)
      ∙ spare_rounds spare rounds x y le

  lowest :
      (x y : ℕ)
      → digits rest digit x (suc x / 2) (y / 2) ≡ digits rest digit (suc x / 2) (suc x / 2) (y / 2)
  lowest x y =
      let split : x ≡ x - suc x / 2 + suc x / 2 = omega arith in
      ap (λ n. digits rest digit n (suc x / 2) (y / 2)) split
      ∙ spare_rounds (x - suc x / 2) (suc x / 2) (suc x / 2) (y / 2) (omega arith)

pub bit_or-low : (x y : ℕ) → bit_or x y ≡ max (x % 2) (y % 2) + 2 * bit_or (x / 2) (y / 2)
bit_or-low zero y = simp bit_or-bitwise (omega arith)
bit_or-low (suc x) y = simp bit_or-bitwise (omega (arith, lowest (λ n. n) max x y))

pub bit_and-low : (x y : ℕ) → bit_and x y ≡ min (x % 2) (y % 2) + 2 * bit_and (x / 2) (y / 2)
bit_and-low zero y = simp bit_and-bitwise (omega arith)
bit_and-low (suc x) y = simp bit_and-bitwise (omega (arith, lowest (λ n. 0) min x y))
