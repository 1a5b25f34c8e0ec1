-- ===== src/Base/Bits.antt =====
-- Flag words: when two words share a bit, and how that distributes over `|`.
mod Step
use Step.{bit_or-low, bit_and-low}
use Prim.Native.Nat.{ℕ, zero, suc, ◌+◌, ◌*◌, ◌/◌, ◌%◌, ◌≤◌, bit_and, bit_or, bit_and-bitwise}
use mathlib.Core.Path.{◌≡◌, refl}
use mathlib.Core.Bool.{Bool, true, false, not, ◌||◌, ◌&&◌}
use native.Mathlib.Omega.{arith}
use of_core_darwin.Base.Tests.{◌==◌, if◌then◌else◌}

-- `a & b` as a condition of C.
abbrev pub overlaps : ℕ → ℕ → Bool
overlaps a b = not (bit_and a b == 0)

-- Two bits of the sum: `bit_or` halves like its arguments.
bit_or-half : (a b : ℕ) → bit_or a b / 2 ≡ bit_or (a / 2) (b / 2)
bit_or-half a b = omega (arith, bit_or-low a b)

overlaps_fuel : (n a b c : ℕ) → a + b ≤ n → overlaps (bit_or a b) c ≡ overlaps a c || overlaps b c
overlaps_fuel zero zero zero c h = ground (arith, bit_and-bitwise 0 c)
overlaps_fuel zero zero (suc b) c h = absurd (omega arith)
overlaps_fuel zero (suc a) b c h = absurd (omega arith)
overlaps_fuel (suc n) a b c h = ground (
  arith,
  bit_or-low a b,
  bit_or-half a b,
  bit_and-low (bit_or a b) c,
  bit_and-low a c,
  bit_and-low b c,
  overlaps_fuel n (a / 2) (b / 2) (c / 2),
)

-- `(a | b) & c` holds exactly when `a & c` or `b & c` does.
pub overlaps-bit_or : (a b c : ℕ) → overlaps (bit_or a b) c ≡ overlaps a c || overlaps b c
overlaps-bit_or a b c = overlaps_fuel (a + b) a b c (omega arith)

bit_or_le_fuel : (n a b : ℕ) → a + b ≤ n → bit_or a b ≤ a + b
bit_or_le_fuel zero zero zero h = omega arith
bit_or_le_fuel zero zero (suc b) h = absurd (omega arith)
bit_or_le_fuel zero (suc a) b h = absurd (omega arith)
bit_or_le_fuel (suc n) a b h =
    omega (arith, bit_or-low a b, bit_or_le_fuel n (a / 2) (b / 2) (omega arith))

pub bit_or-le : (a b : ℕ) → bit_or a b ≤ a + b
bit_or-le a b = bit_or_le_fuel (a + b) a b (omega arith)

-- `if (c) word |= bits;`
unfoldable pub add_if : Bool → ℕ → ℕ → ℕ
add_if c bits word = if c then bit_or word bits else word

pub overlaps-add_if :
    (c : Bool) (bits word x : ℕ)
    → overlaps (add_if c bits word) x ≡ overlaps word x || c && overlaps bits x
unfolding add_if
overlaps-add_if c bits word x = ground (arith, overlaps-bit_or word bits x)

pub add_if-le : (c : Bool) (bits word : ℕ) → add_if c bits word ≤ word + bits
unfolding add_if
add_if-le c bits word = ground (arith, bit_or-le word bits)

pub zero-overlaps : (x : ℕ) → overlaps 0 x ≡ false
zero-overlaps x = rw (bit_and-bitwise 0 x) refl
