-- ===== src/Base/Bits/Step.antt =====
-- `|` and `&` on numbers, one binary digit at a time. The library describes them by a recursion
-- with fuel; here the fuel is gone.
use Prim.Native.Nat.{
  ℕ, zero, suc, ◌+◌, ◌*◌, ◌/◌, ◌%◌, ◌≤◌, min, max, bit_and, bit_or, digits, bit_and-bitwise,
  bit_or-bitwise,
}
use mathlib.Core.Path.{◌≡◌, refl}
use native.Mathlib.Omega.{arith}

module _ (tail : ℕ → ℕ) (f : ℕ → ℕ → ℕ) where
  -- Any fuel that is not less than the number gives the same digits.
  enough_fuel : (k l a b : ℕ) → a ≤ k → a ≤ l → digits tail f k a b ≡ digits tail f l a b
  enough_fuel zero zero a b hk hl = refl
  enough_fuel (suc k) zero zero b hk hl = refl
  enough_fuel zero (suc l) zero b hk hl = refl
  enough_fuel (suc k) (suc l) zero b hk hl = refl
  enough_fuel zero l (suc a) b hk hl = absurd (omega arith)
  enough_fuel (suc k) zero (suc a) b hk hl = absurd (omega arith)
  enough_fuel (suc k) (suc l) (suc a) b hk hl =
      rw (enough_fuel k l (suc a / 2) (b / 2) (omega arith) (omega arith)) refl

  halve :
      (a b : ℕ)
      → digits tail f (suc a) (suc a) b
        ≡ f (suc a % 2) (b % 2) + 2 * digits tail f (suc a / 2) (suc a / 2) (b / 2)
  halve a b =
      omega (arith, enough_fuel a (suc a / 2) (suc a / 2) (b / 2) (omega arith) (omega arith))

pub bit_or_step : (a b : ℕ) → bit_or a b ≡ max (a % 2) (b % 2) + 2 * bit_or (a / 2) (b / 2)
bit_or_step zero b = omega (arith, bit_or-bitwise 0 b, bit_or-bitwise 0 (b / 2))
bit_or_step (suc a) b =
    rw (bit_or-bitwise (suc a) b, bit_or-bitwise (suc a / 2) (b / 2)) (halve (λ y. y) max a b)

pub bit_and_step : (a b : ℕ) → bit_and a b ≡ min (a % 2) (b % 2) + 2 * bit_and (a / 2) (b / 2)
bit_and_step zero b = omega (arith, bit_and-bitwise 0 b, bit_and-bitwise 0 (b / 2))
bit_and_step (suc a) b =
    rw (bit_and-bitwise (suc a) b, bit_and-bitwise (suc a / 2) (b / 2)) (halve (λ y. 0) min a b)

pub bit_and-zero_left : (b : ℕ) → bit_and 0 b ≡ 0
bit_and-zero_left b = bit_and-bitwise 0 b
