-- ===== src/Base/Bits.antt =====
-- Words in bits: Python's `|`, `&`, `&~`, `<<` and `>>` on numbers of zero or more, bit by bit.
mod Step
pub mod Fields
use Step.{bit_or_step, bit_and_step, bit_and-zero_left}
use Prim.Native.Nat.{
  ℕ, zero, suc, ◌+◌, ◌-◌, ◌*◌, ◌/◌, ◌%◌, ◌^◌, ◌≤◌, ◌<◌, min, max, bit_and, bit_or,
}
use mathlib.Core.Logic.{◌⊎◌, inl, inr}
use mathlib.Core.Path.{◌≡◌, refl, sym, ap, ◌∙◌}
use native.Mathlib.Nat.{pow-suc, one-le-pow, div-div-eq-div-mul, mul_comm, div-add-mod}
use Prim.Native.Nat.add
use native.Mathlib.Omega.{arith}

-- The binary digit of `a` at place `i`.
pub bit : ℕ → ℕ → ℕ
bit a zero = a % 2
bit a (suc i) = bit (a / 2) i

pub lt_or_le : (a b : ℕ) → (a < b) ⊎ (b ≤ a)
lt_or_le a b = omega arith

-- `a & ~b`.
unfoldable pub and_not : ℕ → ℕ → ℕ
and_not a b = a - bit_and a b

pub bit-lt : (a i : ℕ) → bit a i < 2
unfolding bit
bit-lt a zero = omega arith
bit-lt a (suc i) = bit-lt (a / 2) i

pub bit-bit_or : (a b i : ℕ) → bit (bit_or a b) i ≡ max (bit a i) (bit b i)
unfolding bit
bit-bit_or a b zero = omega (arith, bit_or_step a b)
bit-bit_or a b (suc i) =
    let halved : bit_or a b / 2 ≡ bit_or (a / 2) (b / 2) = omega (arith, bit_or_step a b) in
    rw halved (bit-bit_or (a / 2) (b / 2) i)

pub bit-bit_and : (a b i : ℕ) → bit (bit_and a b) i ≡ min (bit a i) (bit b i)
unfolding bit
bit-bit_and a b zero = omega (arith, bit_and_step a b)
bit-bit_and a b (suc i) =
    let halved : bit_and a b / 2 ≡ bit_and (a / 2) (b / 2) = omega (arith, bit_and_step a b) in
    rw halved (bit-bit_and (a / 2) (b / 2) i)

bit_and-le : (k a b : ℕ) → a ≤ k → bit_and a b ≤ a
bit_and-le zero a b h =
    let empty : a ≡ 0 = omega arith in rw empty (omega (arith, bit_and-zero_left b))
bit_and-le (suc k) zero b h = omega (arith, bit_and-zero_left b)
bit_and-le (suc k) (suc a) b h =
    omega (arith, bit_and_step (suc a) b, bit_and-le k (suc a / 2) (b / 2) (omega arith))

pub bit-and_not : (a b i : ℕ) → bit (and_not a b) i ≡ bit a i - bit b i
unfolding bit and_not
bit-and_not a b zero =
    omega (arith, bit_and_step a b, bit_and-le (a / 2) (a / 2) (b / 2) (omega arith))
bit-and_not a b (suc i) =
    let halved : and_not a b / 2 ≡ and_not (a / 2) (b / 2) =
      omega (arith, bit_and_step a b, bit_and-le (a / 2) (a / 2) (b / 2) (omega arith)) in
    rw halved (bit-and_not (a / 2) (b / 2) i)

-- Numbers with the same digits are equal.
bit_ext_below : (k a b : ℕ) → a < 2 ^ k → b < 2 ^ k → ((i : ℕ) → bit a i ≡ bit b i) → a ≡ b
unfolding bit
bit_ext_below zero a b ha hb h = omega arith
bit_ext_below (suc k) a b ha hb h = omega (
  arith,
  h 0,
  pow-suc 2 k,
  bit_ext_below k (a / 2) (b / 2) (omega (arith, pow-suc 2 k)) (omega (arith, pow-suc 2 k))
      (λ i. h (suc i)),
)

lt_pow : (a : ℕ) → a < 2 ^ a
lt_pow zero = omega arith
lt_pow (suc a) = omega (arith, lt_pow a, pow-suc 2 a)

lt_pow_of_le : (a k : ℕ) → a ≤ k → a < 2 ^ k
lt_pow_of_le a k h = omega (arith, lt_pow k)

pub bit_ext : (a b : ℕ) → ((i : ℕ) → bit a i ≡ bit b i) → a ≡ b
bit_ext a b h =
    bit_ext_below (a + b) a b (lt_pow_of_le a (a + b) (omega arith))
      (lt_pow_of_le b (a + b) (omega arith)) h

-- Shifts to the left and to the right.
pub bit_shl_below : (a k i : ℕ) → i < k → bit (a * 2 ^ k) i ≡ 0
unfolding bit
bit_shl_below a zero i h = absurd (omega arith)
bit_shl_below a (suc k) zero h = omega (arith, ap (λ (t : ℕ). a * t) (pow-suc 2 k))
bit_shl_below a (suc k) (suc i) h =
    let halved : a * 2 ^ suc k / 2 ≡ a * 2 ^ k =
      omega (arith, ap (λ (t : ℕ). a * t) (pow-suc 2 k)) in
    rw halved (bit_shl_below a k i (omega arith))

pub bit_shl : (a k i : ℕ) → bit (a * 2 ^ k) (k + i) ≡ bit a i
unfolding bit
bit_shl a zero i =
    let same : a * 1 ≡ a = omega arith in
    let place : 0 + i ≡ i = omega arith in rw (same, place) refl
bit_shl a (suc k) i =
    let halved : a * 2 ^ suc k / 2 ≡ a * 2 ^ k =
      omega (arith, ap (λ (t : ℕ). a * t) (pow-suc 2 k)) in
    rw (add.suc k i) (ap (λ x. bit x (k + i)) halved ∙ bit_shl a k i)

pub bit_shr : (a k i : ℕ) → bit (a / 2 ^ k) i ≡ bit a (k + i)
unfolding bit
bit_shr a zero i =
    let same : a / 1 ≡ a = omega arith in
    let place : 0 + i ≡ i = omega arith in rw (same, place) refl
bit_shr a (suc k) i =
    let halved : a / 2 ^ suc k ≡ a / 2 / 2 ^ k =
      rw (pow-suc 2 k, mul_comm (2 ^ k) 2) (sym (div-div-eq-div-mul a 2 (2 ^ k))) in
    rw (add.suc k i) (rw halved (bit_shr (a / 2) k i))

pub bit_zero : (i : ℕ) → bit 0 i ≡ 0
unfolding bit
bit_zero zero = refl
bit_zero (suc i) = bit_zero i

halves : (a k : ℕ) → 2 ^ suc k * (a / 2 ^ suc k) ≡ 2 * (2 ^ k * (a / 2 / 2 ^ k))
halves a k = rw (pow-suc 2 k, mul_comm (2 ^ k) 2, ← div-div-eq-div-mul a 2 (2 ^ k)) (omega arith)

mod_halve : (a k : ℕ) → a % 2 ^ suc k / 2 ≡ a / 2 % 2 ^ k
mod_halve a k = omega (arith, halves a k, div-add-mod a (2 ^ suc k), div-add-mod (a / 2) (2 ^ k))

mod_low : (a k : ℕ) → a % 2 ^ suc k % 2 ≡ a % 2
mod_low a k = omega (arith, halves a k, div-add-mod a (2 ^ suc k), div-add-mod (a / 2) (2 ^ k))

-- A mask of the lowest `k` digits.
pub bit_mod : (a k i : ℕ) → i < k → bit (a % 2 ^ k) i ≡ bit a i
unfolding bit
bit_mod a zero i h = absurd (omega arith)
bit_mod a (suc k) zero h = mod_low a k
bit_mod a (suc k) (suc i) h = rw (mod_halve a k) (bit_mod (a / 2) k i (omega arith))

pub bit_mod_above : (a k i : ℕ) → k ≤ i → bit (a % 2 ^ k) i ≡ 0
unfolding bit
bit_mod_above a zero i h = let none_left : a % 1 ≡ 0 = omega arith in rw none_left (bit_zero i)
bit_mod_above a (suc k) zero h = absurd (omega arith)
bit_mod_above a (suc k) (suc i) h = rw (mod_halve a k) (bit_mod_above (a / 2) k i (omega arith))

bit_and-zero : (a : ℕ) → bit_and a 0 ≡ 0
bit_and-zero a = bit_ext _ _ (λ i. omega (arith, bit-bit_and a 0 i, bit_zero i))

-- A test of a single digit.
pub bit_and-pow : (a m : ℕ) → bit_and a (2 ^ m) ≡ bit a m * 2 ^ m
unfolding bit
bit_and-pow a zero = omega (arith, bit_and_step a 1, bit_and-zero (a / 2))
bit_and-pow a (suc m) =
    let halved : 2 ^ suc m / 2 ≡ 2 ^ m = omega (arith, pow-suc 2 m) in
    let even : 2 ^ suc m % 2 ≡ 0 = omega (arith, pow-suc 2 m) in
    bit_and_step a (2 ^ suc m) ∙ rw (halved, even, bit_and-pow (a / 2) m, pow-suc 2 m) (omega arith)

pub bit_top : (a m : ℕ) → a < 2 ^ m → bit a m ≡ 0
unfolding bit
bit_top a zero h = omega arith
bit_top a (suc m) h = bit_top (a / 2) m (omega (arith, pow-suc 2 m))

pub bit_top_set : (a m : ℕ) → 2 ^ m ≤ a → a < 2 ^ suc m → bit a m ≡ 1
unfolding bit
bit_top_set a zero h below = omega arith
bit_top_set a (suc m) h below =
    bit_top_set (a / 2) m (omega (arith, pow-suc 2 m))
      (omega (arith, pow-suc 2 m, pow-suc 2 (suc m)))
