-- ===== src/Base/Int.antt =====
-- Python's integers over the native numbers, under the library's names. `negsuc n` is -(n + 1).
-- Sums, orders and shifts go through the two parts of an integer, which are numbers.
use Prim.Native.Nat.{ℕ, suc, ◌+◌, ◌-◌, ◌*◌, ◌/◌, ◌^◌, ◌≤◌, ◌<◌}
use mathlib.Core.Path.{◌≡◌, refl}
use mathlib.Core.Logic.{◌⊎◌, inl, inr}
use mathlib.Core.Bool.{Bool}
use native.Mathlib.Nat.{one-le-pow}
use native.Mathlib.Omega.{arith}
use coil_servo.Base.Tests.{ltb, leb, ◌==◌, if◌then◌else◌}

pub data ℤ : Type 0 where
  pos : ℕ → ℤ
  negsuc : ℕ → ℤ

abbrev pub pos_part : ℤ → ℕ
pos_part (pos n) = n
pos_part (negsuc n) = 0

abbrev pub neg_part : ℤ → ℕ
neg_part (pos n) = 0
neg_part (negsuc n) = suc n

-- a - b, as an integer.
abbrev pub sub_ℕ : ℕ → ℕ → ℤ
sub_ℕ a b = if leb b a then pos (a - b) else negsuc (b - a - 1)

infixl 65 ◌+ℤ◌ ◌-ℤ◌
infixl 70 ◌*ℤ◌
infix 50 ◌≤ℤ◌ ◌<ℤ◌
infixl 60 ◌>>ℤ◌ ◌<<ℤ◌
unfoldable pub ◌+ℤ◌ : ℤ → ℤ → ℤ
a +ℤ b = sub_ℕ (pos_part a + pos_part b) (neg_part a + neg_part b)

unfoldable pub ◌-ℤ◌ : ℤ → ℤ → ℤ
a -ℤ b = sub_ℕ (pos_part a + neg_part b) (neg_part a + pos_part b)

unfoldable pub ◌*ℤ◌ : ℤ → ℤ → ℤ
a *ℤ b =
    sub_ℕ (pos_part a * pos_part b + neg_part a * neg_part b)
      (pos_part a * neg_part b + neg_part a * pos_part b)

unfoldable pub neg : ℤ → ℤ
neg a = sub_ℕ (neg_part a) (pos_part a)

-- `a >> k` rounds down, and `a << k` multiplies.
unfoldable pub ◌>>ℤ◌ : ℤ → ℕ → ℤ
pos n >>ℤ k = pos (n / 2 ^ k)
negsuc n >>ℤ k = negsuc (n / 2 ^ k)

unfoldable pub ◌<<ℤ◌ : ℤ → ℕ → ℤ
a <<ℤ k = sub_ℕ (pos_part a * 2 ^ k) (neg_part a * 2 ^ k)

abbrev pub ◌≤ℤ◌ : ℤ → ℤ → Type 0
a ≤ℤ b = pos_part a + neg_part b ≤ pos_part b + neg_part a

abbrev pub ◌<ℤ◌ : ℤ → ℤ → Type 0
a <ℤ b = pos_part a + neg_part b < pos_part b + neg_part a

abbrev pub ltb_ℤ : ℤ → ℤ → Bool
ltb_ℤ a b = ltb (pos_part a + neg_part b) (pos_part b + neg_part a)

abbrev pub leb_ℤ : ℤ → ℤ → Bool
leb_ℤ a b = leb (pos_part a + neg_part b) (pos_part b + neg_part a)

abbrev pub eqb_ℤ : ℤ → ℤ → Bool
eqb_ℤ a b = (pos_part a + neg_part b) == (pos_part b + neg_part a)

-- `min(a, b)`, `max(a, b)` and `abs(a)`.
abbrev pub min_ℤ : ℤ → ℤ → ℤ
min_ℤ a b = if ltb_ℤ b a then b else a

abbrev pub max_ℤ : ℤ → ℤ → ℤ
max_ℤ a b = if ltb_ℤ a b then b else a

abbrev pub abs_ℤ : ℤ → ℕ
abs_ℤ a = pos_part a + neg_part a

pub parts_disjoint : (a : ℤ) → (pos_part a ≡ 0) ⊎ (neg_part a ≡ 0)
parts_disjoint (pos n) = inr refl
parts_disjoint (negsuc n) = inl refl

pub eq_of_parts : (a b : ℤ) → pos_part a + neg_part b ≡ pos_part b + neg_part a → a ≡ b
eq_of_parts a b h = ground arith

-- One lemma for each operation lets `omega` work with the operations shut.
pub +ℤ_parts :
    (a b : ℤ)
    → pos_part (a +ℤ b) + neg_part a + neg_part b ≡ neg_part (a +ℤ b) + pos_part a + pos_part b
unfolding ◌+ℤ◌
+ℤ_parts a b = ground arith

pub -ℤ_parts :
    (a b : ℤ)
    → pos_part (a -ℤ b) + neg_part a + pos_part b ≡ neg_part (a -ℤ b) + pos_part a + neg_part b
unfolding ◌-ℤ◌
-ℤ_parts a b = ground arith

pub neg_parts : (a : ℤ) → (pos_part (neg a) ≡ neg_part a) × (neg_part (neg a) ≡ pos_part a)
unfolding neg
neg_parts (pos n) = ground arith
neg_parts (negsuc n) = ground arith

pub <<ℤ_parts :
    (a : ℤ) (k : ℕ)
    → (pos_part (a <<ℤ k) ≡ pos_part a * 2 ^ k) × (neg_part (a <<ℤ k) ≡ neg_part a * 2 ^ k)
unfolding ◌<<ℤ◌
<<ℤ_parts (pos n) k = ground arith
<<ℤ_parts (negsuc n) k = ground arith

-- A product's size is the product of the sizes, and its sign follows from the signs.
pub abs-*ℤ : (a b : ℤ) → abs_ℤ (a *ℤ b) ≡ abs_ℤ a * abs_ℤ b
unfolding ◌*ℤ◌
abs-*ℤ (pos m) (pos n) = ground arith
abs-*ℤ (pos m) (negsuc n) = ground arith
abs-*ℤ (negsuc m) (pos n) = ground arith
abs-*ℤ (negsuc m) (negsuc n) = ground arith

pub *ℤ_parts :
    (a b : ℤ)
    → pos_part (a *ℤ b) + pos_part a * neg_part b + neg_part a * pos_part b
      ≡ neg_part (a *ℤ b) + pos_part a * pos_part b + neg_part a * neg_part b
unfolding ◌*ℤ◌
*ℤ_parts a b = ground arith

-- A shift to the right rounds down: the size of a negative number is rounded up.
pub >>ℤ_parts :
    (a : ℤ) (k : ℕ)
    → (pos_part (a >>ℤ k) ≡ pos_part a / 2 ^ k)
      × (neg_part (a >>ℤ k) ≡ (neg_part a + 2 ^ k - 1) / 2 ^ k)
unfolding ◌>>ℤ◌
>>ℤ_parts (pos n) k = (refl, grind (arith, one-le-pow k 2 (omega arith)))
>>ℤ_parts (negsuc n) k = grind (arith, one-le-pow k 2 (omega arith))

pub >>ℤ_shrinks :
    (a : ℤ) (k : ℕ) → (pos_part (a >>ℤ k) ≤ pos_part a) × (neg_part (a >>ℤ k) ≤ neg_part a)
unfolding ◌>>ℤ◌
>>ℤ_shrinks (pos n) k = omega arith
>>ℤ_shrinks (negsuc n) k = omega arith

-- The integer lies in a signed word of `w` bits.
abbrev pub IsSigned : ℕ → ℤ → Type 0
IsSigned w x = (pos_part x < 2 ^ (w - 1)) × (neg_part x ≤ 2 ^ (w - 1))

pub ruleset int_laws = (arith, +ℤ_parts, -ℤ_parts, neg_parts, parts_disjoint, eq_of_parts)
