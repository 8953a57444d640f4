-- ===== src/Base/Bits/Fields.antt =====
-- Fields of a word: reading one by a shift and a mask, and writing one into its place.
use Prim.Native.Nat.{ℕ, zero, suc, ◌+◌, ◌-◌, ◌*◌, ◌/◌, ◌%◌, ◌^◌, ◌≤◌, ◌<◌, bit_and, bit_or}
use mathlib.Core.Logic.{◌⊎◌, inl, inr}
use mathlib.Core.Path.{◌≡◌, sym, ap, ◌∙◌}
use native.Mathlib.Nat.{pow-suc, one-le-pow, mod-eq_of_lt, mul-div_cancel, zero-div, zero-mod}
use native.Mathlib.Omega.{arith}
use coil_servo.Base.Bits.{
  bit, and_not, lt_or_le, bit-lt, bit-bit_or, bit-bit_and, bit-and_not, bit_ext, bit_shl,
  bit_shl_below, bit_shr, bit_mod, bit_mod_above, bit_zero,
}

-- The field of `width` digits from place `lsb` on: `(a >> lsb) & ((1 << width) - 1)`.
abbrev pub field : ℕ → ℕ → ℕ → ℕ
field a lsb width = a / 2 ^ lsb % 2 ^ width

-- Two words agree on a field if they agree on its digits.
pub field_ext :
    (a b lsb width : ℕ)
    → ((i : ℕ) → i < width → bit a (lsb + i) ≡ bit b (lsb + i))
    → field a lsb width ≡ field b lsb width
field_ext a b lsb width h = bit_ext _ _ (λ i. digit i (lt_or_le i width))
  where
    digit :
        (i : ℕ) → (i < width) ⊎ (width ≤ i) → bit (field a lsb width) i ≡ bit (field b lsb width) i
    digit i (inl below) =
        bit_mod (a / 2 ^ lsb) width i below
        ∙ bit_shr a lsb i
        ∙ h i below
        ∙ sym (bit_shr b lsb i)
        ∙ sym (bit_mod (b / 2 ^ lsb) width i below)
    digit i (inr above) =
        bit_mod_above (a / 2 ^ lsb) width i above ∙ sym (bit_mod_above (b / 2 ^ lsb) width i above)

-- Python's mask is the remainder: `a & ((1 << k) - 1)`.
bit_mask_below : (k i : ℕ) → i < k → bit (2 ^ k - 1) i ≡ 1
unfolding bit
bit_mask_below zero i h = absurd (omega arith)
bit_mask_below (suc k) zero h = omega (arith, pow-suc 2 k, one-le-pow k 2 (omega arith))
bit_mask_below (suc k) (suc i) h =
    let halved : (2 ^ suc k - 1) / 2 ≡ 2 ^ k - 1 =
      omega (arith, pow-suc 2 k, one-le-pow k 2 (omega arith)) in
    ap (λ x. bit x i) halved ∙ bit_mask_below k i (omega arith)

bit_mask_above : (k i : ℕ) → k ≤ i → bit (2 ^ k - 1) i ≡ 0
unfolding bit
bit_mask_above zero i h = bit_zero i
bit_mask_above (suc k) zero h = absurd (omega arith)
bit_mask_above (suc k) (suc i) h =
    let halved : (2 ^ suc k - 1) / 2 ≡ 2 ^ k - 1 =
      omega (arith, pow-suc 2 k, one-le-pow k 2 (omega arith)) in
    ap (λ x. bit x i) halved ∙ bit_mask_above k i (omega arith)

pub bit_and-mask : (a k : ℕ) → bit_and a (2 ^ k - 1) ≡ a % 2 ^ k
bit_and-mask a k = bit_ext _ _ (λ i. digit i (lt_or_le i k))
  where
    digit : (i : ℕ) → (i < k) ⊎ (k ≤ i) → bit (bit_and a (2 ^ k - 1)) i ≡ bit (a % 2 ^ k) i
    digit i (inl below) = omega (
      arith,
      bit-bit_and a (2 ^ k - 1) i,
      bit_mask_below k i below,
      bit_mod a k i below,
      bit-lt a i,
    )
    digit i (inr above) =
        omega
          (arith, bit-bit_and a (2 ^ k - 1) i, bit_mask_above k i above, bit_mod_above a k i above)

pub field_zero : (p w : ℕ) → field 0 p w ≡ 0
field_zero p w = ap (λ x. x % 2 ^ w) (zero-div (2 ^ p)) ∙ zero-mod (2 ^ w)

mask_fits : (w : ℕ) → 2 ^ w - 1 < 2 ^ w
mask_fits w = omega (arith, one-le-pow w 2 (omega arith))

-- A value put at its place: `value << lsb`.
bit_small : (v w i : ℕ) → v < 2 ^ w → w ≤ i → bit v i ≡ 0
bit_small v w i h above = ap (λ x. bit x i) (sym (mod-eq_of_lt h)) ∙ bit_mod_above v w i above

field_shl : (v p w : ℕ) → v < 2 ^ w → field (v * 2 ^ p) p w ≡ v
field_shl v p w h =
    ap (λ x. x % 2 ^ w) (mul-div_cancel v (one-le-pow p 2 (omega arith))) ∙ mod-eq_of_lt h

bit-field : (a p w i : ℕ) → i < w → bit a (p + i) ≡ bit (field a p w) i
bit-field a p w i h = sym (bit_mod (a / 2 ^ p) w i h ∙ bit_shr a p i)

-- Outside its own place such a value has no digits.
bit_shl_outside : (v p w j : ℕ) → v < 2 ^ w → (j < p) ⊎ (p + w ≤ j) → bit (v * 2 ^ p) j ≡ 0
bit_shl_outside v p w j h (inl below) = bit_shl_below v p j below
bit_shl_outside v p w j h (inr above) =
    let place : p + (j - p) ≡ j = omega arith in
    ap (bit (v * 2 ^ p)) (sym place) ∙ bit_shl v p (j - p) ∙ bit_small v w (j - p) h (omega arith)

-- `word | (value << lsb)` sets a field that was zero.
pub field_or_same :
    (a v p w : ℕ) → v < 2 ^ w → field a p w ≡ 0 → field (bit_or a (v * 2 ^ p)) p w ≡ v
field_or_same a v p w h empty =
    field_ext (bit_or a (v * 2 ^ p)) (v * 2 ^ p) p w (λ i below. omega (
      arith,
      bit-bit_or a (v * 2 ^ p) (p + i),
      bit-field a p w i below ∙ ap (λ x. bit x i) empty ∙ bit_zero i,
    ))
    ∙ field_shl v p w h

-- It leaves every field alone that does not overlap.
pub field_or_other :
    (a v p w q u : ℕ)
    → v < 2 ^ w
    → (p + w ≤ q) ⊎ (q + u ≤ p)
    → field (bit_or a (v * 2 ^ p)) q u ≡ field a q u
field_or_other a v p w q u h apart = field_ext (bit_or a (v * 2 ^ p)) a q u (λ i below.
    omega (arith, bit-bit_or a (v * 2 ^ p) (q + i), bit_shl_outside v p w (q + i) h (omega arith)))

-- `word & ~(mask << lsb)` clears a field, and leaves the others alone.
pub field_clear_same : (a p w : ℕ) → field (and_not a ((2 ^ w - 1) * 2 ^ p)) p w ≡ 0
field_clear_same a p w =
    field_ext (and_not a ((2 ^ w - 1) * 2 ^ p)) 0 p w (λ i below. omega (
      arith,
      bit-and_not a ((2 ^ w - 1) * 2 ^ p) (p + i),
      bit_shl (2 ^ w - 1) p i,
      bit_mask_below w i below,
      bit-lt a (p + i),
      bit_zero (p + i),
    ))
    ∙ field_zero p w

pub field_clear_other :
    (a p w q u : ℕ)
    → (p + w ≤ q) ⊎ (q + u ≤ p)
    → field (and_not a ((2 ^ w - 1) * 2 ^ p)) q u ≡ field a q u
field_clear_other a p w q u apart = field_ext (and_not a ((2 ^ w - 1) * 2 ^ p)) a q u (λ i below.
    omega (
      arith,
      bit-and_not a ((2 ^ w - 1) * 2 ^ p) (q + i),
      bit_shl_outside (2 ^ w - 1) p w (q + i) (mask_fits w) (omega arith),
    ))

-- A field of a field.
pub field-field :
    (a p w lsb width : ℕ)
    → lsb + width ≤ w
    → field (field a p w) lsb width ≡ field a (p + lsb) width
field-field a p w lsb width h = bit_ext _ _ (λ i. digit i (lt_or_le i width))
  where
    digit :
        (i : ℕ)
        → (i < width) ⊎ (width ≤ i)
        → bit (field (field a p w) lsb width) i ≡ bit (field a (p + lsb) width) i
    digit i (inl below) =
        sym (bit-field (field a p w) lsb width i below)
        ∙ sym (bit-field a p w (lsb + i) (omega arith))
        ∙ ap (bit a) (omega arith)
        ∙ bit-field a (p + lsb) width i below
    digit i (inr above) =
        bit_mod_above (field a p w / 2 ^ lsb) width i above
        ∙ sym (bit_mod_above (a / 2 ^ (p + lsb)) width i above)
