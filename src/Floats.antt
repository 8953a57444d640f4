-- ===== src/Floats.antt =====
-- Python's floats and the numbers that become floats. Their type and its operations are a parameter,
-- since their rounding is the machine's.
use Prim.Native.String.{String}
use coil_servo.Base.{ℕ, ◌≡◌, ◌⊎◌, refl, Bool, true, false, if◌then◌else◌, Result, ok, err, Error}
use coil_servo.Base.Int.{ℤ, pos, IsSigned}

-- What the code uses of floats. `div` is the quotient of numpy, and of Python by a
-- divisor that the code has tested or is a literal; `quotient` below is Python's `/`, which refuses a
-- zero.
pub record Floats : Type 1 where
  pub Float : Type 0
  pub add : Float → Float → Float
  pub sub : Float → Float → Float
  pub mul : Float → Float → Float
  pub div : Float → Float → Float
  pub minus : Float → Float
  pub lt : Float → Float → Bool
  pub le : Float → Float → Bool
  pub eq : Float → Float → Bool
  -- `float(n)`, and the literals: `decimal m k` is m / 10 ** k, `of_ℕ 8` is 8.0.
  pub of_ℕ : ℕ → Float
  pub of_ℤ : ℤ → Float
  pub decimal : ℕ → ℕ → Float
  -- `abs(x)`, and `round(x)` and `int(x)`, which refuse NaN and the infinities.
  pub magnitude : Float → Float
  pub round : Float → Result ℤ
  pub truncate : Float → Result ℤ
  -- `float(s)` and `int(s)` of a text.
  pub float_of_text : String → Result Float
  pub int_of_text : String → Result ℤ
  -- `math.pi`.
  pub pi : Float
  -- No float is below itself.
  pub lt_irrefl : (x : Float) → lt x x ≡ false

module _ (R : Floats) where
  open R use {Float, lt, le, eq, div, of_ℕ, of_ℤ, round}

  -- `x / y`.
  unfoldable pub quotient : Float → Float → Result Float
  quotient x y = if eq y (of_ℕ 0) then err Error.zero_division_error else ok (div x y)

  pub quotient_lem : (x y : Float) → eq y (of_ℕ 0) ≡ false → quotient x y ≡ ok (div x y)
  unfolding quotient
  quotient_lem x y h = rw h refl

  -- A float that compares with zero, so no NaN.
  abbrev pub IsOrdered : Float → Type 0
  IsOrdered x = (lt (of_ℕ 0) x ≡ true) ⊎ (le x (of_ℕ 0) ≡ true)

  -- The errors that `round` raises, on NaN and on the infinities.
  abbrev pub IsRounding : Error → Type 0
  IsRounding e = (e ≡ Error.value_error) ⊎ (e ≡ Error.overflow_error)

  -- What the closed loop relies on: 0.0 is not above zero, a DAC code divided by 8192.0 is no NaN and
  -- the code 0 gives 0.0, and `round` raises nothing but its two errors.
  pub record IsSound : Type 0 where
    pub le_zero : le (of_ℕ 0) (of_ℕ 0) ≡ true
    pub code_ordered : (n : ℤ) → IsSigned 14 n → IsOrdered (div (of_ℤ n) (of_ℕ 8192))
    pub code_zero : div (of_ℤ (pos 0)) (of_ℕ 8192) ≡ of_ℕ 0
    pub round_cases :
        (x : Float)
        → ((n : ℤ) × (round x ≡ ok n)) ⊎ ((e : Error) × (round x ≡ err e) × IsRounding e)
