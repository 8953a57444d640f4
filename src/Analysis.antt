-- ===== src/Analysis.antt =====
-- model/coil_servo_model/analysis.py: settling metrics, margins and gain suggestions, and
-- `final_current` of loop.py. Complex numbers and the numerical library are a parameter.
pub mod Settling
use coil_servo.Base.{
  ℕ, zero, suc, ◌+◌, ◌-◌, Bool, true, false, not, ◌||◌, if◌then◌else◌, Option, none, some, List, [],
  ◌∷◌, map, length, get_elem?, Result, ok, err, Error, ◌>>=◌,
}
use coil_servo.Floats.{Floats, quotient}
use coil_servo.Channels.{Channel}
use coil_servo.Loop.{Point, t_s}

-- What the code uses of complex numbers and of numpy.
pub record Numerics (R : Floats) : Type 1 where
  pub Complex : Type 0
  pub real : R.Float → Complex
  -- `1j * w`.
  pub imaginary : R.Float → Complex
  pub plus : Complex → Complex → Complex
  pub times : Complex → Complex → Complex
  pub over : Complex → Complex → Complex
  pub negated : Complex → Complex
  pub exponential : Complex → Complex
  pub modulus : Complex → R.Float
  -- `np.degrees(np.angle(z))`.
  pub angle : Complex → R.Float
  -- `np.logspace(a, b, n)`, `np.log10(x)`, `10.0 ** x` and `np.interp(x, xs, ys)`.
  pub logspace : ℕ → ℕ → ℕ → List R.Float
  pub log10 : R.Float → R.Float
  pub power10 : R.Float → R.Float
  pub interp : R.Float → List R.Float → List R.Float → R.Float
  -- `np.sign(x)` and `np.max(xs)`, which refuses an empty array.
  pub sign : R.Float → R.Float
  pub maximum : List R.Float → Result R.Float

-- `xs[i]` and `xs[-1]`.
unfoldable pub at : {A : Type 0} → List A → ℕ → Result A
at xs i = elim (get_elem? xs i) [ none ↦ err Error.index_error | some x ↦ ok x ]

unfoldable pub last : {A : Type 0} → List A → Result A
last [] = err Error.index_error
last (x ∷ []) = ok x
last (x ∷ y ∷ xs) = last (y ∷ xs)

-- `np.where(flags)[0]`, its first and its last entry.
unfoldable pub first_true : List Bool → Option ℕ
first_true [] = none
first_true (true ∷ flags) = some 0
first_true (false ∷ flags) = elim (first_true flags) [ none ↦ none | some i ↦ some (suc i) ]

unfoldable pub last_true : List Bool → Option ℕ
last_true [] = none
last_true (flag ∷ flags) = elim (last_true flags) [
  | none ↦ if flag then some 0 else none
  | some i ↦ some (suc i)
]

-- No crossing, or one at the first frequency.
unfoldable pub crossing : Option ℕ → Result ℕ
crossing none = err Error.value_error
crossing (some zero) = err Error.value_error
crossing (some (suc i)) = ok (suc i)

module _ (R : Floats) where
  open R use {Float, add, sub, mul, div, lt, eq, of_ℕ, decimal, magnitude, pi}

  -- `SimResult.final_current`.
  unfoldable pub final_current : List (Point R) → Result Float
  unfolding last
  final_current points = last (map (λ p. p.i) points)

  -- `np.abs(np.asarray(I) - target) > band`.
  abbrev pub is_outside : Float → Float → Float → Bool
  is_outside target band x = lt band (magnitude (sub x target))

  unfoldable pub settling_time : List Float → List Float → Float → Float → Result (Option Float)
  unfolding last last_true at
  settling_time t currents target tol_frac = do
    let outside = map (is_outside target (mul (magnitude target) tol_frac)) currents
    ends_outside ← last outside
    if ends_outside then ok none else elim (last_true outside) [
      | none ↦ ok (some (of_ℕ 0))
      | some i ↦ (at t (i + 1) >>= λ x. ok (some x))
    ]

  module _ (N : Numerics R) where
    open N use {
      Complex, real, imaginary, plus, times, over, negated, exponential, modulus, angle, logspace,
      log10, power10, interp, sign, maximum,
    }

    unfoldable pub overshoot_frac : List Float → Float → Result Float
    overshoot_frac currents target =
        if eq target (of_ℕ 0)
        then ok (of_ℕ 0)
        else (maximum (map (λ x. mul (sign target) x) currents) >>= λ peak.
            let beyond = div (sub peak (magnitude target)) (magnitude target) in
            ok (if lt (of_ℕ 0) beyond then beyond else of_ℕ 0))

    -- `DIGITAL_DELAY`.
    abbrev pub digital_delay : Float
    digital_delay = decimal 36 7

    -- `open_loop` at one frequency, for the plant's gain `gain`.
    unfoldable pub loop_at : Float → Channel R → Float → Float → Float → Complex
    loop_at gain channel kp ki f =
        let s = imaginary (mul (mul (of_ℕ 2) pi) f) in
        let plant = over (real gain) (plus (real (of_ℕ 1)) (times s (real channel.tau_inner))) in
        let delay = exponential (times (negated s) (real digital_delay)) in
        let controller = plus (real kp) (over (real ki) s) in times (times controller plant) delay

    unfoldable pub open_loop : Channel R → Float → Float → List Float → Result (List Complex)
    unfolding loop_at
    open_loop channel kp ki f = do
      gain ← quotient R channel.g_pass channel.i_fs
      ok (map (loop_at gain channel kp ki) f)

    unfoldable pub crossover_and_margin : Channel R → Float → Float → Result (Float × Float)
    unfolding first_true crossing at open_loop
    crossover_and_margin channel kp ki = do
      let f = logspace 1 6 20000
      curve ← open_loop channel kp ki f
      let mag = map modulus curve
      i ← crossing (first_true (map (λ x. lt x (of_ℕ 1)) mag))
      m1 ← at mag i
      m0 ← at mag (i - 1)
      f1 ← at f i
      f0 ← at f (i - 1)
      let f_c = power10 (interp (of_ℕ 0) (log10 m1 ∷ log10 m0 ∷ []) (log10 f1 ∷ log10 f0 ∷ []))
      crossed ← open_loop channel kp ki (f_c ∷ [])
      here ← at crossed 0
      ok (f_c, add (of_ℕ 180) (angle here))

  unfoldable pub suggest_gains : Float → Float × Float
  suggest_gains f_c = (decimal 5 1, mul (mul (mul (mul (of_ℕ 2) pi) f_c) (decimal 8 1)) (t_s R))
