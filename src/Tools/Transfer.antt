-- ===== src/Tools/Transfer.antt =====
-- `estimate_tf` of host/coil_servo_host/tf.py. The numerical library is a parameter.
use coil_servo.Base.{
  ℕ, suc, ◌+◌, ◌-◌, not, ◌&&◌, ◌||◌, if◌then◌else◌, ltb, leb, ◌==◌, Option, none, some, List, [],
  ◌∷◌, map, length, take, drop, get_elem?, Result, ok, err, guard, Error, ◌>>=◌, ◌>>◌,
}
use coil_servo.Base.Int.{ℤ, pos, negsuc, leb_ℤ}
use coil_servo.Floats.{Floats}

-- What the code uses of numpy.
pub record Numpy (R : Floats) : Type 1 where
  pub Complex : Type 0
  -- `x.mean()`, `np.abs(np.fft.rfft(x))`, `np.median(x)`, `np.argmax(x)` and `np.linspace(a, b, n)`.
  pub mean : List R.Float → R.Float
  pub spectrum : List R.Float → Result (List R.Float)
  pub median : List R.Float → R.Float
  pub argmax : List R.Float → Result ℕ
  pub linspace : R.Float → R.Float → ℕ → List R.Float
  -- `np.dot(x, np.exp(-2j * np.pi * f * np.arange(len(x)) / fs))`, from x, f and fs.
  pub correlate : List R.Float → R.Float → R.Float → Complex
  -- `z * 2 / m`, `z / w`, `abs(z)`, `math.degrees(math.atan2(z.imag, z.real))` and `np.floor(x)`.
  pub double_over : Complex → ℕ → Complex
  pub quotient : Complex → Complex → Complex
  pub modulus : Complex → R.Float
  pub degrees : Complex → R.Float
  pub floor : R.Float → R.Float

module _ (R : Floats) (N : Numpy R) where
  open R use {Float, add, sub, mul, div, minus, lt, le, eq, of_ℕ, of_ℤ, decimal, round, truncate}
  open N use {
    Complex, mean, spectrum, median, argmax, linspace, correlate, double_over, quotient, modulus,
    floor,
  }

  -- What `estimate_tf` returns: f0_hz, H_complex and stim_amplitude.
  pub record Estimate : Type 0 where
    pub f0 : Float
    pub h : Complex
    pub amp : Float

  -- Python's `max` and `min` of two.
  abbrev pub py_max : Float → Float → Float
  py_max a b = if lt a b then b else a

  abbrev pub py_min : Float → Float → Float
  py_min a b = if lt b a then b else a

  abbrev at : List Float → ℕ → Result Float
  at xs i = elim (get_elem? xs i) [ none ↦ err Error.index_error | some x ↦ ok x ]

  -- `spec[0] = 0.0`.
  abbrev silence : List Float → Result (List Float)
  silence [] = err Error.index_error
  silence (x ∷ xs) = ok (of_ℕ 0 ∷ xs)

  abbrev centred : List Float → List Float
  centred xs = map (λ x. sub x (mean xs)) xs

  -- The parabolic fit, from the magnitudes about the peak.
  unfoldable pub parabola : Float → Float → Float → Float
  parabola a b c =
      let denom = add (sub a (mul (of_ℕ 2) b)) c in
      let delta = if eq denom (of_ℕ 0) then of_ℕ 0 else div (mul (decimal 5 1) (sub a c)) denom in
      py_max (minus (of_ℕ 1)) (py_min (of_ℕ 1) delta)

  unfoldable pub refine : List Float → ℕ → Result Float
  unfolding parabola
  refine mags j =
      if leb 1 j && ltb j (length mags - 1)
      then (do a ← at mags (j - 1); b ← at mags j; c ← at mags (j + 1); ok (parabola a b c))
      else ok (of_ℕ 0)

  -- The refined frequency of the peak in bin `k`.
  unfoldable pub peak_frequency : List Float → ℕ → ℕ → Float → Result Float
  unfolding refine
  peak_frequency stim n k fs = do
    let f_lo = div (mul (py_max (of_ℕ (k - 1)) (decimal 5 1)) fs) (of_ℕ n)
    let f_hi = div (mul (of_ℕ (k + 1)) fs) (of_ℕ n)
    let fscan = linspace f_lo f_hi 41
    let mags = map (λ f. modulus (correlate stim f fs)) fscan
    j ← argmax mags
    delta ← refine mags j
    f ← at fscan j
    f1 ← at fscan 1
    f0 ← at fscan 0
    ok (add f (mul delta (sub f1 f0)))

  -- The two correlations over `m` samples; `np.dot` refuses lengths that differ.
  unfoldable pub correlate_both :
      List Float → List Float → Float → Float → ℕ → Result (Option Estimate)
  correlate_both stim resp f0 fs m = do
    guard (length (take m stim) == m && length (take m resp) == m) Error.value_error
    let s = double_over (correlate (take m stim) f0 fs) m
    let r = double_over (correlate (take m resp) f0 fs) m
    ok (
        if eq (modulus s) (of_ℕ 0)
        then none
        else some (record { f0 = f0; h = quotient r s; amp = modulus s }))

  -- `m` samples below zero: `np.arange(m)` is empty and `stim[:m]` lacks the last `-m`.
  abbrev from_end : ℕ → ℕ → Result (Option Estimate)
  from_end n k = if leb n (suc k) then ok none else err Error.value_error

  unfoldable pub over_samples :
      List Float → List Float → Float → Float → ℤ → Result (Option Estimate)
  unfolding correlate_both
  over_samples stim resp f0 fs (pos m) = correlate_both stim resp f0 fs m
  over_samples stim resp f0 fs (negsuc k) = from_end (length stim) k

  -- From the refined frequency on.
  unfoldable pub over_periods : List Float → List Float → Float → Float → Result (Option Estimate)
  unfolding over_samples
  over_periods stim resp f0 fs = do
    periods ← truncate (floor (div (mul (of_ℕ (length stim)) f0) fs))
    if not (leb_ℤ (pos 1) periods)
        then ok none
        else (do m ← round (div (mul (of_ℤ periods) fs) f0); over_samples stim resp f0 fs m)

  unfoldable pub estimate_tf : List Float → List Float → Float → Result (Option Estimate)
  unfolding peak_frequency over_periods
  estimate_tf stim resp fs = do
    let stim0 = centred stim
    let resp0 = centred resp
    raw_spec ← spectrum stim0
    spec ← silence raw_spec
    k ← argmax spec
    peak ← at spec k
    if k == 0 || lt peak (mul (of_ℕ 4) (median (drop 1 spec)))
        then ok none
        else (do f0 ← peak_frequency stim0 (length stim) k fs; over_periods stim0 resp0 f0 fs)
