-- ===== src/Signal/Path.antt =====
-- The parts of the signal path put together: samples to decimated errors to outputs.
use coil_servo.Base.{
  ℕ, ◌+◌, ◌*◌, ◌≤◌, ◌<◌, ◌≡◌, ◌⊎◌, refl, arith, Bool, false, List, [], ◌∷◌, map, length, All, ok,
}
use coil_servo.Base.Int.{ℤ, pos, ◌≤ℤ◌, IsSigned, neg_parts, parts_disjoint}
use coil_servo.Signal.Decimator.{fresh, push_all}
use coil_servo.Signal.Decimator.Blocks.{
  IsFast, block_sums, leftover, push_all-block_sums, block_sums-IsSigned, length-block_sums,
}
use coil_servo.Signal.DriveFrame.{drive_frame_error, drive_frame_error-IsSigned}
use coil_servo.Signal.Pi.{FixedPi, run}
use coil_servo.Signal.Pi.Clamp.{IsWithin, IsValid, run-IsWithin}
use coil_servo.Signal.Mux.{output_mux_fixed, output_mux_exclusive}

-- What one fast clock tick sees.
pub record Sample : Type 0 where
  pub meas_code : ℤ
  pub in2_code : ℤ
  pub sp_reg : ℤ
  pub sp_source : Bool
  pub sp_force_zero : Bool
  pub polarity : Bool

-- All codes are 14-bit codes.
pub record IsCoded (s : Sample) : Type 0 where
  pub meas_fits : IsSigned 14 s.meas_code
  pub in2_fits : IsSigned 14 s.in2_code
  pub sp_fits : IsSigned 14 s.sp_reg

pub fast_error : Sample → ℤ
fast_error s =
    (drive_frame_error s.meas_code s.in2_code s.sp_reg s.sp_source s.sp_force_zero s.polarity).0

-- A controller whose clamp is a DAC code.
pub record IsBounded (c : FixedPi) : Type 0 where
  pub valid : IsValid c
  pub clamp_fits : c.clamp ≤ℤ pos 8191

-- Codes for the two DAC channels of which at most one drives.
abbrev pub IsExclusive : ℤ × ℤ → Type 0
IsExclusive (o1, o2) =
    (pos 0 ≤ℤ o1)
    × (o1 ≤ℤ pos 8191)
    × (pos 0 ≤ℤ o2)
    × (o2 ≤ℤ pos 8191)
    × ((o1 ≡ pos 0) ⊎ (o2 ≡ pos 0))

errors-IsFast : (ss : List Sample) → All IsCoded ss → IsFast (map fast_error ss)
unfolding fast_error
errors-IsFast [] h = tt
errors-IsFast (s ∷ ss) (h, hs) = (
  (drive_frame_error-IsSigned s.meas_code s.in2_code s.sp_reg s.sp_source s.sp_force_zero s.polarity
      h.meas_fits h.in2_fits h.sp_fits).0,
  errors-IsFast ss hs,
)

abbrev pub unheld : ℤ → ℤ × Bool
unheld e = (e, false)

unheld-IsSigned : (es : List ℤ) → All (IsSigned 22) es → All (λ e. IsSigned 22 e.0) (map unheld es)
unheld-IsSigned [] h = tt
unheld-IsSigned (e ∷ es) (h, hs) = (h, unheld-IsSigned es hs)

muxed-IsExclusive :
    (clamp deadband : ℤ) (us : List ℤ)
    → clamp ≤ℤ pos 8191
    → pos 0 ≤ℤ deadband
    → All (IsWithin clamp) us
    → All (λ u. IsExclusive (output_mux_fixed u deadband)) us
muxed-IsExclusive clamp deadband [] hc hd h = tt
muxed-IsExclusive clamp deadband (u ∷ us) hc hd (h, hs) = (
  output_mux_exclusive u deadband hd
      (omega (arith, neg_parts clamp, parts_disjoint u, parts_disjoint clamp)),
  muxed-IsExclusive clamp deadband us hc hd hs,
)

length-map : (f : ℤ → ℤ × Bool) (es : List ℤ) → length (map f es) ≡ length es
length-map f [] = refl
length-map f (e ∷ es) = omega (arith, length-map f es)

length-errors : (ss : List Sample) → length (map fast_error ss) ≡ length ss
length-errors [] = refl
length-errors (s ∷ ss) = omega (arith, length-errors ss)

-- From any run of samples in 14-bit codes, `n` whole blocks of 128 and less than one more, into a
-- controller whose clamp is a DAC code of zero or more and whose accumulator fits 48 bits, with a dead
-- band of zero or more: the decimator raises nothing and gives one error for each block; the controller raises nothing on
-- these and gives as many outputs; and for each of these the multiplexer drives at most one of
-- the two DAC channels, with codes from 0 to 8191.
pub path_total :
    (n : ℕ) (ss : List Sample) (c : FixedPi) (deadband : ℤ)
    → All IsCoded ss
    → 128 * n ≤ length ss
    → length ss < 128 * n + 128
    → IsBounded c
    → pos 0 ≤ℤ deadband
    → let es = map fast_error ss in
      (us : List ℤ) × (c' : FixedPi) × (push_all fresh es ≡ ok (block_sums n es, leftover n es))
      × (run c (map unheld (block_sums n es)) ≡ ok (us, c'))
      × (length us ≡ n)
      × All (λ u. IsExclusive (output_mux_fixed u deadband)) us
path_total n ss c deadband coded lo hi b hd =
    let es = map fast_error ss in
    let fast = errors-IsFast ss coded in
    let (us, c', ran, len, within, valid) =
      run-IsWithin c (map unheld (block_sums n es)) b.valid
        (unheld-IsSigned (block_sums n es) (block_sums-IsSigned n es fast)) in
    (
      us,
      c',
      push_all-block_sums n es fast (omega (arith, length-errors ss))
          (omega (arith, length-errors ss)),
      ran,
      omega (arith, length-map unheld (block_sums n es), length-block_sums n es),
      muxed-IsExclusive c.clamp deadband us b.clamp_fits hd within,
    )
