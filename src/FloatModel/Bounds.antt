-- ===== src/FloatModel/Bounds.antt =====
-- The clamp of the float controller, and the multiplexer in front of the plant.
use coil_servo.Base.{
  ℕ, zero, suc, ◌≡◌, ◌⊎◌, inl, inr, refl, ap, ◌∙◌, arith, Bool, true, false, Bool-cases, ◌&&◌,
  if◌then◌else◌, Result, ok, err, Error, ◌>>=◌,
}
use coil_servo.FloatModel.{
  clip, FloatPi, step_float, output_mux, decay, pass_slope, sink_slope, clamp_slope, slope,
  substeps_from, plant_step,
}
use coil_servo.Floats.{Floats, IsOrdered, quotient, quotient_lem}
use coil_servo.Channels.{Channel}

module _ (R : Floats) where
  open R use {Float, minus, lt, le, eq, of_ℕ, lt_irrefl}

  clip_within :
      (x low high : Float)
      → lt high low ≡ false
      → (lt (clip R x low high) low ≡ false) × (lt high (clip R x low high) ≡ false)
  unfolding clip
  clip_within x low high h = elim (Bool-cases (lt x low)) [
    | inl below ↦ rw below (lt_irrefl low, h)
    | inr fine ↦ elim (Bool-cases (lt high x)) [
      | inl above ↦ rw (fine, above) (h, lt_irrefl high)
      | inr inside ↦ rw (fine, inside) (fine, inside)
    ]
  ]

  -- With a clamp that is not below its negative, the output of a tick of the float controller is
  -- neither below the negative of the clamp nor above it, whatever the error, the gains and the
  -- integrator are.
  pub step_float_clamped :
      (c : FloatPi R) (e : Float) (hold : Bool)
      → lt c.clamp (minus c.clamp) ≡ false
      → (lt (step_float R c e hold).0 (minus c.clamp) ≡ false)
        × (lt c.clamp (step_float R c e hold).0 ≡ false)
  unfolding step_float
  step_float_clamped c e hold h = clip_within _ (minus c.clamp) c.clamp h

  -- One of the two commands is not above zero, and the other compares with zero.
  abbrev pub IsDriven : Float × Float → Type 0
  IsDriven (v1, v2) =
      ((le v2 (of_ℕ 0) ≡ true) × IsOrdered R v1) ⊎ ((le v1 (of_ℕ 0) ≡ true) × IsOrdered R v2)

  -- What `Plant.step` divides by is not zero.
  pub record IsDivisible (ch : Channel R) (substeps : ℕ) : Type 0 where
    pub inductive : eq ch.l (of_ℕ 0) ≡ false
    pub inert : eq ch.tau_inner (of_ℕ 0) ≡ false
    pub stepped : eq (of_ℕ substeps) (of_ℕ 0) ≡ false

  abbrev Defined : Result Float → Type 0
  Defined r = (d : Float) × (r ≡ ok d)

  quotient-Defined : (x y : Float) → eq y (of_ℕ 0) ≡ false → Defined (quotient R x y)
  quotient-Defined x y h = (_, quotient_lem R x y h)

  Defined-bind :
      (m : Result Float) (f : Float → Result Float)
      → Defined m
      → ((x : Float) → Defined (f x))
      → Defined (m >>= f)
  Defined-bind m f (x, e) k = let (y, e') = k x in (y, ap (λ r. r >>= f) e ∙ e')

  module _ (ch : Channel R) (substeps : ℕ) (g : IsDivisible ch substeps) where
    decay-Defined : (current : Float) → Defined (decay R ch current)
    decay-Defined current = quotient-Defined _ ch.l g.inductive

    pass_slope-Defined :
        (v_avail v_out1 current : Float) → Defined (pass_slope R ch v_avail v_out1 current)
    unfolding pass_slope
    pass_slope-Defined v_avail v_out1 current =
        Defined-bind _ _ (quotient-Defined _ ch.tau_inner g.inert) λ wanted.
          Defined-bind _ _ (quotient-Defined _ ch.l g.inductive)
            λ limit. Defined-bind _ _ (decay-Defined current) λ passive. (_, refl)

    sink_slope-Defined : (v_out2 current : Float) → Defined (sink_slope R ch v_out2 current)
    unfolding sink_slope
    sink_slope-Defined v_out2 current =
        Defined-bind _ _ (quotient-Defined _ ch.tau_inner g.inert) λ wanted.
          Defined-bind _ _ (quotient-Defined _ ch.l g.inductive)
            λ limit. Defined-bind _ _ (decay-Defined current) λ passive. (_, refl)

    clamp_slope-Defined : (v_out2 current : Float) → Defined (clamp_slope R ch v_out2 current)
    unfolding clamp_slope
    clamp_slope-Defined v_out2 current = elim (Bool-cases ch.clamp_is_voltage_mode) [
      | inl volts ↦ rw volts (quotient-Defined _ ch.l g.inductive)
      | inr amps ↦ simp amps (sink_slope-Defined v_out2 current)
    ]

  slope_defined :
      (ch : Channel R) (substeps : ℕ) (v_avail current v1 v2 : Float)
      → IsDivisible ch substeps
      → IsDriven (v1, v2)
      → (d : Float) × (slope R ch v_avail v1 v2 current ≡ ok d)
  unfolding slope
  slope_defined ch substeps v_avail current v1 v2 g h =
      pick (lt (of_ℕ 0) v1) (le v2 (of_ℕ 0)) (lt (of_ℕ 0) v2) (le v1 (of_ℕ 0)) _ _ _ _
        (pass_slope-Defined ch substeps g v_avail v1 current)
        (clamp_slope-Defined ch substeps g v2 current) (decay-Defined ch substeps g current) h
    where
      pick :
          (a b c d : Bool) (x y z : Result Float) (e : Error)
          → Defined x
          → Defined y
          → Defined z
          → ((b ≡ true) × ((a ≡ true) ⊎ (d ≡ true))) ⊎ ((d ≡ true) × ((c ≡ true) ⊎ (b ≡ true)))
          → (r : Float) × ((if a && b then x else if c && d then y else if d && b then z else err e)
              ≡ ok r)
      pick true true c d x y z e hx hy hz h = hx
      pick true false true true x y z e hx hy hz h = hy
      pick true false true false x y z e hx hy hz h = absurd (ground arith)
      pick true false false d x y z e hx hy hz h = absurd (ground arith)
      pick false b true true x y z e hx hy hz h = hy
      pick false true true false x y z e hx hy hz h = absurd (ground arith)
      pick false false true false x y z e hx hy hz h = absurd (ground arith)
      pick false true false true x y z e hx hy hz h = hz
      pick false true false false x y z e hx hy hz h = absurd (ground arith)
      pick false false false d x y z e hx hy hz h = absurd (ground arith)

  substeps_defined :
      (ch : Channel R) (substeps : ℕ) (v_avail h v1 v2 : Float) (n : ℕ) (current : Float)
      → IsDivisible ch substeps
      → IsDriven (v1, v2)
      → (end : Float) × (substeps_from R ch v_avail h v1 v2 n current ≡ ok end)
  unfolding substeps_from
  substeps_defined ch substeps v_avail h v1 v2 zero current g driven = (current, refl)
  substeps_defined ch substeps v_avail h v1 v2 (suc n) current g driven =
      Defined-bind (slope R ch v_avail v1 v2 current) _
        (slope_defined ch substeps v_avail current v1 v2 g driven)
        λ d. substeps_defined ch substeps v_avail h v1 v2 n (R.add current (R.mul h d)) g driven

  mux-IsDriven :
      (u deadband : Float)
      → le (of_ℕ 0) (of_ℕ 0) ≡ true
      → IsOrdered R u
      → IsOrdered R (minus u)
      → IsDriven (output_mux R u deadband)
  unfolding output_mux
  mux-IsDriven u deadband z hu hm = elim (Bool-cases (lt deadband u)) [
    | inl above ↦ rw above (inl (z, hu))
    | inr other ↦ elim (Bool-cases (lt u (minus deadband))) [
      | inl below ↦ rw (other, below) (inr (z, hm))
      | inr dead ↦ rw (other, dead) (inl (z, inr z))
    ]
  ]

  pub plant_step_defined :
      (ch : Channel R) (current v1 v2 : Float) (boost : Bool) (dt : Float) (substeps : ℕ)
      → IsDivisible ch substeps
      → IsDriven (v1, v2)
      → (end : Float) × (plant_step R ch current v1 v2 boost dt substeps ≡ ok end)
  unfolding plant_step
  plant_step_defined ch current v1 v2 boost dt substeps g h =
      Defined-bind (quotient R dt (of_ℕ substeps)) _ (quotient-Defined dt (of_ℕ substeps) g.stepped)
        λ small. substeps_defined ch substeps _ small v1 v2 substeps current g h

  -- The plant behind the multiplexer: for an output that compares with zero, as does its negative,
  -- the plant's assertion that only one stage is driven holds in every substep, for any rail and
  -- step, and a channel and a number of substeps that it can divide by.
  pub plant_step-output_mux :
      (ch : Channel R) (current u deadband : Float) (boost : Bool) (dt : Float) (substeps : ℕ)
      → IsDivisible ch substeps
      → le (of_ℕ 0) (of_ℕ 0) ≡ true
      → IsOrdered R u
      → IsOrdered R (minus u)
      → let (v1, v2) = output_mux R u deadband in
        (end : Float) × (plant_step R ch current v1 v2 boost dt substeps ≡ ok end)
  plant_step-output_mux ch current u deadband boost dt substeps g z hu hm =
      plant_step_defined ch current (output_mux R u deadband).0 (output_mux R u deadband).1 boost dt
        substeps g (mux-IsDriven u deadband z hu hm)
