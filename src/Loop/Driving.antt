-- ===== src/Loop/Driving.antt =====
-- What the controller's half of a tick of the closed loop rests on: codes, volts and rounding.
use mathlib.Core.Path.{subst}
use coil_servo.Base.{
  ◌≡◌, ◌⊎◌, inl, inr, refl, sym, ap, ◌∙◌, arith, true, false, Result, ok, err, Error, ◌>>=◌,
}
use coil_servo.Base.Int.{
  ℤ, pos, ◌-ℤ◌, ◌<<ℤ◌, ◌≤ℤ◌, IsSigned, neg_parts, -ℤ_parts, <<ℤ_parts, parts_disjoint,
}
use coil_servo.Floats.{Floats, IsOrdered, IsRounding, IsSound}
use coil_servo.FloatModel.Bounds.{IsDriven}
use coil_servo.Signal.Sat.{sat, sat-IsSigned}
use coil_servo.Signal.Gain.{adc_quantize}
use coil_servo.Signal.Pi.{FixedPi, tick}
use coil_servo.Signal.Pi.Clamp.{IsWithin, tick-IsValid, tick_keeps_clamp}
use coil_servo.Signal.Mux.{output_mux_fixed, output_mux_exclusive}
use coil_servo.Signal.Path.{IsBounded, IsExclusive}
use coil_servo.Loop.{fixed, Point, Drive}

-- The difference of two codes, scaled by the decimation ratio, is an error that `step` takes.
pub scaled-IsSigned : (a b : ℤ) → IsSigned 14 a → IsSigned 14 b → IsSigned 22 ((a -ℤ b) <<ℤ 7)
scaled-IsSigned a b ha hb = omega (
  arith,
  -ℤ_parts a b,
  <<ℤ_parts (a -ℤ b) 7,
  parts_disjoint a,
  parts_disjoint b,
  parts_disjoint (a -ℤ b),
)

pub tick-IsBounded : (c : FixedPi) (e : ℤ) → IsBounded c → IsBounded (tick c e false).1
tick-IsBounded c e h = record {
  valid = tick-IsValid c e false h.valid;
  clamp_fits = subst (λ k. k ≤ℤ pos 8191) (sym (tick_keeps_clamp c e false)) h.clamp_fits;
}

pub within-IsExclusive :
    (clamp deadband u : ℤ)
    → clamp ≤ℤ pos 8191
    → pos 0 ≤ℤ deadband
    → IsWithin clamp u
    → IsExclusive (output_mux_fixed u deadband)
within-IsExclusive clamp deadband u hc hd h =
    output_mux_exclusive u deadband hd
      (omega (arith, neg_parts clamp, parts_disjoint u, parts_disjoint clamp))

module _ (R : Floats) where
  open R use {Float, div, of_ℕ, of_ℤ, round, le}

  -- A value with a property, or one of the errors of `round`.
  abbrev pub OrRounding : {A : Type 0} → (A → Type 0) → Result A → Type 0
  OrRounding {A} P r = ((a : A) × (r ≡ ok a) × P a) ⊎ ((e : Error) × (r ≡ err e) × IsRounding R e)

  pub OrRounding-bind :
      {A B : Type 0} {P : A → Type 0} (Q : B → Type 0) (m : Result A) (f : A → Result B)
      → OrRounding P m
      → ((a : A) → P a → OrRounding Q (f a))
      → OrRounding Q (m >>= f)
  OrRounding-bind Q m f (inl (a, e, h)) k = subst (OrRounding Q) (ap (λ r. r >>= f) (sym e)) (k a h)
  OrRounding-bind Q m f (inr (x, e, h)) k = inr (x, ap (λ r. r >>= f) e, h)

  pub rounded :
      (x : Float)
      → ((n : ℤ) × (round x ≡ ok n)) ⊎ ((e : Error) × (round x ≡ err e) × IsRounding R e)
      → OrRounding (λ n. Unit) (round x)
  rounded x (inl (n, e)) = inl (n, e, tt)
  rounded x (inr h) = inr h

  pub adc_quantize-IsSigned : IsSound R → (x : Float) → OrRounding (IsSigned 14) (adc_quantize R x)
  unfolding adc_quantize
  adc_quantize-IsSigned sound x =
      let value = R.mul x (of_ℕ 8192) in
      OrRounding-bind {P = λ n. Unit} (IsSigned 14) (round value) (λ code. ok (sat code 14))
        (rounded value (sound.round_cases value)) (λ n u. inl (sat n 14, refl, sat-IsSigned n 14))

  -- What a tick of the controller's half gives.
  pub record IsDriving (clamp : ℤ) (d : Drive R) : Type 0 where
    pub controller : FixedPi
    pub next_fixed : d.next ≡ fixed controller
    pub bounded : IsBounded controller
    pub same_clamp : controller.clamp ≡ clamp
    pub code : ℤ
    pub within : IsWithin clamp code
    pub u_code : d.u_norm ≡ div (of_ℤ code) (of_ℕ 8192)
    pub driven : IsDriven R (d.v1, d.v2)
    pub exclusive : (d.v1 ≡ of_ℕ 0) ⊎ (d.v2 ≡ of_ℕ 0)

  -- A recorded point: an output inside the clamp, and one command at zero.
  pub record IsClamped (clamp : ℤ) (x : Point R) : Type 0 where
    pub code : ℤ
    pub within : IsWithin clamp code
    pub u_code : x.u ≡ div (of_ℤ code) (of_ℕ 8192)
    pub exclusive : (x.v1 ≡ of_ℕ 0) ⊎ (x.v2 ≡ of_ℕ 0)

  -- A code of zero or more as volts.
  pub volts-IsOrdered :
      IsSound R → (n : ℤ) → n ≤ℤ pos 8191 → pos 0 ≤ℤ n → IsOrdered R (div (of_ℤ n) (of_ℕ 8192))
  volts-IsOrdered sound n h k = sound.code_ordered n (omega (arith, parts_disjoint n))

  pub volts_zero : IsSound R → (n : ℤ) → n ≡ pos 0 → div (of_ℤ n) (of_ℕ 8192) ≡ of_ℕ 0
  volts_zero sound n e = ap (λ x. div (of_ℤ x) (of_ℕ 8192)) e ∙ sound.code_zero

  pub volts-IsDriven :
      IsSound R
      → (o : ℤ × ℤ) → IsExclusive o
      → IsDriven R (div (of_ℤ o.0) (of_ℕ 8192), div (of_ℤ o.1) (of_ℕ 8192))
        × ((div (of_ℤ o.0) (of_ℕ 8192) ≡ of_ℕ 0) ⊎ (div (of_ℤ o.1) (of_ℕ 8192) ≡ of_ℕ 0))
  volts-IsDriven sound (o1, o2) (low1, high1, low2, high2, inl off) =
      let zero : div (of_ℤ o1) (of_ℕ 8192) ≡ of_ℕ 0 = volts_zero sound o1 off in
      (
        inr (
          subst (λ x. le x (of_ℕ 0) ≡ true) (sym zero) sound.le_zero,
          volts-IsOrdered sound o2 high2 low2,
        ),
        inl zero,
      )
  volts-IsDriven sound (o1, o2) (low1, high1, low2, high2, inr off) =
      let zero : div (of_ℤ o2) (of_ℕ 8192) ≡ of_ℕ 0 = volts_zero sound o2 off in
      (
        inl (
          subst (λ x. le x (of_ℕ 0) ≡ true) (sym zero) sound.le_zero,
          volts-IsOrdered sound o1 high1 low1,
        ),
        inr zero,
      )
