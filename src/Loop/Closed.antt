-- ===== src/Loop/Closed.antt =====
-- The closed loop with the fixed-point controller.
use mathlib.Core.Path.{subst}
use coil_servo.Base.{
  ℕ, zero, suc, ◌+◌, ◌≡◌, ◌⊎◌, inl, refl, sym, ap, ◌∙◌, false, Option, List, length, All, Result,
  ok, err, Error, ◌>>=◌,
}
use coil_servo.Base.Int.{ℤ, pos, ◌-ℤ◌, ◌<<ℤ◌, ◌≤ℤ◌}
use coil_servo.Floats.{Floats, quotient, quotient_lem, IsRounding, IsSound}
use coil_servo.Channels.{Channel}
use coil_servo.FloatModel.{plant_step}
use coil_servo.FloatModel.Bounds.{IsDriven, IsDivisible, plant_step_defined}
use coil_servo.Signal.Gain.{adc_quantize}
use coil_servo.Signal.Pi.{FixedPi, step, tick}
use coil_servo.Signal.Pi.Clamp.{IsWithin, step_of_signed, tick-IsWithin, tick_keeps_clamp}
use coil_servo.Signal.Mux.{output_mux_fixed}
use coil_servo.Signal.Path.{IsBounded}
use coil_servo.Loop.{
  t_s, Controller, fixed, Plant, Point, Setup, drive, drive_fixed, loop_tick, loop_from, rounds_of,
  plant_or_new, run_loop,
}
use coil_servo.Loop.Driving.{
  OrRounding, OrRounding-bind, adc_quantize-IsSigned, IsDriving, IsClamped, volts-IsDriven,
  scaled-IsSigned, tick-IsBounded, within-IsExclusive,
}

module _ (R : Floats) where
  open R use {Float, div, of_ℕ, of_ℤ, round, le}

  -- A round of the loop: the point that it records, and the objects after it.
  pub record IsSafe (ch : Channel R) (clamp : ℤ) (x : Point R × Controller R × Plant R)
      : Type 0 where
    pub controller : FixedPi
    pub next_fixed : x.1 ≡ fixed controller
    pub bounded : IsBounded controller
    pub same_clamp : controller.clamp ≡ clamp
    pub safe : IsClamped R clamp x.0
    pub same_channel : x.2.ch ≡ ch

  -- The points, and the controller at the end.
  pub record IsSafeRun (clamp : ℤ) (n : ℕ) (x : List (Point R) × Controller R × Plant R)
      : Type 0 where
    pub long : length x.0 ≡ n
    pub safe : All (IsClamped R clamp) x.0
    pub controller : FixedPi
    pub last_fixed : x.1 ≡ fixed controller
    pub bounded : IsBounded controller

  module _ (sound : IsSound R) (s : Setup R) (dead : pos 0 ≤ℤ s.deadband_counts)
      (scaled : R.eq s.channel.i_fs (of_ℕ 0) ≡ false) where
    -- A quotient by the full scale, and what follows it.
    per_scale :
        {B : Type 0} (Q : B → Type 0) (x : Float) (f : Float → Result B)
        → ((y : Float) → OrRounding R Q (f y))
        → OrRounding R Q (quotient R x s.channel.i_fs >>= f)
    per_scale Q x f k =
        OrRounding-bind R {P = λ y. Unit} Q (quotient R x s.channel.i_fs) f
          (inl (_, quotient_lem R x s.channel.i_fs scaled, tt)) (λ y u. k y)

    drive_fixed-IsDriving :
        (sp current : Float) (c : FixedPi)
        → IsBounded c
        → OrRounding R (IsDriving R c.clamp) (drive_fixed R s sp current c)
    unfolding drive_fixed
    drive_fixed-IsDriving sp current c h = per_scale (IsDriving R c.clamp) sp _ λ sp_norm.
        OrRounding-bind R (IsDriving R c.clamp) (adc_quantize R _) _
          (adc_quantize-IsSigned R sound sp_norm)
          λ a ha. per_scale (IsDriving R c.clamp) current _ λ current_norm.
            OrRounding-bind R (IsDriving R c.clamp) (adc_quantize R _) _
              (adc_quantize-IsSigned R sound current_norm)
              λ b hb.
                let e = (a -ℤ b) <<ℤ 7 in
                let u = (tick c e false).0 in
                let within = tick-IsWithin c e false h.valid.clamp_nonneg in
                let volts =
                  volts-IsDriven R sound (output_mux_fixed u s.deadband_counts)
                    (within-IsExclusive c.clamp s.deadband_counts u h.clamp_fits dead within) in
                OrRounding-bind R {P = λ x. x ≡ tick c e false} (IsDriving R c.clamp)
                  (step c e false) _
                  (inl (_, step_of_signed c e false (scaled-IsSigned a b ha hb), refl))
                  λ x same. inl (
                    _,
                    refl,
                    record {
                      controller = x.1;
                      next_fixed = refl;
                      bounded = subst IsBounded (ap (λ y. y.1) (sym same)) (tick-IsBounded c e h);
                      same_clamp = ap (λ y. y.1.clamp) same ∙ tick_keeps_clamp c e false;
                      code = x.0;
                      within = subst (λ y. IsWithin c.clamp y.0) (sym same) within;
                      u_code = refl;
                      driven =
                          subst
                            (λ y. IsDriven R (
                              div (of_ℤ (output_mux_fixed y.0 s.deadband_counts).0) (of_ℕ 8192),
                              div (of_ℤ (output_mux_fixed y.0 s.deadband_counts).1) (of_ℕ 8192),
                            ))
                            (sym same) volts.0;
                      exclusive =
                          subst
                            (λ y.
                              (div (of_ℤ (output_mux_fixed y.0 s.deadband_counts).0) (of_ℕ 8192)
                                ≡ of_ℕ 0)
                              ⊎ (div (of_ℤ (output_mux_fixed y.0 s.deadband_counts).1) (of_ℕ 8192)
                                  ≡ of_ℕ 0))
                            (sym same) volts.1;
                    },
                  )

    loop_tick-IsSafe :
        (k : ℕ) (c : FixedPi) (p : Plant R)
        → IsDivisible R p.ch s.substeps
        → IsBounded c
        → OrRounding R (IsSafe p.ch c.clamp) (loop_tick R s k (fixed c) p)
    unfolding loop_tick drive
    loop_tick-IsSafe k c p g h =
        OrRounding-bind R (IsSafe p.ch c.clamp) (drive_fixed R s _ p.current c) _
          (drive_fixed-IsDriving _ p.current c h)
          λ d good.
            let (end, ran) =
              plant_step_defined R p.ch p.current d.v1 d.v2 (s.boost_fn (R.mul (of_ℕ k) (t_s R)))
                (t_s R) s.substeps g good.driven in
            OrRounding-bind R {P = λ x. Unit} (IsSafe p.ch c.clamp)
              (plant_step R p.ch p.current d.v1 d.v2 (s.boost_fn (R.mul (of_ℕ k) (t_s R))) (t_s R)
                s.substeps)
              _ (inl (end, ran, tt))
              λ x u. inl (
                _,
                refl,
                record {
                  controller = good.controller;
                  next_fixed = good.next_fixed;
                  bounded = good.bounded;
                  same_clamp = good.same_clamp;
                  safe = record {
                    code = good.code;
                    within = good.within;
                    u_code = good.u_code;
                    exclusive = good.exclusive;
                  };
                  same_channel = refl;
                },
              )

    loop_from-IsSafe :
        (n k : ℕ) (c : FixedPi) (p : Plant R)
        → IsDivisible R p.ch s.substeps
        → IsBounded c
        → OrRounding R (IsSafeRun c.clamp n) (loop_from R s k n (fixed c) p)
    unfolding loop_from
    loop_from-IsSafe zero k c p g h =
        inl (
          _,
          refl,
          record { long = refl; safe = tt; controller = c; last_fixed = refl; bounded = h },
        )
    loop_from-IsSafe (suc n) k c p g h =
        OrRounding-bind R (IsSafeRun c.clamp (suc n)) (loop_tick R s k (fixed c) p) _
          (loop_tick-IsSafe k c p g h)
          λ x good.
            OrRounding-bind R {P = IsSafeRun c.clamp n} (IsSafeRun c.clamp (suc n))
              (loop_from R s (k + 1) n x.1 x.2) _
              (subst (λ y. OrRounding R (IsSafeRun c.clamp n) (loop_from R s (k + 1) n y x.2))
                (sym good.next_fixed)
                (subst
                  (λ m.
                    OrRounding R (IsSafeRun m n)
                      (loop_from R s (k + 1) n (fixed good.controller) x.2))
                  good.same_clamp
                  (loop_from-IsSafe n (k + 1) good.controller x.2
                    (subst (λ ch. IsDivisible R ch s.substeps) (sym good.same_channel) g)
                    good.bounded)))
              λ rest safe. inl (
                _,
                refl,
                record {
                  long = ap suc safe.long;
                  safe = (good.safe, safe.safe);
                  controller = safe.controller;
                  last_fixed = safe.last_fixed;
                  bounded = safe.bounded;
                },
              )

    -- The closed loop with a fixed-point controller whose clamp is a DAC code and whose accumulator
    -- fits 48 bits, a dead band of zero or more, and a full scale, an inductance, a time constant of
    -- the inner loop and a number of substeps that are not zero, for any setpoints, boost and current of
    -- the plant, and any number `n` of ticks of zero or more that the end time rounds to. Either the run
    -- returns one point for each tick: each with an output that is a code inside the clamp over 8192, and
    -- with one of the two commands at 0.0; or `round` met a NaN or an infinity. So no assertion of the
    -- controller or of the plant fails, and nothing is divided by zero.
    pub run_loop_safe :
        (c : FixedPi) (t_end : Float) (plant : Option (Plant R)) (n : ℕ)
        → IsDivisible R (plant_or_new R s.channel plant).ch s.substeps
        → IsBounded c
        → round (div t_end (t_s R)) ≡ ok (pos n)
        → ((x : List (Point R) × Controller R × Plant R) × (run_loop R s (fixed c) t_end plant
              ≡ ok x)
            × IsSafeRun c.clamp n x)
          ⊎ ((e : Error) × (run_loop R s (fixed c) t_end plant ≡ err e) × IsRounding R e)
    unfolding run_loop
    run_loop_safe c t_end plant n g h ticks =
        subst (OrRounding R (IsSafeRun c.clamp n))
          (sym (
            ap
              (λ (r : Result ℤ). r >>= λ rounds. rounds_of R rounds >>= λ m.
                loop_from R s 0 m (fixed c) (plant_or_new R s.channel plant))
              ticks))
          (loop_from-IsSafe n 0 c (plant_or_new R s.channel plant) g h)
