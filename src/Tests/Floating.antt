-- ===== src/Tests/Floating.antt =====
-- Whole numbers in place of floats, and a channel over them.
use coil_servo.Base.{◌≡◌, arith, false, ok, err, Error}
use coil_servo.Base.Int.{ℤ, pos, ◌+ℤ◌, ◌-ℤ◌, ◌*ℤ◌, neg, abs_ℤ, ltb_ℤ, leb_ℤ, eqb_ℤ}
use coil_servo.Floats.{Floats}
use coil_servo.Channels.{Channel}

pub never_below : (x : ℤ) → ltb_ℤ x x ≡ false
never_below x = ground arith

abbrev pub whole : Floats
whole = record {
  Float = ℤ;
  add = λ x y. x +ℤ y;
  sub = λ x y. x -ℤ y;
  mul = λ x y. x *ℤ y;
  div = λ x y. x;
  minus = neg;
  lt = ltb_ℤ;
  le = leb_ℤ;
  eq = eqb_ℤ;
  of_ℕ = pos;
  of_ℤ = λ n. n;
  decimal = λ m k. pos m;
  magnitude = λ x. pos (abs_ℤ x);
  round = λ x. ok x;
  truncate = λ x. ok x;
  float_of_text = λ s. err Error.value_error;
  int_of_text = λ s. err Error.value_error;
  pi = pos 3;
  lt_irrefl = never_below;
}

abbrev pub coil : Channel whole
coil = record {
  name = "mot";
  l = pos 1;
  r_coil = pos 1;
  r_extra = pos 0;
  i_rated = pos 9;
  v_rail = pos 3;
  v_boost = pos 15;
  v_clamp = pos 30;
  v_ds_min = pos 0;
  i_fs = pos 10;
  g_pass = pos 2;
  g_clamp = pos 2;
  tau_inner = pos 1;
  clamp_is_voltage_mode = false;
}
