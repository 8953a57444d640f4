-- ===== src/Config/Rails.antt =====
-- What `load_channel` gives when it raises nothing: the fourteen fields of the keyword arguments, all
-- known to the register table and none twice, with the rails that it checks.
use Prim.Native.String.{String}
use mathlib.Core.Path.{subst}
use coil_servo.Base.{
  ◌≡◌, refl, sym, ◌∙◌, arith, Bool, true, false, ◌&&◌, guard, ◌>>◌, Error, some, List, [], ◌∷◌, All,
  Result, ok, err, ◌>>=◌, OnOk, map,
}
use coil_servo.Base.Int.{ℤ}
use coil_servo.Base.Dict.{lookup, IsDistinct}
use coil_servo.Floats.{Floats}
use coil_servo.Registers.{Field, cfg_fields}
use coil_servo.Config.{Toml, Table, ChannelConfig, cfg_of, check_rails, load_channel, float_at}

-- The names of `cfg`.
abbrev pub config_names : List String
config_names =
    "kp_mant" ∷ "kp_shift" ∷ "ki_mant" ∷ "ki_shift" ∷ "out_clamp" ∷ "deadband" ∷ "zero_win"
    ∷ "zero_holdoff" ∷ "deadtime" ∷ "settle" ∷ "flip_timeout" ∷ "dio_invert" ∷ "out2_invert"
    ∷ "boost_mode" ∷ []

abbrev pub names_of : List (String × ℤ) → List String
names_of fields = map (λ e. e.0) fields

abbrev pub IsField : String → Type 0
IsField name = (f : Field) × (lookup name cfg_fields ≡ some f)

pub config_names-IsField : All IsField config_names
unfolding cfg_fields
config_names-IsField = (
  (_, refl),
  (
    (_, refl),
    (
      (_, refl),
      (
        (_, refl),
        (
          (_, refl),
          (
            (_, refl),
            (
              (_, refl),
              (
                (_, refl),
                ((_, refl), ((_, refl), ((_, refl), ((_, refl), ((_, refl), ((_, refl), tt)))))),
              ),
            ),
          ),
        ),
      ),
    ),
  ),
)

module _ (R : Floats) where
  open R use {Float, lt, le, of_ℕ}

  abbrev pub IsComplete : List (String × ℤ) → Type 0
  IsComplete fields = (names_of fields ≡ config_names) × IsDistinct fields

  -- What a call gives, when it gives something, satisfies `P`.
  record Yields {A : Type 0} (P : A → Type 0) (m : Result A) : Type 0 where
    holds : OnOk P m

  Yields-bind :
      {A B : Type 0} {P : B → Type 0} (m : Result A) (f : A → Result B)
      → ((x : A) → m ≡ ok x → Yields P (f x))
      → Yields P (m >>= f)
  Yields-bind (ok x) f h = h x refl
  Yields-bind (err e) f h = record { holds = tt }

  complete :
      (v1 v2 v3 v4 v5 v6 v7 v8 v9 v10 v11 v12 v13 v14 : ℤ)
      → Yields IsComplete (
          ok (
            ("kp_mant", v1)
            ∷ ("kp_shift", v2)
            ∷ ("ki_mant", v3)
            ∷ ("ki_shift", v4)
            ∷ ("out_clamp", v5)
            ∷ ("deadband", v6)
            ∷ ("zero_win", v7)
            ∷ ("zero_holdoff", v8)
            ∷ ("deadtime", v9)
            ∷ ("settle", v10)
            ∷ ("flip_timeout", v11)
            ∷ ("dio_invert", v12)
            ∷ ("out2_invert", v13)
            ∷ ("boost_mode", v14)
            ∷ []))
  complete v1 v2 v3 v4 v5 v6 v7 v8 v9 v10 v11 v12 v13 v14 = record {
    holds = (
      refl,
      (
        refl,
        (
          refl,
          (
            refl,
            (
              refl,
              (refl, (refl, (refl, (refl, (refl, (refl, (refl, (refl, (refl, (refl, tt)))))))))),
            ),
          ),
        ),
      ),
    );
  }

  cfg_of-IsComplete : (table : Table R) (i_fs : Float) → Yields IsComplete (cfg_of R table i_fs)
  unfolding cfg_of
  cfg_of-IsComplete table i_fs = search (Yields-bind, complete) depth 24

  -- What the rails of `load_channel` promise, and the fields of the table's keyword arguments.
  pub record IsChannel (ch : ChannelConfig R) : Type 0 where
    pub complete_cfg : IsComplete ch.cfg
    pub above_zero : lt (of_ℕ 0) ch.i_rated ≡ true
    pub below_scale : le ch.i_rated ch.i_fs ≡ true

  passed :
      {A : Type 0} (b : Bool) (rest : Result A) (x : A)
      → (guard b Error.value_error >> rest) ≡ ok x
      → b ≡ true
  passed true rest x h = refl
  passed false rest x h = cc

  check_rails-holds :
      (table : Table R) (i_fs i_rated : Float) (u : Unit {0})
      → check_rails R table i_fs i_rated ≡ ok u
      → (lt (of_ℕ 0) i_rated ≡ true) × (le i_rated i_fs ≡ true)
  unfolding check_rails
  check_rails-holds table i_fs i_rated u h =
      let both : (lt (of_ℕ 0) i_rated && le i_rated i_fs) ≡ true =
        passed (lt (of_ℕ 0) i_rated && le i_rated i_fs) _ u h in
      ground (arith, both)

  loaded :
      (table : Table R) (i_fs i_rated rated : Float) (u : Unit {0}) (cfg : List (String × ℤ))
      (host : Toml R)
      → float_at R table "I_rated" ≡ ok i_rated
      → check_rails R table i_fs i_rated ≡ ok u
      → cfg_of R table i_fs ≡ ok cfg
      → float_at R table "I_rated" ≡ ok rated
      → Yields IsChannel (ok (record { host = host; i_fs = i_fs; i_rated = rated; cfg = cfg }))
  loaded table i_fs i_rated rated u cfg host first checked made again =
      let same : i_rated ≡ rated = let e = sym first ∙ again in cc in
      let rails = check_rails-holds table i_fs i_rated u checked in
      record {
        holds = record {
          complete_cfg = subst (OnOk IsComplete) made (cfg_of-IsComplete table i_fs).holds;
          above_zero = subst (λ r. lt (of_ℕ 0) r ≡ true) same rails.0;
          below_scale = subst (λ r. le r i_fs ≡ true) same rails.1;
        };
      }

  load_channel-Yields :
      (name : String) (file : Result (List (String × Table R)))
      → Yields IsChannel (load_channel R name file)
  unfolding load_channel
  load_channel-Yields name file = search (Yields-bind, loaded) depth 24

  -- A channel that `load_channel` gives names the fourteen fields in their order, none twice, and its
  -- rated current is above zero and not above full scale.
  pub load_channel-IsChannel :
      (name : String) (file : Result (List (String × Table R))) (ch : ChannelConfig R)
      → load_channel R name file ≡ ok ch
      → IsChannel ch
  load_channel-IsChannel name file ch h =
      subst (OnOk IsChannel) h (load_channel-Yields name file).holds
