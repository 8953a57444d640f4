-- ===== src/Hdl/Top/Config/Written.antt =====
-- The slices that the hardware takes are the fields that the host writes.
use Prim.Native.String.{String}
use native.Mathlib.Nat.{mod-eq_of_lt, one-le-pow, mod-lt}
use mathlib.Core.Path.{subst}
use coil_servo.Base.{
  ℕ, suc, ◌-◌, ◌/◌, ◌%◌, ◌^◌, ◌<◌, ◌≡◌, ◌≢◌, ◌∙◌, sym, ap, refl, arith, true, some, List, [], ◌∷◌,
  All, ◌==◌, bool_to_ℕ, ok,
}
use coil_servo.Base.Int.{ℤ, pos}
use coil_servo.Base.Dict.{lookup, IsDistinct, lookup_self, lookup_ne}
use coil_servo.Base.Bits.Fields.{field}
use coil_servo.Registers.{Field, cfg_fields}
use coil_servo.Registers.Encode.{decode, decode_lem, low_bits}
use coil_servo.Registers.Pack.{pack_cfg, pack_cfg_fields}
use coil_servo.Registers.Parse.{parse_fields, lookup-parse_fields}
use coil_servo.Registers.Updates.{IsKnown, none≢some}
use coil_servo.Hdl.Wires.{as_signed}
use coil_servo.Hdl.Top.Config.{CfgWires, wires, bit_at, signed_at}

-- The wires under the names of the register map.
abbrev pub wire_values : CfgWires → List (String × ℤ)
wire_values w =
    ("servo_enable", pos (bool_to_ℕ w.servo_enable))
    ∷ ("int_clear", pos (bool_to_ℕ w.int_clear_host))
    ∷ ("sp_source", pos (bool_to_ℕ w.sp_source))
    ∷ ("fifo_rst", pos (bool_to_ℕ w.fifo_rst))
    ∷ ("out2_invert", pos (bool_to_ℕ w.out2_invert))
    ∷ ("boost_mode", pos (bool_to_ℕ w.boost_mode))
    ∷ ("boost_manual", pos (bool_to_ℕ w.boost_manual))
    ∷ ("flip_fault_ack", pos (bool_to_ℕ w.flip_fault_ack))
    ∷ ("led", pos w.led_o)
    ∷ ("open_loop", pos (bool_to_ℕ w.open_loop))
    ∷ ("capture_sel", pos (bool_to_ℕ w.capture_sel))
    ∷ ("setpoint", w.sp_reg)
    ∷ ("kp_mant", w.kp_mant)
    ∷ ("kp_shift", pos w.kp_shift)
    ∷ ("ki_mant", w.ki_mant)
    ∷ ("ki_shift", pos w.ki_shift)
    ∷ ("out_clamp", pos w.out_clamp)
    ∷ ("deadband", pos w.deadband)
    ∷ ("zero_win", pos w.zero_win)
    ∷ ("zero_holdoff", pos w.zero_holdoff)
    ∷ ("deadtime", pos w.deadtime)
    ∷ ("settle", pos w.settle)
    ∷ ("flip_timeout", pos w.flip_timeout)
    ∷ ("dio_invert", pos w.dio_invert)
    ∷ []

bit_value : (word i : ℕ) → bool_to_ℕ (bit_at word i) ≡ field word i 1
bit_value word i = below_two (word / 2 ^ i)
  where
    below_two : (n : ℕ) → bool_to_ℕ ((n % 2) == 1) ≡ n % 2
    below_two n = ground arith

signed_value : (raw m : ℕ) → raw < 2 ^ suc m → as_signed (suc m) (pos raw) ≡ decode raw (suc m) true
unfolding as_signed low_bits
signed_value raw m h =
    let top : suc m - 1 ≡ m = omega arith in
    rw (mod-eq_of_lt h, decode_lem raw m true h, top) (ground arith)

slice_value :
    (word lo m : ℕ) → signed_at word lo (suc m) ≡ decode (field word lo (suc m)) (suc m) true
slice_value word lo m =
    signed_value (field word lo (suc m)) m (mod-lt _ (one-le-pow (suc m) 2 (omega arith)))

-- Every slice of the top is the field of the table, in place, width and sign.
wire_values-parse_fields : (word : ℕ) → wire_values (wires word) ≡ parse_fields word cfg_fields
unfolding wires parse_fields cfg_fields
wire_values-parse_fields word =
    rw
      (
        bit_value word 0,
        bit_value word 1,
        bit_value word 2,
        bit_value word 3,
        bit_value word 4,
        bit_value word 5,
        bit_value word 6,
        bit_value word 7,
        bit_value word 16,
        bit_value word 17,
        slice_value word 32 13,
        slice_value word 64 17,
        slice_value word 128 17,
      )
      (unfold decode in refl)

-- A named value that a wire carries.
abbrev pub IsCarried : List (String × ℤ) → String × ℤ → Type 0
IsCarried out entry = lookup entry.0 out ≡ some entry.1

-- From the lookups to the entries.
All-IsCarried :
    (out fields : List (String × ℤ))
    → IsDistinct fields
    → All IsKnown fields
    → ((name : String) (f : Field) (value : ℤ)
        → lookup name cfg_fields ≡ some f
        → lookup name fields ≡ some value
        → lookup name out ≡ some value)
    → All (IsCarried out) fields
All-IsCarried out [] d k g = tt
All-IsCarried out ((name, value) ∷ fields) (once, d) (k, ks) g = (
  g name k.in_field value k.found (lookup_self name value fields),
  All-IsCarried out fields d ks (λ other f v known given.
      let ne : name ≢ other =
        λ same. none≢some {a = v} once (subst (λ s. lookup s fields ≡ some v) (sym same) given) in
      g other f v known (lookup_ne name other value fields ne ∙ given)),
)

-- What `pack_cfg` makes of named values, with distinct names of the table and values that fit, is a
-- block from which the hardware takes each value for the wire of its name.
pub cfg_reaches_wires :
    (fields : List (String × ℤ))
    → IsDistinct fields
    → All IsKnown fields
    → (word : ℕ) × (pack_cfg fields ≡ ok word) × All (IsCarried (wire_values (wires word))) fields
cfg_reaches_wires fields d k =
    let (word, ran, named, others) = pack_cfg_fields fields d k in
    (
      word,
      ran,
      All-IsCarried (wire_values (wires word)) fields d k (λ name f value known given.
          ap (lookup name) (wire_values-parse_fields word)
          ∙ lookup-parse_fields word cfg_fields name f known
          ∙ ap some (named name f value known given)),
    )
