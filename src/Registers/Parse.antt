-- ===== src/Registers/Parse.antt =====
-- `parse_sts` of model/coil_servo_model/registers.py.
use Prim.Native.String.{String}
use mathlib.Core.Path.{subst}
use native.Mathlib.Nat.{one-le-pow, mod-lt}
use coil_servo.Base.{
  ℕ, zero, suc, ◌-◌, ◌%◌, ◌^◌, ◌<◌, ◌≡◌, refl, arith, false, sym, none, some, List, [], ◌∷◌,
  get_elem?, Result, ok, err, Error, ◌>>=◌,
}
use coil_servo.Base.Int.{ℤ}
use coil_servo.Base.Dict.{lookup}
use coil_servo.Base.Bits.Fields.{field}
use coil_servo.Registers.{Field, place, sts_fields, fsm_states}
use coil_servo.Registers.Encode.{encode, decode, low_bits, encode-decode}
use coil_servo.Registers.Apart.{IsPlaced, sts-IsPlaced}

-- `out[key]`, and `FSM_STATES[i]` for an index of zero or more; the missing ones raise.
abbrev pub item : String → List (String × ℤ) → Result ℤ
item key out = elim (lookup key out) [ none ↦ err Error.key_error | some v ↦ ok v ]

abbrev pub state_name : ℕ → Result String
state_name i = elim (get_elem? fsm_states i) [ none ↦ err Error.index_error | some s ↦ ok s ]

-- The loop of `parse_sts` over the table.
unfoldable pub parse_fields : ℕ → List (String × Field) → List (String × ℤ)
parse_fields sts [] = []
parse_fields sts ((name, f) ∷ table) =
    (name, decode (field sts (place f) f.width) f.width f.signed) ∷ parse_fields sts table

-- The named values, and `fsm_state_name` apart from them since it is a text.
unfoldable pub parse_sts : ℕ → Result (List (String × ℤ) × String)
unfolding parse_fields low_bits
parse_sts sts = do
  let out = parse_fields sts sts_fields
  state ← item "fsm_state" out
  name ← state_name (low_bits state 3)
  ok (out, name)

pub lookup-parse_fields :
    (sts : ℕ) (table : List (String × Field)) (name : String) (f : Field)
    → lookup name table ≡ some f
    → lookup name (parse_fields sts table)
      ≡ some (decode (field sts (place f) f.width) f.width f.signed)
unfolding parse_fields
lookup-parse_fields sts [] name f h = cc
lookup-parse_fields sts ((k, g) ∷ table) name f h =
    ground (arith, lookup-parse_fields sts table name f)

-- Eight names for three digits.
state_in_table : (i : ℕ) → i < 8 → (s : String) × (get_elem? fsm_states i ≡ some s)
state_in_table zero h = ("IDLE", refl)
state_in_table (suc zero) h = ("RUN", refl)
state_in_table (suc (suc zero)) h = ("RAMP_DOWN", refl)
state_in_table (suc (suc (suc zero))) h = ("DISABLE", refl)
state_in_table (suc (suc (suc (suc zero)))) h = ("FLIP", refl)
state_in_table (suc (suc (suc (suc (suc zero))))) h = ("ENABLE", refl)
state_in_table (suc (suc (suc (suc (suc (suc zero)))))) h = ("SETTLE", refl)
state_in_table (suc (suc (suc (suc (suc (suc (suc zero))))))) h = ("TIMEOUT_HOLD", refl)
state_in_table (suc (suc (suc (suc (suc (suc (suc (suc i)))))))) h = absurd (omega arith)

state_name_found : (i : ℕ) (s : String) → get_elem? fsm_states i ≡ some s → state_name i ≡ ok s
state_name_found i s h = rw (h, state_name) refl

-- The field of the state number, and the number that its value keeps.
fsm_state_field : Field
fsm_state_field = record { word = 0; lsb = 0; width = 4; signed = false }

fsm_state_found : lookup "fsm_state" sts_fields ≡ some fsm_state_field
unfolding sts_fields fsm_state_field
fsm_state_found = refl

fsm_state_low :
    (sts : ℕ)
    → low_bits
        (decode
          (field sts (place fsm_state_field) fsm_state_field.width)
          fsm_state_field.width
          fsm_state_field.signed)
        3
      ≡ sts % 8
unfolding low_bits decode fsm_state_field
fsm_state_low sts = omega arith

pub item_found :
    (key : String) (out : List (String × ℤ)) (v : ℤ) → lookup key out ≡ some v → item key out ≡ ok v
item_found key out v h = rw (h, item) refl

-- The width of a placed field, as a successor.
IsPlaced-width : (f : Field) → IsPlaced f → f.width ≡ suc (f.width - 1)
IsPlaced-width f h = omega arith

encode_parsed :
    (sts : ℕ) (key : String) (f : Field)
    → lookup key sts_fields ≡ some f
    → encode (decode (field sts (place f) f.width) f.width f.signed) f.width f.signed
      ≡ ok (field sts (place f) f.width)
encode_parsed sts key f h =
    let raw = field sts (place f) f.width in
    let width : f.width ≡ suc (f.width - 1) = IsPlaced-width f (sts-IsPlaced key f h) in
    let fits : raw < 2 ^ f.width = mod-lt _ (one-le-pow f.width 2 (omega arith)) in
    subst (λ w. encode (decode raw w f.signed) w f.signed ≡ ok raw) (sym width)
      (encode-decode raw (f.width - 1) f.signed (subst (λ w. raw < 2 ^ w) width fits))

-- Parsing never fails. For each status field it gives the one value whose encoding stands in the
-- field's digits, and the state's name is the entry of the table at the state number modulo 8.
pub parse_sts_total :
    (sts : ℕ)
    → (out : List (String × ℤ)) × (name : String) × (parse_sts sts ≡ ok (out, name))
      × ((key : String) (f : Field)
          → lookup key sts_fields ≡ some f
          → (v : ℤ) × (lookup key out ≡ some v)
            × (encode v f.width f.signed ≡ ok (field sts (place f) f.width)))
      × (get_elem? fsm_states (sts % 8) ≡ some name)
unfolding parse_sts
parse_sts_total sts =
    let out = parse_fields sts sts_fields in
    let (name, at) = state_in_table (sts % 8) (omega arith) in
    let state = lookup-parse_fields sts sts_fields "fsm_state" fsm_state_field fsm_state_found in
    (
      out,
      name,
      rw (item_found "fsm_state" out _ state, fsm_state_low sts, state_name_found (sts % 8) name at)
          refl,
      λ key f h. (_, lookup-parse_fields sts sts_fields key f h, encode_parsed sts key f h),
      at,
    )
