-- ===== src/Board/Clamp.antt =====
-- What one field of `write_cfg` does to the output clamp in the shadow, under `max_clamp`.
use Prim.Native.String.{String}
use mathlib.Core.Path.{subst}
use coil_servo.Base.{
  ℕ, ◌≡◌, ◌⊎◌, inl, inr, refl, sym, ◌∙◌, arith, Bool, true, false, ◌&&◌, Bool-cases, Option-cases,
  Option, none, some, err, Error,
}
use coil_servo.Base.Int.{ℤ, pos, negsuc, ◌≤ℤ◌, leb_ℤ}
use coil_servo.Base.Dict.{lookup, name_cases, str_eq_iff}
use coil_servo.Base.Bits.Fields.{field_clear_same, field_clear_other}
use coil_servo.Registers.{Field, place, cfg_fields}
use coil_servo.Registers.Apart.{cfg-IsApart}
use coil_servo.Registers.Encode.{low_bits, lo, hi, IsEncodable}
use coil_servo.Registers.Pack.{cfg_field}
use coil_servo.Registers.Updates.{read_field, IsKnown}
use coil_servo.Board.{stage_field, exceeds_clamp, cleared}
use coil_servo.Board.Stage.{IsAllowed, put, put_named, put_others, stage_field_known}
use coil_servo.Board.Failure.{IsMisfit, stage_field_misfit}

abbrev pub out_clamp : Field
out_clamp = record { word = 6; lsb = 0; width = 14; signed = false }

out_clamp_found : lookup "out_clamp" cfg_fields ≡ some out_clamp
unfolding cfg_fields
out_clamp_found = refl

pub IsEncodable-or :
    (v : ℤ) (width : ℕ) (signed : Bool) → IsEncodable v width signed ⊎ ¬ IsEncodable v width signed
IsEncodable-or v width signed =
    elim (Bool-cases (leb_ℤ (lo width signed) v && leb_ℤ v (hi width signed))) [
      | inl fits ↦ inl (ground arith)
      | inr bad ↦ inr (λ h. ground arith)
    ]

-- The field of the name "out_clamp".
clamp_field :
    (name : String) (f : Field)
    → name ≡ "out_clamp"
    → lookup name cfg_fields ≡ some f
    → out_clamp ≡ f
clamp_field name f same e =
    let e' : some out_clamp ≡ some f =
      sym out_clamp_found ∙ subst (λ s. lookup s cfg_fields ≡ some f) same e in
    cc

-- What the guard lets through.
allowed_le :
    (limit : ℤ) (name : String) (value : ℤ)
    → name ≡ "out_clamp"
    → IsAllowed (some limit) (name, value)
    → value ≤ℤ limit
unfolding exceeds_clamp
allowed_le limit name value same a = ground (arith, str_eq_iff name "out_clamp")

low_bits_clamped :
    (limit value : ℤ)
    → IsEncodable value 14 false
    → value ≤ℤ limit
    → pos (low_bits value 14) ≤ℤ limit
unfolding low_bits lo hi
low_bits_clamped limit (pos n) fits h = omega arith
low_bits_clamped limit (negsuc n) fits h = absurd (omega arith)

pub refused :
    (limit : Option ℤ) (cfg : ℕ) (name : String) (value : ℤ)
    → exceeds_clamp limit name value ≡ true
    → stage_field limit cfg name value ≡ (err Error.value_error, cfg)
unfolding stage_field
refused limit cfg name value over = rw over refl

pub unknown :
    (limit : Option ℤ) (cfg : ℕ) (name : String) (value : ℤ)
    → exceeds_clamp limit name value ≡ false
    → lookup name cfg_fields ≡ none
    → stage_field limit cfg name value ≡ (err Error.key_error, cfg)
unfolding stage_field cfg_field
unknown limit cfg name value allowed missing = rw (allowed, missing) refl

module _ (limit : ℤ) where
  -- The block's clamp is not above the limit.
  abbrev pub IsClamped : ℕ → Type 0
  IsClamped cfg = pos (read_field cfg out_clamp) ≤ℤ limit

  put-IsClamped :
      (cfg : ℕ) (name : String) (value : ℤ) (k : IsKnown (name, value))
      → IsAllowed (some limit) (name, value)
      → IsClamped cfg
      → IsClamped (put cfg name value k)
  put-IsClamped cfg name value k a h = elim (name_cases name "out_clamp") [
    | inl same ↦
        let same_field = clamp_field name k.in_field same k.found in
        let fits : IsEncodable value 14 false =
          subst (λ g. IsEncodable value g.width g.signed) (sym same_field) k.fits in
        let now : read_field (put cfg name value k) out_clamp ≡ low_bits value 14 =
          subst (λ g. read_field (put cfg name value k) g ≡ low_bits value g.width) (sym same_field)
            (put_named cfg name value k) in
        subst (λ r. pos r ≤ℤ limit) (sym now)
          (low_bits_clamped limit value fits (allowed_le limit name value same a))
    | inr ne ↦
        subst (λ r. pos r ≤ℤ limit)
          (sym (put_others cfg name value k "out_clamp" out_clamp ne out_clamp_found)) h
  ]

  cleared-IsClamped :
      (cfg : ℕ) (name : String) (f : Field)
      → lookup name cfg_fields ≡ some f
      → IsClamped cfg
      → IsClamped (cleared cfg f)
  cleared-IsClamped cfg name f e h = elim (name_cases name "out_clamp") [
    | inl same ↦
        let now : read_field (cleared cfg f) out_clamp ≡ 0 =
          subst (λ g. read_field (cleared cfg f) g ≡ 0) (sym (clamp_field name f same e))
            (field_clear_same cfg (place f) f.width) in
        subst (λ r. pos r ≤ℤ limit) (sym now) (omega arith)
    | inr ne ↦
        subst (λ r. pos r ≤ℤ limit)
          (sym (
            field_clear_other cfg (place f) f.width (place out_clamp) 14
              (cfg-IsApart name "out_clamp" f out_clamp ne e out_clamp_found)))
          h
  ]

  pub round-IsClamped :
      (cfg : ℕ) (name : String) (value : ℤ)
      → IsClamped cfg
      → IsClamped (stage_field (some limit) cfg name value).1
  round-IsClamped cfg name value h = elim (Bool-cases (exceeds_clamp (some limit) name value)) [
    | inl over ↦ subst (λ q. IsClamped q.1) (sym (refused (some limit) cfg name value over)) h
    | inr a ↦ elim (Option-cases (lookup name cfg_fields)) [
      | inl missing ↦
          subst (λ q. IsClamped q.1) (sym (unknown (some limit) cfg name value a missing)) h
      | inr (f, found) ↦ elim (IsEncodable-or value f.width f.signed) [
        | inl fits ↦
            let k : IsKnown (name, value) = record { in_field = f; found = found; fits = fits } in
            subst (λ q. IsClamped q.1) (sym (stage_field_known cfg name value k (some limit) a))
              (put-IsClamped cfg name value k a h)
        | inr bad ↦
            let x : IsMisfit (name, value) = record {
              in_field = f;
              found = found;
              too_big = bad;
            } in
            subst (λ q. IsClamped q.1) (sym (stage_field_misfit (some limit) cfg name value x a))
              (cleared-IsClamped cfg name f found h)
      ]
    ]
  ]
