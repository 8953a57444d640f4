-- ===== src/Registers/Updates.antt =====
-- What named values do to a block of registers, whichever way they get there.
use Prim.Native.String.{String}
use mathlib.Core.Path.{subst}
use coil_servo.Base.{
  ℕ, suc, ◌-◌, refl, [], All, ◌≡◌, ◌≢◌, inl, inr, sym, ◌∙◌, arith, Option, none, some, List, ◌∷◌,
}
use coil_servo.Base.Int.{ℤ}
use coil_servo.Base.Dict.{lookup, lookup_self, lookup_ne, name_cases}
use coil_servo.Base.Bits.Fields.{field}
use coil_servo.Registers.{Field, place, cfg_fields}
use coil_servo.Registers.Encode.{low_bits, decode, decode-encode, IsEncodable}
use coil_servo.Registers.Apart.{cfg-IsPlaced}

pub none≢some : {A : Type 0} {o : Option A} {a : A} → o ≡ none → o ≡ some a → ⊥
none≢some p q = cc

-- What a register field holds in a block.
abbrev pub read_field : ℕ → Field → ℕ
read_field block f = field block (place f) f.width

-- A named value that the table knows and whose field can hold it.
pub record IsKnown (e : String × ℤ) : Type 0 where
  pub in_field : Field
  pub found : lookup e.0 cfg_fields ≡ some in_field
  pub fits : IsEncodable e.1 in_field.width in_field.signed

-- What a block holds after named values have gone into a block before: the named fields the
-- values, all other fields what they held.
pub record Updates (before after : ℕ) (fields : List (String × ℤ)) : Type 0 where
  pub named :
      (name : String) (f : Field) (value : ℤ)
      → lookup name cfg_fields ≡ some f
      → lookup name fields ≡ some value
      → read_field after f ≡ low_bits value f.width
  pub others :
      (name : String) (f : Field)
      → lookup name cfg_fields ≡ some f
      → lookup name fields ≡ none
      → read_field after f ≡ read_field before f

-- What a field holds after a known value went in decodes to the value.
known_decode :
    (name : String) (value : ℤ) (k : IsKnown (name, value)) (f : Field)
    → lookup name cfg_fields ≡ some f
    → decode (low_bits value f.width) f.width f.signed ≡ value
known_decode name value k f e =
    let g = k.in_field in
    let width : g.width ≡ suc (g.width - 1) = omega (arith, cfg-IsPlaced name g k.found) in
    let same : g ≡ f = ground (arith, k.found) in
    let fits : IsEncodable value (suc (g.width - 1)) g.signed =
      subst (λ w. IsEncodable value w g.signed) width k.fits in
    subst (λ h. decode (low_bits value h.width) h.width h.signed ≡ value) same
      (subst (λ w. decode (low_bits value w) w g.signed ≡ value) (sym width)
        (decode-encode value (g.width - 1) g.signed fits))

pub known_decodes :
    (fields : List (String × ℤ)) (name : String) (value : ℤ) (f : Field)
    → All IsKnown fields
    → lookup name fields ≡ some value
    → lookup name cfg_fields ≡ some f
    → decode (low_bits value f.width) f.width f.signed ≡ value
known_decodes [] name value f k h e = absurd (none≢some {a = value} refl h)
known_decodes ((n, v) ∷ fields) name value f (k, ks) h e = elim (name_cases n name) [
  | inl same ↦
      let v' : some v ≡ some value =
        sym (lookup_self n v fields)
        ∙ subst (λ s. lookup s ((n, v) ∷ fields) ≡ some value) (sym same) h in
      let v≡ : v ≡ value = cc in
      subst (λ x. decode (low_bits x f.width) f.width f.signed ≡ x) v≡
        (known_decode n v k f (subst (λ s. lookup s cfg_fields ≡ some f) (sym same) e))
  | inr ne ↦ known_decodes fields name value f ks (sym (lookup_ne n name v fields ne) ∙ h) e
]

-- A value that a step puts into its own field, and that no later step touches.
module _ (before next out : ℕ) (name : String) (value : ℤ) (fields : List (String × ℤ))
    (k : IsKnown (name, value)) where
  pub extend-Updates :
      read_field next k.in_field ≡ low_bits value k.in_field.width
      → ((other : String) (g : Field)
          → name ≢ other
          → lookup other cfg_fields ≡ some g
          → read_field next g ≡ read_field before g)
      → lookup name fields ≡ none
      → Updates next out fields
      → Updates before out ((name, value) ∷ fields)
  extend-Updates set_named set_others once rest = record {
    named = λ other g v e h. elim (name_cases name other) [
      | inl same ↦
          ground (arith, rest.others name k.in_field k.found once, lookup_self name value fields)
      | inr ne ↦ rest.named other g v e (sym (lookup_ne name other value fields ne) ∙ h)
    ];
    others = λ other g e h. elim (name_cases name other) [
      | inl same ↦ absurd (
          none≢some {a = value} h (
            subst (λ s. lookup s ((name, value) ∷ fields) ≡ some value) same
              (lookup_self name value fields)))
      | inr ne ↦
          rest.others other g e (sym (lookup_ne name other value fields ne) ∙ h)
          ∙ set_others other g ne e
    ];
  }
