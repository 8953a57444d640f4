-- ===== src/Registers/Apart.antt =====
-- The register tables are well formed: every field fits its 32-bit word, and no two overlap.
use Prim.Native.String.{String}
use coil_servo.Base.{
  ◌+◌, ◌≤◌, ◌<◌, ◌≡◌, ◌≢◌, ◌⊎◌, refl, arith, Bool, true, ◌&&◌, ◌||◌, leb, ltb, some, List, [], ◌∷◌,
}
use coil_servo.Base.Dict.{lookup, str_eq_iff}
use coil_servo.Registers.{Field, place, cfg_fields, sts_fields}

-- Two fields share no digit of the block.
abbrev pub IsApart : Field → Field → Type 0
IsApart f g = (place f + f.width ≤ place g) ⊎ (place g + g.width ≤ place f)

-- A field of one digit or more that stands in one of the 16 words.
abbrev pub IsPlaced : Field → Type 0
IsPlaced f = (1 ≤ f.width) × (f.lsb + f.width ≤ 32) × (f.word < 16)

is_apart : Field → Field → Bool
is_apart f g = leb (place f + f.width) (place g) || leb (place g + g.width) (place f)

is_placed : Field → Bool
is_placed f = leb 1 f.width && leb (f.lsb + f.width) 32 && ltb f.word 16

apart_from : Field → List (String × Field) → Bool
apart_from f [] = true
apart_from f ((k, g) ∷ t) = is_apart f g && apart_from f t

well_formed : List (String × Field) → Bool
unfolding is_apart is_placed apart_from
well_formed [] = true
well_formed ((k, f) ∷ t) = is_placed f && apart_from f t && well_formed t

cfg_well_formed : well_formed cfg_fields ≡ true
unfolding well_formed cfg_fields
cfg_well_formed = refl

sts_well_formed : well_formed sts_fields ≡ true
unfolding well_formed sts_fields
sts_well_formed = refl

is_apart_sound : (f g : Field) → is_apart f g ≡ true → IsApart f g
unfolding is_apart
is_apart_sound f g h = ground arith

IsApart-symm : (f g : Field) → IsApart f g → IsApart g f
IsApart-symm f g h = omega arith

apart_from_sound :
    (f : Field) (t : List (String × Field)) (k : String) (g : Field)
    → apart_from f t ≡ true
    → lookup k t ≡ some g
    → IsApart f g
unfolding apart_from
apart_from_sound f [] k g h e = cc
apart_from_sound f ((j, g') ∷ t) k g h e =
    ground (arith, is_apart_sound f g', apart_from_sound f t k g)

well_formed-IsPlaced :
    (t : List (String × Field)) (k : String) (f : Field)
    → well_formed t ≡ true
    → lookup k t ≡ some f
    → IsPlaced f
unfolding well_formed
well_formed-IsPlaced [] k f h e = cc
well_formed-IsPlaced ((j, f') ∷ t) k f h e = ground (arith, well_formed-IsPlaced t k f)

well_formed-IsApart :
    (t : List (String × Field)) (j k : String) (f g : Field)
    → well_formed t ≡ true
    → j ≢ k
    → lookup j t ≡ some f
    → lookup k t ≡ some g
    → IsApart f g
unfolding well_formed
well_formed-IsApart [] j k f g h ne ef eg = cc
well_formed-IsApart ((i, f') ∷ t) j k f g h ne ef eg = ground (
  arith,
  apart_from_sound f' t k g,
  apart_from_sound f' t j f,
  well_formed-IsApart t j k f g,
  str_eq_iff i j,
  str_eq_iff i k,
)

-- Every configuration field has at least one digit, fits its 32-bit word, and stands in one of the
-- sixteen words of the block.
pub cfg-IsPlaced : (k : String) (f : Field) → lookup k cfg_fields ≡ some f → IsPlaced f
cfg-IsPlaced k f e = well_formed-IsPlaced cfg_fields k f cfg_well_formed e

-- Two configuration fields with different names share no digit of the block.
pub cfg-IsApart :
    (j k : String) (f g : Field)
    → j ≢ k
    → lookup j cfg_fields ≡ some f
    → lookup k cfg_fields ≡ some g
    → IsApart f g
cfg-IsApart j k f g ne ef eg = well_formed-IsApart cfg_fields j k f g cfg_well_formed ne ef eg

-- And so the status fields.
pub sts-IsPlaced : (k : String) (f : Field) → lookup k sts_fields ≡ some f → IsPlaced f
sts-IsPlaced k f e = well_formed-IsPlaced sts_fields k f sts_well_formed e

pub sts-IsApart :
    (j k : String) (f g : Field)
    → j ≢ k
    → lookup j sts_fields ≡ some f
    → lookup k sts_fields ≡ some g
    → IsApart f g
sts-IsApart j k f g ne ef eg = well_formed-IsApart sts_fields j k f g sts_well_formed ne ef eg
