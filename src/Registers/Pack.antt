-- ===== src/Registers/Pack.antt =====
-- `pack_cfg` and `cfg_words` of model/coil_servo_model/registers.py.
use Prim.Native.String.{String}
use Prim.Native.Nat.{bit_or}
use mathlib.Core.Path.{subst}
use coil_servo.Base.{
  ℕ, ◌*◌, ◌^◌, ◌≡◌, ◌≢◌, refl, if◌then◌else◌, ◌==◌, ap, sym, ◌∙◌, none, some, List, [], ◌∷◌, All,
  Result, ok, err, Error, ◌>>=◌,
}
use coil_servo.Base.Int.{ℤ}
use coil_servo.Base.Dict.{lookup, IsDistinct, lookup_self, lookup_ne}
use coil_servo.Base.Bits.Fields.{field, field_or_same, field_or_other, field_zero}
use coil_servo.Registers.{Field, place, cfg_fields}
use coil_servo.Registers.Encode.{encode, low_bits, encode_accepts, low_bits-lt, decode}
use coil_servo.Registers.Updates.{
  none≢some, read_field, IsKnown, Updates, extend-Updates, known_decodes,
}
use coil_servo.Registers.Apart.{cfg-IsApart}

-- `CFG_FIELDS[name]`.
unfoldable pub cfg_field : String → Result Field
cfg_field name = elim (lookup name cfg_fields) [ none ↦ err Error.key_error | some f ↦ ok f ]

pub cfg_field_found :
    (name : String) (f : Field) → lookup name cfg_fields ≡ some f → cfg_field name ≡ ok f
unfolding cfg_field
cfg_field_found name f e = rw (e, cfg_field) refl

-- The loop of `pack_cfg`, from a word on.
unfoldable pub pack_from : ℕ → List (String × ℤ) → Result ℕ
pack_from word [] = ok word
pack_from word ((name, value) ∷ fields) = do
  f ← cfg_field name
  raw ← encode value f.width f.signed
  pack_from (bit_or word (raw * 2 ^ place f)) fields

unfoldable pub pack_cfg : List (String × ℤ) → Result ℕ
unfolding pack_from
pack_cfg fields = pack_from 0 fields

-- `words[w] = value` on a dictionary with numbers for keys.
unfoldable pub set_word : ℕ → ℕ → List (ℕ × ℕ) → List (ℕ × ℕ)
set_word w value [] = (w, value) ∷ []
set_word w value ((j, old) ∷ words) =
    if j == w then (w, value) ∷ words else (j, old) ∷ set_word w value words

-- The loop of `cfg_words` over the names.
unfoldable pub collect_words : ℕ → List (String × ℤ) → List (ℕ × ℕ) → Result (List (ℕ × ℕ))
unfolding set_word
collect_words packed [] words = ok words
collect_words packed ((name, value) ∷ fields) words = do
  f ← cfg_field name
  collect_words packed fields (set_word f.word (field packed (32 * f.word) 32) words)

unfoldable pub cfg_words : List (String × ℤ) → Result (List (ℕ × ℕ))
unfolding pack_cfg collect_words
cfg_words fields = do packed ← pack_cfg fields; collect_words packed fields []

pack_from_step :
    (word : ℕ) (name : String) (value : ℤ) (fields : List (String × ℤ)) (k : IsKnown (name, value))
    → pack_from word ((name, value) ∷ fields)
      ≡ pack_from (bit_or word (low_bits value k.in_field.width * 2 ^ place k.in_field)) fields
unfolding pack_from
pack_from_step word name value fields k =
    rw
      (
        cfg_field_found name k.in_field k.found,
        encode_accepts value k.in_field.width k.in_field.signed k.fits,
      )
      refl

abbrev IsEmptyAt : ℕ → List (String × ℤ) → Type 0
IsEmptyAt word fields =
    (name : String) (f : Field) (value : ℤ)
    → lookup name cfg_fields ≡ some f
    → lookup name fields ≡ some value
    → read_field word f ≡ 0

-- One value goes into an empty field.
module _ (word : ℕ) (name : String) (value : ℤ) (fields : List (String × ℤ))
    (k : IsKnown (name, value)) where
  abbrev with_value : ℕ
  with_value = bit_or word (low_bits value k.in_field.width * 2 ^ place k.in_field)

  set_named :
      IsEmptyAt word ((name, value) ∷ fields)
      → read_field with_value k.in_field ≡ low_bits value k.in_field.width
  set_named empty =
      field_or_same word (low_bits value k.in_field.width) (place k.in_field) k.in_field.width
        (low_bits-lt value k.in_field.width)
        (empty name k.in_field value k.found (lookup_self name value fields))

  set_others :
      (other : String) (g : Field)
      → name ≢ other
      → lookup other cfg_fields ≡ some g
      → read_field with_value g ≡ read_field word g
  set_others other g ne e =
      field_or_other word (low_bits value k.in_field.width) (place k.in_field) k.in_field.width
        (place g) g.width (low_bits-lt value k.in_field.width)
        (cfg-IsApart name other k.in_field g ne k.found e)

  -- The fields that come later are still empty.
  still_empty :
      lookup name fields ≡ none
      → IsEmptyAt word ((name, value) ∷ fields)
      → IsEmptyAt with_value fields
  still_empty once empty other g v e h =
      let ne : name ≢ other =
        λ same. none≢some {a = v} once (subst (λ s. lookup s fields ≡ some v) (sym same) h) in
      set_others other g ne e ∙ empty other g v e (lookup_ne name other value fields ne ∙ h)

pack_from-Updates :
    (word : ℕ) (fields : List (String × ℤ))
    → IsDistinct fields
    → All IsKnown fields
    → IsEmptyAt word fields
    → (out : ℕ) × (pack_from word fields ≡ ok out) × Updates word out fields
pack_from-Updates word [] d k empty = (
  word,
  unfold pack_from in refl,
  record { named = λ name f value e h. cc; others = λ name f e h. refl },
)
pack_from-Updates word ((name, value) ∷ fields) (once, d) (k, ks) empty =
    let start = with_value word name value fields k in
    let (out, ran, rest) =
      pack_from-Updates start fields d ks (still_empty word name value fields k once empty) in
    (
      out,
      pack_from_step word name value fields k ∙ ran,
      extend-Updates word start out name value fields k (set_named word name value fields k empty)
          (set_others word name value fields k) once rest,
    )

-- With distinct names that the table has, and values that fit their fields, `pack_cfg` raises
-- nothing: every named field of the word decodes to its value, and every other field is zero.
pub pack_cfg_fields :
    (fields : List (String × ℤ))
    → IsDistinct fields
    → All IsKnown fields
    → (word : ℕ) × (pack_cfg fields ≡ ok word)
      × ((name : String) (f : Field) (value : ℤ)
          → lookup name cfg_fields ≡ some f
          → lookup name fields ≡ some value
          → decode (read_field word f) f.width f.signed ≡ value)
      × ((name : String) (f : Field)
          → lookup name cfg_fields ≡ some f
          → lookup name fields ≡ none
          → read_field word f ≡ 0)
unfolding pack_cfg
pack_cfg_fields fields d k =
    let (word, ran, u) =
      pack_from-Updates 0 fields d k (λ name f value e h. field_zero (place f) f.width) in
    (
      word,
      ran,
      λ name f value e h.
          ap (λ r. decode r f.width f.signed) (u.named name f value e h)
          ∙ known_decodes fields name value f k h e,
      λ name f e h. u.others name f e h ∙ field_zero (place f) f.width,
    )
