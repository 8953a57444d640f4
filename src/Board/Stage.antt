-- ===== src/Board/Stage.antt =====
-- The first half of `write_cfg`: the loop over the named values, which changes only the shadow.
use Prim.Native.String.{String}
use Prim.Native.Nat.{bit_or}
use coil_servo.Base.{
  ℕ, ◌+◌, ◌*◌, ◌^◌, ◌≤◌, ◌<◌, ◌≡◌, ◌≢◌, ◌⊎◌, refl, sym, ap, ◌∙◌, arith, Bool, false, ◌||◌, ◌==◌,
  Option, some, List, [], ◌∷◌, All, Result, ok, err,
}
use coil_servo.Base.Int.{ℤ}
use coil_servo.Base.Dict.{lookup, IsDistinct}
use coil_servo.Base.Bits.Fields.{
  field, field_or_same, field_or_other, field_clear_same, field_clear_other,
}
use coil_servo.Registers.{Field, place, cfg_fields}
use coil_servo.Registers.Apart.{cfg-IsPlaced, cfg-IsApart}
use coil_servo.Registers.Encode.{low_bits, low_bits-lt, encode_accepts}
use coil_servo.Registers.Pack.{cfg_field_found}
use coil_servo.Registers.Updates.{read_field, IsKnown, Updates, extend-Updates}
use coil_servo.Board.{exceeds_clamp, add_word, cleared, stage_field, stage}

abbrev pub contains : ℕ → List ℕ → Bool
contains j [] = false
contains j (w ∷ ws) = (j == w) || contains j ws

pub contains-add_word :
    (j w : ℕ) (ws : List ℕ) → contains j (add_word w ws) ≡ ((j == w) || contains j ws)
unfolding add_word
contains-add_word j w [] = refl
contains-add_word j w (v ∷ vs) = ground (arith, contains-add_word j w vs)

abbrev pub IsInBlock : List ℕ → Type 0
IsInBlock = All (λ w. w < 16)

pub add_word-IsInBlock : (w : ℕ) (ws : List ℕ) → w < 16 → IsInBlock ws → IsInBlock (add_word w ws)
unfolding add_word
add_word-IsInBlock w [] h hs = (h, tt)
add_word-IsInBlock w (v ∷ vs) h hs = ground (arith, add_word-IsInBlock w vs h hs.1)

-- No value is refused by the guard on `out_clamp`.
abbrev pub IsAllowed : Option ℤ → String × ℤ → Type 0
IsAllowed limit e = exceeds_clamp limit e.0 e.1 ≡ false

-- One value that the table knows.
module _ (cfg : ℕ) (name : String) (value : ℤ) (k : IsKnown (name, value)) where
  abbrev pub put : ℕ
  put = bit_or (cleared cfg k.in_field) (low_bits value k.in_field.width * 2 ^ place k.in_field)

  pub put_named : read_field put k.in_field ≡ low_bits value k.in_field.width
  put_named =
      field_or_same (cleared cfg k.in_field) (low_bits value k.in_field.width) (place k.in_field)
        k.in_field.width (low_bits-lt value k.in_field.width)
        (field_clear_same cfg (place k.in_field) k.in_field.width)

  -- A run of digits that the field does not overlap.
  pub put_apart :
      (q u : ℕ)
      → (place k.in_field + k.in_field.width ≤ q) ⊎ (q + u ≤ place k.in_field)
      → field put q u ≡ field cfg q u
  put_apart q u apart =
      field_or_other (cleared cfg k.in_field) (low_bits value k.in_field.width) (place k.in_field)
        k.in_field.width q u (low_bits-lt value k.in_field.width) apart
      ∙ field_clear_other cfg (place k.in_field) k.in_field.width q u apart

  pub put_others :
      (other : String) (g : Field)
      → name ≢ other
      → lookup other cfg_fields ≡ some g
      → read_field put g ≡ read_field cfg g
  put_others other g ne e =
      put_apart (place g) g.width (cfg-IsApart name other k.in_field g ne k.found e)

  pub put_words : (j : ℕ) → j ≢ k.in_field.word → field put (32 * j) 32 ≡ field cfg (32 * j) 32
  put_words j ne = put_apart (32 * j) 32 (omega (arith, cfg-IsPlaced name k.in_field k.found))

  pub stage_field_known :
      (limit : Option ℤ)
      → IsAllowed limit (name, value)
      → stage_field limit cfg name value ≡ (ok k.in_field.word, put)
  unfolding stage_field
  stage_field_known limit allowed =
      rw
        (
          allowed,
          cfg_field_found name k.in_field k.found,
          encode_accepts value k.in_field.width k.in_field.signed k.fits,
        )
        refl

-- The words that are not listed hold in the shadow what they held before.
abbrev pub Covers : ℕ → List ℕ → ℕ → List ℕ → Type 0
Covers cfg touched cfg' touched' =
    (j : ℕ)
    → contains j touched' ≡ false
    → (contains j touched ≡ false) × (field cfg' (32 * j) 32 ≡ field cfg (32 * j) 32)

pub stage_step :
    (limit : Option ℤ) (cfg : ℕ) (touched : List ℕ) (name : String) (value : ℤ)
    (fields : List (String × ℤ)) (k : IsKnown (name, value))
    → IsAllowed limit (name, value)
    → stage limit cfg touched ((name, value) ∷ fields)
      ≡ stage limit (put cfg name value k) (add_word k.in_field.word touched) fields
unfolding stage
stage_step limit cfg touched name value fields k a =
    let rest : Result ℕ × ℕ → Result (List ℕ) × ℕ =
      λ q. elim q.0 [ err e ↦ (err e, q.1) | ok w ↦ stage limit q.1 (add_word w touched) fields ] in
    ap rest (stage_field_known cfg name value k limit a)

Covers_step :
    (cfg : ℕ) (name : String) (value : ℤ) (k : IsKnown (name, value)) (j : ℕ) (touched : List ℕ)
    {after : ℕ}
    → contains j (add_word k.in_field.word touched) ≡ false
    → after ≡ field (put cfg name value k) (32 * j) 32
    → (contains j touched ≡ false) × (after ≡ field cfg (32 * j) 32)
Covers_step cfg name value k j touched out same =
    let apart : (j ≢ k.in_field.word) × (contains j touched ≡ false) =
      ground (arith, contains-add_word j k.in_field.word touched) in
    (apart.1, same ∙ put_words cfg name value k j apart.0)

module _ (limit : Option ℤ) where
  pub stage-Updates :
      (cfg : ℕ) (touched : List ℕ) (fields : List (String × ℤ))
      → IsInBlock touched
      → IsDistinct fields
      → All IsKnown fields
      → All (IsAllowed limit) fields
      → (touched' : List ℕ) × (cfg' : ℕ) × (stage limit cfg touched fields ≡ (ok touched', cfg'))
        × Updates cfg cfg' fields
        × IsInBlock touched'
        × Covers cfg touched cfg' touched'
  stage-Updates cfg touched [] inside d k a = (
    touched,
    cfg,
    unfold stage in refl,
    record { named = λ name f value e h. cc; others = λ name f e h. refl },
    inside,
    λ j out. (out, refl),
  )
  stage-Updates cfg touched ((name, value) ∷ fields) inside (once, d) (k, ks) (a, more) =
      let next = put cfg name value k in
      let placed = cfg-IsPlaced name k.in_field k.found in
      let (touched', cfg', ran, updates, in_block, covers) =
        stage-Updates next (add_word k.in_field.word touched) fields
          (add_word-IsInBlock k.in_field.word touched placed.2 inside) d ks more in
      (
        touched',
        cfg',
        stage_step limit cfg touched name value fields k a ∙ ran,
        extend-Updates cfg next cfg' name value fields k (put_named cfg name value k)
            (put_others cfg name value k) once updates,
        in_block,
        λ j out. Covers_step cfg name value k j touched (covers j out).0 (covers j out).1,
      )

-- None of the names belongs to word `j`.
abbrev pub AvoidsWord : ℕ → List (String × ℤ) → Type 0
AvoidsWord j = All (λ e. (f : Field) → lookup e.0 cfg_fields ≡ some f → f.word ≢ j)

pub stage_other_words :
    (limit : Option ℤ) (cfg : ℕ) (touched : List ℕ) (fields : List (String × ℤ)) (j : ℕ)
    → All IsKnown fields
    → All (IsAllowed limit) fields
    → AvoidsWord j fields
    → field (stage limit cfg touched fields).1 (32 * j) 32 ≡ field cfg (32 * j) 32
stage_other_words limit cfg touched [] j k a v = unfold stage in refl
stage_other_words limit cfg touched ((name, value) ∷ fields) j (k, ks) (a, more) (v, vs) =
    ap (λ q. field q.1 (32 * j) 32) (stage_step limit cfg touched name value fields k a)
    ∙ stage_other_words limit (put cfg name value k) (add_word k.in_field.word touched) fields j ks
        more vs
    ∙ put_words cfg name value k j (λ e. v k.in_field k.found (sym e))
