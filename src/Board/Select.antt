-- ===== src/Board/Select.antt =====
-- The two halves that `apply_config` makes of its fields: the control word and the rest.
use Prim.Native.String.{String}
use mathlib.Core.Path.{subst}
use mathlib.Core.Bool.{true≢false}
use text.Mathlib.Text.{◌==◌ as str_eq}
use coil_servo.Base.{
  ℕ, ◌≡◌, ◌≢◌, refl, sym, ap, ◌∙◌, arith, Bool, true, false, inl, inr, if◌then◌else◌, ◌==◌,
  same_bool, Bool-cases, Option, none, some, List, [], ◌∷◌, All, ok,
}
use coil_servo.Base.Int.{ℤ}
use coil_servo.Base.Dict.{lookup, IsDistinct, lookup_self, lookup_ne, name_cases}
use coil_servo.Registers.{Field, cfg_fields}
use coil_servo.Registers.Pack.{cfg_field_found}
use coil_servo.Registers.Updates.{IsKnown, Updates, none≢some}
use coil_servo.Board.{select}
use coil_servo.Board.Stage.{IsAllowed, AvoidsWord}

-- The names of `fields` that belong to the control word, or those that do not.
abbrev pub is_chosen : Bool → Field → Bool
is_chosen control f = same_bool (f.word == 0) control

known_once :
    {e : String × ℤ} (f : Field) (k : IsKnown e) → lookup e.0 cfg_fields ≡ some f → f ≡ k.in_field
known_once f k e = let same : some f ≡ some k.in_field = sym e ∙ k.found in cc

missing_tail :
    (n name : String) (value : ℤ) (fields : List (String × ℤ))
    → lookup n ((name, value) ∷ fields) ≡ none
    → (name ≢ n) × (lookup n fields ≡ none)
missing_tail n name value fields h = elim (name_cases name n) [
  | inl same ↦ absurd (
      none≢some {a = value} h (
        subst (λ s. lookup s ((name, value) ∷ fields) ≡ some value) same
          (lookup_self name value fields)))
  | inr ne ↦ (ne, sym (lookup_ne name n value fields ne) ∙ h)
]

module _ (limit : Option ℤ) where
  -- What `select` gives.
  pub record Selected (control : Bool) (fields chosen : List (String × ℤ)) : Type 0 where
    pub distinct : IsDistinct chosen
    pub known : All IsKnown chosen
    pub allowed : All (IsAllowed limit) chosen
    pub only :
        All (λ e. (f : Field) → lookup e.0 cfg_fields ≡ some f → is_chosen control f ≡ true) chosen
    pub kept :
        (name : String) (f : Field)
        → lookup name cfg_fields ≡ some f
        → is_chosen control f ≡ true
        → lookup name chosen ≡ lookup name fields
    pub left :
        (name : String) (f : Field)
        → lookup name cfg_fields ≡ some f
        → is_chosen control f ≡ false
        → lookup name chosen ≡ none
    pub dropped : (name : String) → lookup name fields ≡ none → lookup name chosen ≡ none

  select_take :
      (control : Bool) (name : String) (value : ℤ) (fields chosen : List (String × ℤ))
      (k : IsKnown (name, value))
      → select control fields ≡ ok chosen
      → select control ((name, value) ∷ fields)
        ≡ ok (if is_chosen control k.in_field then (name, value) ∷ chosen else chosen)
  unfolding select
  select_take control name value fields chosen k h =
      rw (cfg_field_found name k.in_field k.found, h) refl

  pub select-Selected :
      (control : Bool) (fields : List (String × ℤ))
      → IsDistinct fields
      → All IsKnown fields
      → All (IsAllowed limit) fields
      → (chosen : List (String × ℤ)) × (select control fields ≡ ok chosen)
        × Selected control fields chosen
  select-Selected control [] d k a = (
    [],
    unfold select in refl,
    record {
      distinct = tt;
      known = tt;
      allowed = tt;
      only = tt;
      kept = λ name f e h. refl;
      left = λ name f e h. refl;
      dropped = λ name h. refl;
    },
  )
  select-Selected control ((name, value) ∷ fields) (once, d) (k, ks) (a, more) =
      let (chosen, ran, s) = select-Selected control fields d ks more in
      elim (Bool-cases (is_chosen control k.in_field)) [
        | inl take ↦ (
          (name, value) ∷ chosen,
          select_take control name value fields chosen k ran ∙ rw take refl,
          record {
            distinct = (s.dropped name once, s.distinct);
            known = (k, s.known);
            allowed = (a, s.allowed);
            only = (λ f e. ap (is_chosen control) (known_once f k e) ∙ take, s.only);
            kept = λ n f e h. ap (λ r. if str_eq name n then some value else r) (s.kept n f e h);
            left = λ n f e h. elim (name_cases name n) [
              | inl same ↦ absurd (
                  true≢false (
                    sym take
                    ∙ ap (is_chosen control) (
                        sym
                          (known_once f k (subst (λ x. lookup x cfg_fields ≡ some f) (sym same) e)))
                    ∙ h))
              | inr ne ↦ lookup_ne name n value chosen ne ∙ s.left n f e h
            ];
            dropped = λ n h.
                let (ne, out) = missing_tail n name value fields h in
                lookup_ne name n value chosen ne ∙ s.dropped n out;
          },
        )
        | inr skip ↦ (
          chosen,
          select_take control name value fields chosen k ran ∙ rw skip refl,
          record {
            distinct = s.distinct;
            known = s.known;
            allowed = s.allowed;
            only = s.only;
            kept = λ n f e h. elim (name_cases name n) [
              | inl same ↦ absurd (
                  true≢false (
                    sym h
                    ∙ ap (is_chosen control)
                        (known_once f k (subst (λ x. lookup x cfg_fields ≡ some f) (sym same) e))
                    ∙ skip))
              | inr ne ↦ s.kept n f e h ∙ sym (lookup_ne name n value fields ne)
            ];
            left = s.left;
            dropped = λ n h. s.dropped n (missing_tail n name value fields h).1;
          },
        )
      ]

All-map :
    {A : Type 0} {P Q : A → Type 0} (xs : List A) → ((x : A) → P x → Q x) → All P xs → All Q xs
All-map [] f h = tt
All-map (x ∷ xs) f (h, hs) = (f x h, All-map xs f hs)

-- The rest leaves the control word alone, and the control values leave the other words alone.
pub rest_avoids :
    (limit : Option ℤ) (fields rest : List (String × ℤ))
    → Selected limit false fields rest
    → AvoidsWord 0 rest
rest_avoids limit fields rest s =
    All-map rest (λ e only f found. ground (arith, only f found)) s.only

pub control_avoids :
    (limit : Option ℤ) (fields control : List (String × ℤ)) (j : ℕ)
    → j ≢ 0
    → Selected limit true fields control
    → AvoidsWord j control
control_avoids limit fields control j other s =
    All-map control (λ e only f found. ground (arith, only f found)) s.only

-- The two halves together make all the updates.
pub both-Updates :
    (limit : Option ℤ) (cfg cfg1 cfg2 : ℕ) (fields rest control : List (String × ℤ))
    → Selected limit false fields rest
    → Selected limit true fields control
    → Updates cfg cfg1 rest
    → Updates cfg1 cfg2 control
    → Updates cfg cfg2 fields
both-Updates limit cfg cfg1 cfg2 fields rest control s1 s2 u1 u2 = record {
  named = λ name f value e h. elim (Bool-cases (f.word == 0)) [
    | inl zeroth ↦
        u2.named name f value e (s2.kept name f e (ap (λ b. same_bool b true) zeroth) ∙ h)
    | inr later ↦
        u2.others name f e (s2.left name f e (ap (λ b. same_bool b true) later))
        ∙ u1.named name f value e (s1.kept name f e (ap (λ b. same_bool b false) later) ∙ h)
  ];
  others =
      λ name f e h. u2.others name f e (s2.dropped name h) ∙ u1.others name f e (s1.dropped name h);
}
