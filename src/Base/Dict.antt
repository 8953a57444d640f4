-- ===== src/Base/Dict.antt =====
-- Python dictionaries with text keys, in the order of insertion.
use Prim.Native.String.{String}
use mathlib.Core.Path.{◌≡◌, refl, sym, ◌∙◌, subst}
use mathlib.Core.Logic.{◌≢◌, ◌⊎◌, inl, inr}
use mathlib.Core.Bool.{true, false≢true}
use mathlib.Core.Option.{Option, none, some}
use mathlib.Core.List.{List, [], ◌∷◌}
use text.Mathlib.Text.{◌==◌ as str_eq}
use text.Mathlib.TextEquality.{eq_iff}
use coil_servo.Base.Tests.{Bool-cases, if◌then◌else◌}
use coil_servo.Base.Lists.{All}

pub str_eq_iff : (a b : String) → (str_eq a b ≡ true → a ≡ b) × (a ≡ b → str_eq a b ≡ true)
str_eq_iff a b = eq_iff a b

pub name_cases : (a b : String) → (a ≡ b) ⊎ (a ≢ b)
name_cases a b = elim (Bool-cases (str_eq a b)) [
  | inl same ↦ inl ((str_eq_iff a b).0 same)
  | inr other ↦ inr (λ e. false≢true (sym other ∙ (str_eq_iff a b).1 e))
]

module _ {V : Type 0} where
  -- `d.get(k)`.
  abbrev pub lookup : String → List (String × V) → Option V
  lookup k [] = none
  lookup k ((j, v) ∷ d) = if str_eq j k then some v else lookup k d

  -- No key stands twice.
  abbrev pub IsDistinct : List (String × V) → Type 0
  IsDistinct [] = Unit
  IsDistinct ((k, v) ∷ d) = (lookup k d ≡ none) × IsDistinct d

  pub lookup_self : (k : String) (v : V) (d : List (String × V)) → lookup k ((k, v) ∷ d) ≡ some v
  lookup_self k v d = rw ((str_eq_iff k k).1 refl)

  pub lookup_ne :
      (j k : String) (v : V) (d : List (String × V)) → j ≢ k → lookup k ((j, v) ∷ d) ≡ lookup k d
  lookup_ne j k v d ne = elim (Bool-cases (str_eq j k)) [
    | inl same ↦ absurd (ne ((str_eq_iff j k).0 same))
    | inr other ↦ rw other
  ]

  -- What holds of every entry holds of the one that is found.
  pub lookup-All {κ} :
      (P : V → Type κ) (k : String) (v : V) (d : List (String × V))
      → All (λ e. P e.1) d
      → lookup k d ≡ some v
      → P v
  lookup-All P k v [] h e = cc
  lookup-All P k v ((j, w) ∷ d) h e = elim (Bool-cases (str_eq j k)) [
    | inl found ↦
        let e' : some w ≡ some v = rw found at e in let same : w ≡ v = cc in subst P same h.0
    | inr other ↦ lookup-All P k v d h.1 (rw other at e)
  ]
