-- ===== src/Board/Sets.antt =====
-- What a call of `write_cfg` sets, on any board: whether or not the shadow agreed with the board
-- before, the named fields hold their values in both afterwards.
use Prim.Native.String.{String}
use mathlib.Core.Path.{subst}
use mathlib.Core.Bool.{true≢false}
use coil_servo.Base.{
  ℕ, ◌<◌, ◌≡◌, ◌⊎◌, sym, ap, ◌∙◌, arith, inl, inr, true, false, ◌==◌, ◌||◌, Option, some, List, [],
  ◌∷◌, All, ok,
}
use coil_servo.Base.Int.{ℤ}
use coil_servo.Base.Dict.{lookup, IsDistinct, name_cases, lookup_ne}
use coil_servo.Registers.{Field, cfg_fields}
use coil_servo.Registers.Encode.{low_bits}
use coil_servo.Registers.Updates.{IsKnown}
use coil_servo.Link.{Link}
use coil_servo.Board.{Board, stage, add_word, write_cfg}
use coil_servo.Board.Stage.{contains, contains-add_word, IsAllowed, put, stage_step, stage-Updates}
use coil_servo.Board.Write.{flush_lem, write_cfg_unfold}
use coil_servo.Board.Failure.{finish, write_cfg-finish, ok≢err}
use coil_servo.Board.Keeps.{IsHeld, finish-IsHeld}

module _ (limit : Option ℤ) (x : String) (f : Field) (found : lookup x cfg_fields ≡ some f)
    (v : ℤ) where
  -- The word of a named field is among the words to write.
  stage_touches :
      (cfg : ℕ) (touched : List ℕ) (fields : List (String × ℤ))
      → All IsKnown fields
      → All (IsAllowed limit) fields
      → (contains f.word touched ≡ true) ⊎ (lookup x fields ≡ some v)
      → (ws : List ℕ) (out : ℕ) → stage limit cfg touched fields ≡ (ok ws, out)
      → contains f.word ws ≡ true
  unfolding stage
  stage_touches cfg touched [] k a (inl t) ws out e =
      let same : touched ≡ ws = let whole = ap (λ q. q.0) e in cc in
      subst (λ l. contains f.word l ≡ true) same t
  stage_touches cfg touched [] k a (inr h) ws out e = cc
  stage_touches cfg touched ((name, value) ∷ fields) (k, ks) (a, more) h ws out e =
      let next = put cfg name value k in
      let e' = sym (stage_step limit cfg touched name value fields k a) ∙ e in
      let seen : (contains f.word (add_word k.in_field.word touched) ≡ true)
          ⊎ (lookup x fields ≡ some v) =
        elim (name_cases name x) [
          | inl same ↦
              let one : some k.in_field ≡ some f =
                sym k.found ∙ subst (λ n. lookup n cfg_fields ≡ some f) (sym same) found in
              let g : k.in_field ≡ f = cc in
              inl (
                contains-add_word f.word k.in_field.word touched
                ∙ subst (λ (r : Field). ((f.word == r.word) || contains f.word touched) ≡ true)
                    (sym g) (ground arith))
          | inr ne ↦ elim h [
            | inl t ↦ inl (ground (arith, contains-add_word f.word k.in_field.word touched))
            | inr l ↦ inr (sym (lookup_ne name x value fields ne) ∙ l)
          ]
        ] in
      stage_touches next (add_word k.in_field.word touched) fields ks more seen ws out e'

  module _ (L : Link) where
    open L use {Memory}

    -- A field named among values that the table knows and the guard allows holds its value after the
    -- call, in the shadow and on the board, whatever the board and the shadow held before.
    pub write_cfg_sets :
        (b : Board Memory) (fields : List (String × ℤ))
        → b.max_clamp ≡ limit
        → IsDistinct fields
        → All IsKnown fields
        → All (IsAllowed limit) fields
        → lookup x fields ≡ some v
        → ((write_cfg L.wire b fields).0 ≡ ok tt)
          × IsHeld x f found (low_bits v f.width) L (write_cfg L.wire b fields).1
    write_cfg_sets b fields same d k a h =
        let staged = stage-Updates limit b.cfg [] fields tt d k a in
        let (ws, cfg, ran, updates, in_block, covers) = staged in
        let ran' : stage b.max_clamp b.cfg [] fields ≡ (ok ws, cfg) =
          subst (λ o. stage o b.cfg [] fields ≡ (ok ws, cfg)) (sym same) ran in
        let (m, flushed, holds) = flush_lem L cfg ws b.memory in_block in
        let touched = stage_touches b.cfg [] fields k a (inr h) ws cfg ran in
        (
          ap (λ r. r.0) (write_cfg_unfold L b fields ws cfg m ran' flushed),
          subst (λ r. IsHeld x f found (low_bits v f.width) L r.1)
              (sym (write_cfg-finish L b fields ∙ ap (finish L b) ran'))
              (finish-IsHeld x f found (low_bits v f.width) L b (ok ws, cfg)
                (λ l e. let s : ws ≡ l = cc in subst (All (λ w. w < 16)) s in_block)
                (updates.named x f v found h)
                (λ l e out.
                  let s : ws ≡ l = cc in
                  absurd
                    (true≢false (sym touched ∙ subst (λ n. contains f.word n ≡ false) (sym s) out)))
                (λ e failed. absurd (ok≢err failed))),
        )
