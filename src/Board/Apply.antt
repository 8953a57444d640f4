-- ===== src/Board/Apply.antt =====
-- `apply_config`: the control word goes last.
use Prim.Native.String.{String}
use mathlib.Core.Path.{subst}
use coil_servo.Base.{
  ℕ, ◌<◌, ◌≡◌, ◌≢◌, refl, sym, ap, ◌∙◌, arith, true, false, none, some, List, [], ◌∷◌, All, Result,
  ok, err,
}
use coil_servo.Base.Int.{ℤ}
use coil_servo.Base.Dict.{lookup, IsDistinct}
use coil_servo.Registers.{Field, cfg_fields}
use coil_servo.Registers.Encode.{decode}
use coil_servo.Registers.Updates.{IsKnown, known_decodes}
use coil_servo.Link.{Link, cfg_addr}
use coil_servo.Board.{Board, select, write_any, then_do, apply_config}
use coil_servo.Board.Stage.{IsAllowed}
use coil_servo.Board.Write.{IsCoherent, register, coherent_register, Written, write_cfg-Written}
use coil_servo.Board.Select.{rest_avoids, control_avoids, both-Updates, select-Selected}

module _ (L : Link) where
  open L use {Memory, peek}

  write_any-Written :
      (b : Board Memory) (fields : List (String × ℤ))
      → IsCoherent L.wire b
      → IsDistinct fields
      → All IsKnown fields
      → All (IsAllowed b.max_clamp) fields
      → (b' : Board Memory) × (write_any L.wire b fields ≡ (ok tt, b')) × Written L b b' fields
  unfolding write_any
  write_any-Written b [] c d k a = (
    b,
    refl,
    record {
      updates = record { named = λ name f value e h. cc; others = λ name f e h. refl };
      coherent = c;
      same_guard = refl;
      other_words = λ j v. refl;
    },
  )
  write_any-Written b (e ∷ fields) c d k a = write_cfg-Written L b (e ∷ fields) c d k a

  apply_config_unfold :
      (b b1 b2 : Board Memory) (fields rest control : List (String × ℤ))
      → select true fields ≡ ok control
      → select false fields ≡ ok rest
      → write_any L.wire b rest ≡ (ok tt, b1)
      → write_any L.wire b1 control ≡ (ok tt, b2)
      → apply_config L.wire b fields ≡ (ok tt, b2)
  unfolding apply_config then_do
  apply_config_unfold b b1 b2 fields rest control c r first second =
      let last : List (String × ℤ) → Result (List (String × ℤ)) → Result (Unit {0}) × Board Memory =
        λ chosen q. elim q [
          | err e ↦ (err e, b)
          | ok others ↦ then_do L.wire (write_any L.wire b others) λ b'. write_any L.wire b' chosen
        ] in
      let all : Result (List (String × ℤ)) → Result (Unit {0}) × Board Memory =
        λ q. elim q [ err e ↦ (err e, b) | ok chosen ↦ last chosen (select false fields) ] in
      ap all c
      ∙ ap (last control) r
      ∙ ap
          (λ (q : Result (Unit {0}) × Board Memory).
            then_do L.wire q λ b'. write_any L.wire b' control)
          first
      ∙ second

  -- Known, fitting and allowed values, given in any order to `apply_config` on a coherent object:
  -- the call raises nothing and consists of two phases. The first writes the values of the words
  -- other than 0 and leaves the control word of the board as it was; the second leaves all words
  -- but the control word as the first phase made them. At the end every named register decodes
  -- to its value, every other one is unchanged, and the object is coherent.
  pub apply_config_control_last :
      (b : Board Memory) (fields : List (String × ℤ))
      → IsCoherent L.wire b
      → IsDistinct fields
      → All IsKnown fields
      → All (IsAllowed b.max_clamp) fields
      → (rest control : List (String × ℤ)) × (b1 b2 : Board Memory) × (select false fields
          ≡ ok rest)
        × (select true fields ≡ ok control)
        × (write_any L.wire b rest ≡ (ok tt, b1))
        × (write_any L.wire b1 control ≡ (ok tt, b2))
        × (apply_config L.wire b fields ≡ (ok tt, b2))
        × (peek b1.memory (cfg_addr 0) ≡ peek b.memory (cfg_addr 0))
        × ((j : ℕ) → j < 16 → j ≢ 0 → peek b2.memory (cfg_addr j) ≡ peek b1.memory (cfg_addr j))
        × ((name : String) (f : Field) (value : ℤ)
            → lookup name cfg_fields ≡ some f
            → lookup name fields ≡ some value
            → decode (register L b2.memory f) f.width f.signed ≡ value)
        × ((name : String) (f : Field)
            → lookup name cfg_fields ≡ some f
            → lookup name fields ≡ none
            → register L b2.memory f ≡ register L b.memory f)
        × IsCoherent L.wire b2
  apply_config_control_last b fields c d k a =
      let (control, second, s2) = select-Selected b.max_clamp true fields d k a in
      let (rest, first, s1) = select-Selected b.max_clamp false fields d k a in
      let (b1, ran1, w1) = write_any-Written b rest c s1.distinct s1.known s1.allowed in
      let allowed = subst (λ g. All (IsAllowed g) control) (sym w1.same_guard) s2.allowed in
      let (b2, ran2, w2) = write_any-Written b1 control w1.coherent s2.distinct s2.known allowed in
      let u =
        both-Updates b.max_clamp b.cfg b1.cfg b2.cfg fields rest control s1 s2 w1.updates
          w2.updates in
      (
        rest,
        control,
        b1,
        b2,
        first,
        second,
        ran1,
        ran2,
        apply_config_unfold b b1 b2 fields rest control second first ran1 ran2,
        w1.coherent.agrees 0 (omega arith)
            ∙ w1.other_words 0 (rest_avoids b.max_clamp fields rest s1)
            ∙ sym (c.agrees 0 (omega arith)),
        λ j hj other.
            w2.coherent.agrees j hj
            ∙ w2.other_words j (control_avoids b.max_clamp fields control j other s2)
            ∙ sym (w1.coherent.agrees j hj),
        λ name f value e h.
            ap (λ r. decode r f.width f.signed)
              (coherent_register L b2 name f w2.coherent e ∙ u.named name f value e h)
            ∙ known_decodes fields name value f k h e,
        λ name f e h.
            coherent_register L b2 name f w2.coherent e
            ∙ u.others name f e h
            ∙ sym (coherent_register L b name f c e),
        w2.coherent,
      )
