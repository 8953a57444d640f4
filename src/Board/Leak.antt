-- ===== src/Board/Leak.antt =====
-- What a call of `write_cfg` that raised leaves in the shadow goes to the board with a later call.
use Prim.Native.String.{String}
use mathlib.Core.Path.{subst}
use coil_servo.Base.{◌*◌, ◌≡◌, ◌≢◌, refl, sym, ap, ◌∙◌, arith, [], ◌∷◌, ok, err, Error}
use coil_servo.Base.Int.{ℤ}
use coil_servo.Base.Dict.{lookup_self}
use coil_servo.Base.Bits.Fields.{field, field-field, field_clear_other}
use coil_servo.Registers.{place}
use coil_servo.Registers.Apart.{cfg-IsPlaced, cfg-IsApart}
use coil_servo.Registers.Encode.{decode}
use coil_servo.Registers.Updates.{read_field, IsKnown, known_decodes}
use coil_servo.Link.{Link, cfg_addr}
use coil_servo.Board.{Board, stage, cleared, add_word, write_cfg}
use coil_servo.Board.Stage.{IsAllowed, put, put_named, put_others, stage_step}
use coil_servo.Board.Write.{register, flush_lem, write_cfg_unfold}
use coil_servo.Board.Failure.{IsMisfit, stage_field_misfit, stage_fails, write_fails}

module _ (L : Link) where
  open L use {Memory, peek}

  -- One known value written: its word goes out as the shadow has it.
  write_one :
      (b : Board Memory) (name : String) (value : ℤ) (k : IsKnown (name, value))
      → IsAllowed b.max_clamp (name, value)
      → (m : Memory) × (write_cfg L.wire b ((name, value) ∷ [])
          ≡ (ok tt, record b { cfg = put b.cfg name value k; memory = m }))
        × (peek m (cfg_addr k.in_field.word)
            ≡ field (put b.cfg name value k) (32 * k.in_field.word) 32)
  write_one b name value k a =
      let placed = cfg-IsPlaced name k.in_field k.found in
      let w = k.in_field.word in
      let after = put b.cfg name value k in
      let (m, flushed, holds) = flush_lem L after (w ∷ []) b.memory (placed.2, tt) in
      let staged : stage b.max_clamp b.cfg [] ((name, value) ∷ []) ≡ (ok (w ∷ []), after) =
        stage_step b.max_clamp b.cfg [] name value [] k a ∙ (unfold stage add_word in refl) in
      (
        m,
        write_cfg_unfold L b ((name, value) ∷ []) (w ∷ []) after m staged flushed,
        ground (arith, holds w placed.2),
      )

  -- A call names a value that fits and then one that its field cannot hold: it raises ValueError.
  -- Any later call that succeeds with a third name of the same word then writes the first value to
  -- the board, though the call that named it had failed.
  pub failed_write_leaks :
      (b : Board Memory) (n1 n2 n3 : String) (v1 v2 v3 : ℤ) (k1 : IsKnown (n1, v1))
      (x : IsMisfit (n2, v2)) (k3 : IsKnown (n3, v3))
      → n1 ≢ n2
      → n1 ≢ n3
      → k1.in_field.word ≡ k3.in_field.word
      → IsAllowed b.max_clamp (n1, v1)
      → IsAllowed b.max_clamp (n2, v2)
      → IsAllowed b.max_clamp (n3, v3)
      → (b1 : Board Memory) × (b2 : Board Memory) × (write_cfg L.wire b ((n1, v1) ∷ (n2, v2) ∷ [])
          ≡ (err Error.value_error, b1))
        × (write_cfg L.wire b1 ((n3, v3) ∷ []) ≡ (ok tt, b2))
        × (decode (register L b2.memory k1.in_field) k1.in_field.width k1.in_field.signed ≡ v1)
  unfolding register
  failed_write_leaks b n1 n2 n3 v1 v2 v3 k1 x k3 ne2 ne3 same a1 a2 a3 =
      let f1 = k1.in_field in
      let cfg1 = put b.cfg n1 v1 k1 in
      let cfg2 = cleared cfg1 x.in_field in
      let b1 : Board Memory = record b { cfg = cfg2 } in
      let staged : stage b.max_clamp b.cfg [] ((n1, v1) ∷ (n2, v2) ∷ [])
          ≡ (err Error.value_error, cfg2) =
        stage_step b.max_clamp b.cfg [] n1 v1 ((n2, v2) ∷ []) k1 a1
        ∙ stage_fails b.max_clamp cfg1 cfg2 (add_word f1.word []) n2 v2 [] Error.value_error
            (stage_field_misfit b.max_clamp cfg1 n2 v2 x a2) in
      let (m, ran, holds) = write_one b1 n3 v3 k3 a3 in
      let placed = cfg-IsPlaced n1 f1 k1.found in
      let kept : read_field (put cfg2 n3 v3 k3) f1 ≡ read_field cfg1 f1 =
        put_others cfg2 n3 v3 k3 n1 f1 (λ e. ne3 (sym e)) k1.found
        ∙ field_clear_other cfg1 (place x.in_field) x.in_field.width (place f1) f1.width
            (cfg-IsApart n2 n1 x.in_field f1 (λ e. ne2 (sym e)) x.found k1.found) in
      let in_word : peek m (cfg_addr f1.word) ≡ field (put cfg2 n3 v3 k3) (32 * f1.word) 32 =
        subst (λ w. peek m (cfg_addr w) ≡ field (put cfg2 n3 v3 k3) (32 * w) 32) (sym same) holds in
      (
        b1,
        _,
        write_fails L b ((n1, v1) ∷ (n2, v2) ∷ []) Error.value_error cfg2 staged,
        ran,
        ap (λ r. decode r f1.width f1.signed)
              (ap (λ w. field w f1.lsb f1.width) in_word
                ∙ field-field (put cfg2 n3 v3 k3) (32 * f1.word) 32 f1.lsb f1.width placed.1
                ∙ kept
                ∙ put_named b.cfg n1 v1 k1)
            ∙ known_decodes ((n1, v1) ∷ []) n1 v1 f1 (k1, tt) (lookup_self n1 v1 []) k1.found,
      )
