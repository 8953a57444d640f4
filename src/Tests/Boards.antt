-- ===== src/Tests/Boards.antt =====
-- The board client at concrete inputs.
use Prim.Native.String.{String}
use coil_servo.Base.{
  ℕ, ◌<◌, ◌≢◌, ◌≡◌, refl, arith, false, true, none, some, List, [], ◌∷◌, ok, err, Error,
}
use coil_servo.Base.Int.{ℤ, pos, neg, negsuc}
use coil_servo.Base.Dict.{lookup}
use coil_servo.Registers.{Field, cfg_fields}
use coil_servo.Registers.Encode.{lo, hi, decode}
use coil_servo.Registers.Updates.{IsKnown}
use coil_servo.Link.{cfg_addr}
use coil_servo.Board.{
  Board, cleared, exceeds_clamp, stage, select, write_cfg, write_any, apply_config, connect,
}
use coil_servo.Board.Write.{IsCoherent, register, write_cfg_registers}
use coil_servo.Board.Failure.{IsMisfit, stage_field_misfit, stage_fails}
use coil_servo.Board.Leak.{failed_write_leaks}
use coil_servo.Board.Guard.{IsGuarded, writes, writes-IsGuarded}
use coil_servo.Board.Connect.{connect-IsCoherent}
use coil_servo.Board.Apply.{apply_config_control_last}
use coil_servo.Tests.Fixtures.{
  different, plain_link, word_at, no_words, limited, limited-IsCoherent, limited-IsGuarded,
  start_up, start_up-IsKnown, start_up-IsAllowed, enable_known,
}

abbrev reckless : List (List (String × ℤ))
reckless =
    (("out_clamp", pos 9000) ∷ [])
    ∷ (("out_clamp", pos 4000) ∷ ("nonsense", pos 1) ∷ [])
    ∷ (("out_clamp", negsuc 0) ∷ [])
    ∷ start_up
    ∷ []

writes-IsGuarded_example : IsGuarded plain_link (pos 5000) (writes plain_link limited reckless)
writes-IsGuarded_example = writes-IsGuarded plain_link (pos 5000) limited reckless limited-IsGuarded

write_cfg_registers_example :
    (b' : Board (ℕ → ℕ)) × (write_cfg plain_link.wire limited start_up ≡ (ok tt, b'))
    × IsCoherent plain_link.wire b'
    × ((name : String) (f : Field) (value : ℤ)
        → lookup name cfg_fields ≡ some f
        → lookup name start_up ≡ some value
        → decode (register plain_link b'.memory f) f.width f.signed ≡ value)
    × ((name : String) (f : Field)
        → lookup name cfg_fields ≡ some f
        → lookup name start_up ≡ none
        → register plain_link b'.memory f ≡ register plain_link no_words f)
write_cfg_registers_example =
    write_cfg_registers plain_link limited start_up limited-IsCoherent (refl, (refl, tt))
      start_up-IsKnown start_up-IsAllowed

apply_config_control_last_example :
    (rest control : List (String × ℤ)) × (b1 b2 : Board (ℕ → ℕ)) × (select false start_up ≡ ok rest)
    × (select true start_up ≡ ok control)
    × (write_any plain_link.wire limited rest ≡ (ok tt, b1))
    × (write_any plain_link.wire b1 control ≡ (ok tt, b2))
    × (apply_config plain_link.wire limited start_up ≡ (ok tt, b2))
    × (word_at b1.memory (cfg_addr 0) ≡ word_at no_words (cfg_addr 0))
    × ((j : ℕ) → j < 16 → j ≢ 0 → word_at b2.memory (cfg_addr j) ≡ word_at b1.memory (cfg_addr j))
    × ((name : String) (f : Field) (value : ℤ)
        → lookup name cfg_fields ≡ some f
        → lookup name start_up ≡ some value
        → decode (register plain_link b2.memory f) f.width f.signed ≡ value)
    × ((name : String) (f : Field)
        → lookup name cfg_fields ≡ some f
        → lookup name start_up ≡ none
        → register plain_link b2.memory f ≡ register plain_link no_words f)
    × IsCoherent plain_link.wire b2
apply_config_control_last_example =
    apply_config_control_last plain_link limited start_up limited-IsCoherent (refl, (refl, tt))
      start_up-IsKnown start_up-IsAllowed

connect-IsCoherent_example :
    (b : Board (ℕ → ℕ)) × (connect plain_link.wire no_words none ≡ ok b)
    × (b.memory ≡ no_words)
    × IsCoherent plain_link.wire b
connect-IsCoherent_example = connect-IsCoherent plain_link no_words none

-- The field has 8 bits.
led_misfit : IsMisfit ("led", pos 256)
unfolding cfg_fields lo hi neg
led_misfit = record {
  in_field = record { word = 0; lsb = 8; width = 8; signed = false };
  found = refl;
  too_big = λ h. omega arith;
}

abbrev misfit : List (String × ℤ)
misfit = ("led", pos 256) ∷ []

misfit-stage :
    stage (some (pos 5000)) 0 [] misfit ≡ (err Error.value_error, cleared 0 led_misfit.in_field)
unfolding exceeds_clamp
misfit-stage =
    stage_fails (some (pos 5000)) 0 (cleared 0 led_misfit.in_field) [] "led" (pos 256) []
      Error.value_error (stage_field_misfit (some (pos 5000)) 0 "led" (pos 256) led_misfit refl)

source_known : IsKnown ("sp_source", pos 1)
unfolding cfg_fields lo hi neg
source_known = record {
  in_field = record { word = 0; lsb = 2; width = 1; signed = false };
  found = refl;
  fits = omega arith;
}

-- A call that would enable the servo fails; a later one, on another field, enables it.
failed_write_leaks_example :
    (b1 : Board (ℕ → ℕ)) × (b2 : Board (ℕ → ℕ)) × (write_cfg plain_link.wire limited
        (("servo_enable", pos 1) ∷ misfit)
      ≡ (err Error.value_error, b1))
    × (write_cfg plain_link.wire b1 (("sp_source", pos 1) ∷ []) ≡ (ok tt, b2))
    × (decode
          (register plain_link b2.memory enable_known.in_field)
          enable_known.in_field.width
          enable_known.in_field.signed
        ≡ pos 1)
unfolding exceeds_clamp enable_known source_known
failed_write_leaks_example =
    failed_write_leaks plain_link limited "servo_enable" "led" "sp_source" (pos 1) (pos 256) (pos 1)
      enable_known led_misfit source_known (different "servo_enable" "led" refl)
      (different "servo_enable" "sp_source" refl) refl refl refl refl
