-- ===== src/Tools/Check/Kept.antt =====
-- check.py leaves the board's other registers alone.
use Prim.Native.String.{String}
use mathlib.Core.Path.{subst}
use coil_servo.Base.{ℕ, ◌≡◌, ◌≢◌, refl, sym, some, List, [], ◌∷◌, All, upto, Result, ok, err}
use coil_servo.Base.Int.{ℤ}
use coil_servo.Base.Dict.{lookup}
use coil_servo.Registers.{Field, cfg_fields}
use coil_servo.Board.Write.{register}
use coil_servo.Board.Keeps.{Spares}
use coil_servo.Floats.{Floats}
use coil_servo.Config.{Table, ChannelConfig, load_channel}
use coil_servo.Config.Rails.{config_names, names_of, IsChannel, load_channel-IsChannel}
use coil_servo.Bench.{Bench}
use coil_servo.Tools.Script.{Keeps, Keeps-bind, Keeps-from_result, Keeps-for_each}
use coil_servo.Tools.Held.{Holding, set_cfg-IsHeld, configured-IsHeld, wait-IsHeld, get_sts-IsHeld}
use coil_servo.Tools.Session.{with_channel}
use coil_servo.Tools.Session.Kept.{with_channel-Keeps}
use coil_servo.Tools.Check.{Report, light, check_body, check_main}

Spares-names :
    (x : String) (fields : List (String × ℤ)) → All (λ n. n ≢ x) (names_of fields) → Spares x fields
Spares-names x [] h = tt
Spares-names x (e ∷ fields) (ne, h) = (ne, Spares-names x fields h)

module _ (x : String) (f : Field) (found : lookup x cfg_fields ≡ some f) (W : Bench) where
  open W.link use {Memory}

  module _ (v : ℕ) (led : "led" ≢ x) where
    light-Keeps : (k : ℕ) → Keeps (Holding x f found v W) (light W k)
    unfolding light
    light-Keeps k =
        Keeps-bind _ _ (set_cfg-IsHeld x f found v W _ (led, tt))
          (λ u. wait-IsHeld x f found v W 50000)

    check_body-Keeps :
        (R : Floats) (ch : ChannelConfig R)
        → Spares x ch.cfg
        → Keeps (Holding x f found v W) (check_body R W ch)
    unfolding check_body
    check_body-Keeps R ch spared = Keeps-bind _ _ (get_sts-IsHeld x f found v W) λ s0.
        Keeps-bind _ _ (wait-IsHeld x f found v W 50000) λ u.
          Keeps-bind _ _ (get_sts-IsHeld x f found v W) λ s1.
            Keeps-bind _ _ (Keeps-from_result _) λ after.
              Keeps-bind _ _ (Keeps-from_result _) λ before.
                Keeps-bind _ _ (Keeps-for_each (upto 8) (light W) light-Keeps) λ u.
                  Keeps-bind _ _ (set_cfg-IsHeld x f found v W _ (led, tt)) λ u.
                    Keeps-bind _ _ (configured-IsHeld x f found v W ch.cfg spared) λ u.
                      Keeps-bind _ _ (get_sts-IsHeld x f found v W) λ s.
                        Keeps-bind _ _ (Keeps-from_result _) λ i_meas.
                          Keeps-bind _ _ (Keeps-from_result _) λ fault. Keeps-from_result _

  -- `check`, whatever it finds and wherever it stops: a configuration register that is neither `led`
  -- nor one of the fourteen of the channel's table is afterwards what it was before.
  pub check_main_keeps :
      (R : Floats) (name : String) (file : Result (List (String × Table R))) (m : Memory)
      → "led" ≢ x
      → All (λ n. n ≢ x) config_names
      → register W.link (check_main R W name file m).1 f ≡ register W.link m f
  unfolding check_main
  check_main_keeps R name file m led others =
      go (load_channel R name file) (load_channel-IsChannel R name file)
    where
      go :
          (r : Result (ChannelConfig R))
          → ((ch : ChannelConfig R) → r ≡ ok ch → IsChannel R ch)
          → register W.link
              (elim r as (λ _. Result (Report R) × Memory) [
                | err e ↦ (err e, m)
                | ok ch ↦ with_channel W R ch (check_body R W ch) m
              ]).1
              f
            ≡ register W.link m f
      go (err e) loads = refl
      go (ok ch) loads =
          let names = (loads ch refl).complete_cfg.0 in
          let spared = Spares-names x ch.cfg (subst (All (λ n. n ≢ x)) (sym names) others) in
          with_channel-Keeps x f found W R ch (check_body R W ch) m
            (λ v. check_body-Keeps v led R ch spared)
