-- ===== src/Tools/Session/Kept.antt =====
-- What a session leaves alone: from before the connection to after it.
use Prim.Native.String.{String}
use mathlib.Core.Path.{subst}
use coil_servo.Base.{ℕ, ◌≡◌, refl, sym, ap, ◌∙◌, Option, some, Result, ok, err}
use coil_servo.Base.Int.{ℤ}
use coil_servo.Base.Dict.{lookup}
use coil_servo.Registers.{Field, cfg_fields}
use coil_servo.Registers.Parse.{item}
use coil_servo.Board.{Board}
use coil_servo.Board.Write.{register, coherent_register}
use coil_servo.Board.Connect.{connect-IsCoherent}
use coil_servo.Board.Keeps.{IsHeld}
use coil_servo.Floats.{Floats}
use coil_servo.Config.{ChannelConfig}
use coil_servo.Bench.{Bench}
use coil_servo.Tools.Script.{Script, Keeps}
use coil_servo.Tools.Methods.{Host}
use coil_servo.Tools.Held.{Holding}
use coil_servo.Tools.Session.{with_board, with_channel}

module _ (x : String) (f : Field) (found : lookup x cfg_fields ≡ some f) (W : Bench) where
  open W.link use {Memory}

  -- What keeps the field through the session keeps it from before the connection to after it.
  with_board-Keeps :
      {A : Type 0} (limit : Option ℤ) (script : Script (Host W) A) (m : Memory)
      → ((v : ℕ) → Keeps (Holding x f found v W) script)
      → register W.link (with_board W limit script m).1 f ≡ register W.link m f
  unfolding with_board
  with_board-Keeps {A} limit script m keep =
      let (b, ran, same, coherent) = connect-IsCoherent W.link m limit in
      let start : IsHeld x f found (register W.link m f) W.link b = record {
        shadow =
            sym (coherent_register W.link b x f coherent found)
            ∙ ap (λ n. register W.link n f) same;
        board = ap (λ n. register W.link n f) same;
      } in
      let session : Result (Board Memory) → Result A × Memory =
        λ r. elim r [ err e ↦ (err e, m) | ok c ↦ ((script c).0, (script c).1.memory) ] in
      subst (λ r. register W.link (session r).1 f ≡ register W.link m f) (sym ran)
        ((keep (register W.link m f)).after b start).board

  pub with_channel-Keeps :
      (R : Floats) {A : Type 0} (ch : ChannelConfig R) (script : Script (Host W) A) (m : Memory)
      → ((v : ℕ) → Keeps (Holding x f found v W) script)
      → register W.link (with_channel W R ch script m).1 f ≡ register W.link m f
  unfolding with_channel
  with_channel-Keeps R {A} ch script m keep = go (item "out_clamp" ch.cfg)
    where
      go :
          (limit : Result ℤ)
          → register W.link
              (elim limit as (λ _. Result A × Memory) [
                | err e ↦ (err e, m)
                | ok l ↦ with_board W (some l) script m
              ]).1
              f
            ≡ register W.link m f
      go (err e) = refl
      go (ok l) = with_board-Keeps (some l) script m keep
