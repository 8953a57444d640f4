-- ===== src/Tools/Session.antt =====
-- `with Board(ch["host"], max_clamp=…) as b: …`, around what a tool does with the board.
pub mod Kept
use coil_servo.Base.{Option, some, List, Result, ok, err}
use coil_servo.Base.Int.{ℤ}
use coil_servo.Registers.Parse.{item}
use coil_servo.Board.{Board, connect}
use coil_servo.Floats.{Floats}
use coil_servo.Config.{ChannelConfig}
use coil_servo.Bench.{Bench}
use coil_servo.Tools.Script.{Script}
use coil_servo.Tools.Methods.{Host}

module _ (W : Bench) where
  open W.link use {Memory}

  unfoldable pub with_board : {A : Type 0} → Option ℤ → Script (Host W) A → Script Memory A
  with_board limit script m = elim (connect W.link.wire m limit) [
    | err e ↦ (err e, m)
    | ok b ↦ let (r, b') = script b in (r, b'.memory)
  ]

  module _ (R : Floats) where
    -- With the limit that every tool takes, `ch["cfg"]["out_clamp"]`.
    unfoldable pub with_channel :
        {A : Type 0} → ChannelConfig R → Script (Host W) A → Script Memory A
    unfolding with_board
    with_channel ch script m = elim (item "out_clamp" ch.cfg) [
      | err e ↦ (err e, m)
      | ok limit ↦ with_board (some limit) script m
    ]
