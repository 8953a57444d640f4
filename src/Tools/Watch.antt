-- ===== src/Tools/Watch.antt =====
-- host/coil_servo_host/watch.py: the live display of the status.
pub mod Kept
use Prim.Native.String.{String}
use coil_servo.Base.{
  ℕ, zero, suc, ◌*◌, ◌^◌, Bool, not, List, [], ◌∷◌, ◌++◌, upto, Result, ok, err, Error,
  unless_interrupted, if◌then◌else◌,
}
use coil_servo.Base.Int.{ℤ, pos, eqb_ℤ}
use coil_servo.Floats.{Floats}
use coil_servo.Config.{Table, ChannelConfig, load_channel}
use coil_servo.Bench.{Bench}
use coil_servo.Tools.Script.{Script, ◌>>=◌, pure, from_result, for_each}
use coil_servo.Tools.Methods.{Host, Status, entry_of, is_set, get_sts, set_cfg, configured, wait}
use coil_servo.Tools.Session.{with_channel}
use coil_servo.Tools.Check.{measured_amps}

module _ (R : Floats) where
  open R use {Float}

  -- A line of `watch`.
  pub record Line : Type 0 where
    pub amps_now : Float
    pub shown : Status
    pub flags : List String

module _ (R : Floats) (W : Bench) where
  open W.link use {Memory}

  abbrev pub watched_flags : List String
  watched_flags = "fault" ∷ "out_sat" ∷ "sp_sign_mismatch" ∷ "timeout_hold" ∷ []

  -- `name for name in (…) if s[name]`.
  unfoldable pub raised_flags : List String → Status → Script (Host W) (List String)
  raised_flags [] s = pure []
  raised_flags (name ∷ names) s = do
    v ← entry_of name s
    more ← raised_flags names s
    pure (if is_set v then name ∷ more else more)

  -- One round of the loop of `watch`, up to its line.
  unfoldable pub look : ChannelConfig R → Script (Host W) (Line R)
  unfolding raised_flags
  look ch = do
    s ← get_sts W
    i_meas ← entry_of "i_meas" s
    flags ← raised_flags watched_flags s
    pure (record { amps_now = measured_amps R i_meas ch.i_fs; shown = s; flags = flags })

  -- The loop, which only an exception ends: Ctrl-C after `rounds` rounds, or an earlier one. The
  -- lines shown stay shown.
  unfoldable pub watch_loop :
      ℕ → ℕ → ChannelConfig R → List (Line R) → Host W → Result (Unit {0}) × List (Line R) × Host W
  unfolding look
  watch_loop zero interval ch lines b = (err Error.keyboard_interrupt, lines, b)
  watch_loop (suc rounds) interval ch lines b =
      let (r, b') = look ch b in
      elim r [
        | err e ↦ (err e, lines, b')
        | ok line ↦
            let (slept, b'') = wait W interval b' in
            elim slept [
              | err e ↦ (err e, lines ++ (line ∷ []), b'')
              | ok u ↦ watch_loop rounds interval ch (lines ++ (line ∷ [])) b''
            ]
      ]

  -- The body of the `with` of `watch`.
  unfoldable pub watch_body : ℕ → ℕ → ChannelConfig R → Script (Host W) (List (Line R))
  unfolding watch_loop
  watch_body rounds interval ch b =
      let (r, lines, b') = watch_loop rounds interval ch [] b in
      elim (unless_interrupted r) [ err e ↦ (err e, b') | ok u ↦ (ok lines, b') ]

  -- `main` of watch.py.
  unfoldable pub watch_main :
      ℕ → ℕ → String → Result (List (String × Table R)) → Script Memory (List (Line R))
  unfolding watch_body
  watch_main rounds interval name file m = elim (load_channel R name file) [
    | err e ↦ (err e, m)
    | ok ch ↦ with_channel W R ch (watch_body rounds interval ch) m
  ]
