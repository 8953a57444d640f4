-- ===== src/Tools/Check.antt =====
-- host/coil_servo_host/check.py: the checks after a deployment.
pub mod Kept
use Prim.Native.String.{String}
use coil_servo.Base.{
  ℕ, zero, suc, ◌*◌, ◌^◌, Bool, not, List, [], ◌∷◌, ◌++◌, upto, Result, ok, err, Error,
  is_interrupt, if◌then◌else◌,
}
use coil_servo.Base.Int.{ℤ, pos, eqb_ℤ}
use coil_servo.Floats.{Floats}
use coil_servo.Config.{Table, ChannelConfig, load_channel}
use coil_servo.Bench.{Bench}
use coil_servo.Tools.Script.{Script, ◌>>=◌, pure, from_result, for_each}
use coil_servo.Tools.Methods.{Host, Status, entry_of, is_set, get_sts, set_cfg, configured, wait}
use coil_servo.Tools.Session.{with_channel}

module _ (R : Floats) where
  open R use {Float, mul, div, of_ℕ, of_ℤ}

  -- `s["i_meas"] / 128 * ch["i_fs"] / 8192`.
  abbrev pub measured_amps : ℤ → Float → Float
  measured_amps i_meas i_fs = div (mul (div (of_ℤ i_meas) (of_ℕ 128)) i_fs) (of_ℕ 8192)

  -- What `check` prints.
  pub record Report : Type 0 where
    pub alive : Bool
    pub status : Status
    pub amps : Float
    pub fault_set : Bool

module _ (W : Bench) where
  -- One light of the walk: `led=1 << k`.
  unfoldable pub light : ℕ → Script (Host W) (Unit {0})
  light k = do u ← set_cfg W (("led", pos (2 ^ k)) ∷ []); wait W 50000

module _ (R : Floats) (W : Bench) where
  open W.link use {Memory}

  -- The body of the `with` of `check`.
  unfoldable pub check_body : ChannelConfig R → Script (Host W) (Report R)
  unfolding light
  check_body ch = do
    s0 ← get_sts W
    u ← wait W 50000
    s1 ← get_sts W
    after ← entry_of "heartbeat" s1
    before ← entry_of "heartbeat" s0
    u ← for_each (upto 8) (light W)
    u ← set_cfg W (("led", pos 0) ∷ [])
    u ← configured W ch.cfg
    s ← get_sts W
    i_meas ← entry_of "i_meas" s
    fault ← entry_of "fault" s
    pure (record {
      alive = not (eqb_ℤ after before);
      status = s;
      amps = measured_amps R i_meas ch.i_fs;
      fault_set = is_set fault;
    })

  -- `main` of check.py.
  unfoldable pub check_main : String → Result (List (String × Table R)) → Script Memory (Report R)
  unfolding check_body
  check_main name file m = elim (load_channel R name file) [
    | err e ↦ (err e, m)
    | ok ch ↦ with_channel W R ch (check_body ch) m
  ]
