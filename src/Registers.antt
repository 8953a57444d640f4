-- ===== src/Registers.antt =====
-- The register map: model/coil_servo_model/registers.py. The tables CFG_FIELDS and STS_FIELDS stand
-- here; the children have the functions that pack configuration fields and parse the status block.
pub mod Encode
pub mod Apart
pub mod Updates
pub mod Pack
pub mod Parse
use Prim.Native.String.{String}
use coil_servo.Base.{ℕ, ◌+◌, ◌*◌, Bool, true, false, List, [], ◌∷◌}

-- (word, lsb_within_word, width, signed)
pub record Field : Type 0 where
  pub word : ℕ
  pub lsb : ℕ
  pub width : ℕ
  pub signed : Bool

abbrev pub entry : String → ℕ → ℕ → ℕ → Bool → String × Field
entry name word lsb width signed =
    (name, record { word = word; lsb = lsb; width = width; signed = signed })

-- The place of a field in the whole block: `32 * w + lsb`.
abbrev pub place : Field → ℕ
place f = 32 * f.word + f.lsb

unfoldable pub cfg_fields : List (String × Field)
cfg_fields =
    entry "servo_enable" 0 0 1 false
    ∷ entry "int_clear" 0 1 1 false
    ∷ entry "sp_source" 0 2 1 false
    ∷ entry "fifo_rst" 0 3 1 false
    ∷ entry "out2_invert" 0 4 1 false
    ∷ entry "boost_mode" 0 5 1 false
    ∷ entry "boost_manual" 0 6 1 false
    ∷ entry "flip_fault_ack" 0 7 1 false
    ∷ entry "led" 0 8 8 false
    ∷ entry "open_loop" 0 16 1 false
    ∷ entry "capture_sel" 0 17 1 false
    ∷ entry "setpoint" 1 0 14 true
    ∷ entry "kp_mant" 2 0 18 true
    ∷ entry "kp_shift" 3 0 5 false
    ∷ entry "ki_mant" 4 0 18 true
    ∷ entry "ki_shift" 5 0 6 false
    ∷ entry "out_clamp" 6 0 14 false
    ∷ entry "deadband" 7 0 14 false
    ∷ entry "zero_win" 8 0 14 false
    ∷ entry "zero_holdoff" 9 0 16 false
    ∷ entry "deadtime" 10 0 16 false
    ∷ entry "settle" 11 0 32 false
    ∷ entry "flip_timeout" 12 0 32 false
    ∷ entry "dio_invert" 13 0 3 false
    ∷ []

unfoldable pub sts_fields : List (String × Field)
sts_fields =
    entry "fsm_state" 0 0 4 false
    ∷ entry "fault" 0 4 1 false
    ∷ entry "bridge_en" 0 5 1 false
    ∷ entry "polarity" 0 6 1 false
    ∷ entry "armed" 0 7 1 false
    ∷ entry "out_sat" 0 8 1 false
    ∷ entry "int_railed" 0 9 1 false
    ∷ entry "sp_sign_mismatch" 0 10 1 false
    ∷ entry "timeout_hold" 0 11 1 false
    ∷ entry "i_meas" 1 0 22 true
    ∷ entry "sp_active" 2 0 14 true
    ∷ entry "u14" 3 0 14 true
    ∷ entry "heartbeat" 4 0 32 false
    ∷ entry "fifo_count" 5 0 32 false
    ∷ []

abbrev pub fsm_states : List String
fsm_states =
    "IDLE" ∷ "RUN" ∷ "RAMP_DOWN" ∷ "DISABLE" ∷ "FLIP" ∷ "ENABLE" ∷ "SETTLE" ∷ "TIMEOUT_HOLD" ∷ []

abbrev pub cfg_base : ℕ
cfg_base = 0x4000_0000

abbrev pub sts_base : ℕ
sts_base = 0x4100_0000
