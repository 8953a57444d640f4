-- ===== src/Hdl/Top/Boost.antt =====
-- When the automatic boost is released.
use coil_servo.Base.{ℕ, suc, ◌-◌, ◌*◌, ◌^◌, ◌≤◌, ◌<◌, ◌≡◌, ◌↔◌, arith, true, false}
use coil_servo.Base.Int.{ℤ, pos, negsuc, abs_ℤ}
use coil_servo.Registers.Encode.{low_bits}
use coil_servo.Hdl.Top.{TopRegs, TopInputs, boost_thresh, next_boost}

-- Seven eighths of a setpoint of zero or more, at the resolution of the decimated current.
thresh_pos : (n : ℕ) → n < 8192 → boost_thresh (pos n) ≡ 112 * n
unfolding boost_thresh low_bits
thresh_pos n h = ground arith

thresh_neg : (n : ℕ) → n < 8192 → boost_thresh (negsuc n) ≡ 112 * (16383 - n)
unfolding boost_thresh low_bits
thresh_neg n h = ground arith

-- The registers with another setpoint in use.
abbrev pub with_setpoint : ℤ → TopRegs → TopRegs
with_setpoint v r = record r { err_0 = record r.err_0 { sp_active = v } }

-- An edge out of reset that takes a decimated sample, with the setpoint released, no pulse on the
-- integrator and the boost on, at a current that 128 codes of 14 bits sum to. For a size of 1 to
-- 7021 counts: the setpoint of that size above zero releases the boost exactly from seven eighths
-- of it on, either way, and that below zero never does.
pub boost_sticks :
    (x : TopInputs) (r : TopRegs) (n : ℕ)
    → x.aresetn ≡ true
    → r.fsm_0.int_clear ≡ false
    → r.fsm_0.sp_force_zero ≡ false
    → r.dec_i.out_valid ≡ true
    → r.auto_boost ≡ true
    → abs_ℤ r.dec_i.e_out ≤ 2 ^ 20
    → n < 7021
    → ((next_boost x (with_setpoint (pos (suc n)) r) ≡ false) ↔ (112 * suc n ≤ abs_ℤ r.dec_i.e_out))
      × (next_boost x (with_setpoint (negsuc n) r) ≡ true)
unfolding next_boost
boost_sticks x r n up quiet released strobe on small h = (
  rw (up, quiet, released, strobe, on, thresh_pos (suc n) (omega arith)) (ground arith),
  rw (up, quiet, released, strobe, on, thresh_neg n (omega arith)) (ground arith),
)
