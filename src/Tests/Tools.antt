-- ===== src/Tests/Tools.antt =====
-- The tools around the client at concrete inputs.
use Prim.Native.String.{String}
use coil_servo.Base.{◌+◌, ◌≡◌, refl, false, true, ℕ, ◌<◌, [], take, map, List, ok, err, Error}
use coil_servo.Base.Int.{ℤ, pos}
use coil_servo.Registers.{sts_fields}
use coil_servo.Registers.Encode.{low_bits, decode}
use coil_servo.Registers.Parse.{parse_fields, parse_sts}
use coil_servo.Board.{assemble, sts}
use coil_servo.Deploy.Commands.{Machine, Options, Shell, commands, deploy_channel, deploy_order}
use coil_servo.Tests.Floating.{whole}
use coil_servo.Tests.Loops.{mot}
use coil_servo.Deploy.{IsQuiet, refuse_if_running, refuse_if_running-IsQuiet}
use coil_servo.Tests.Fixtures.{plain_link, limited}

abbrev idle_status : List (String × ℤ)
idle_status = parse_fields 0 sts_fields

status_read : sts plain_link.wire limited ≡ ok (idle_status, "IDLE")
unfolding sts parse_sts parse_fields sts_fields assemble low_bits decode
status_read = refl

refuse_if_running-IsQuiet_example :
    (IsQuiet (pos 0) (pos 0) → refuse_if_running plain_link (ok limited) false ≡ ok tt)
    × (¬ IsQuiet (pos 0) (pos 0)
        → refuse_if_running plain_link (ok limited) false ≡ err Error.system_exit)
unfolding parse_fields sts_fields decode
refuse_if_running-IsQuiet_example =
    refuse_if_running-IsQuiet plain_link limited idle_status "IDLE" (pos 0) (pos 0) status_read refl
      refl

-- A machine on which every command ends well, and no server answers.
abbrev machine : Machine whole plain_link
machine = record {
  World = ℕ;
  exists = λ w path. true;
  board_at = λ w host port. err Error.connection_error;
  execute = λ cmd w. (true, w + 1);
  host_text = λ host. "rp-mot";
  port_text = λ port. "9001";
  file_name = λ path. path;
  server_src = "coil_servo_server.py";
}

abbrev options : Options
options = record { bitstream = "coil_servo.bit.bin"; port = pos 9001; force = false }

deploy_order_example :
    let start : Shell whole plain_link machine = record { world = 0; ran = [] } in
    let out = deploy_channel whole plain_link machine mot options start in
    (n : ℕ) × (out.1.ran
      ≡ take n (map (λ c. c.0) (commands whole plain_link machine mot.host options)))
    × (0 < n
        → (true ≡ true) × (refuse_if_running plain_link (err Error.connection_error) false ≡ ok tt))
    × (out.0 ≡ ok tt → n ≡ 4)
deploy_order_example =
    deploy_order whole plain_link machine mot options (record { world = 0; ran = [] }) refl
