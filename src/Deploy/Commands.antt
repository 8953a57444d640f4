-- ===== src/Deploy/Commands.antt =====
-- `run` and `main` of host/coil_servo_host/deploy.py: the commands and their order.
use Prim.Native.String.{String, ◌++◌ as joined_to}
use mathlib.Core.List.{append-nil, append_assoc}
use coil_servo.Base.{
  ℕ, suc, ◌<◌, ◌≡◌, refl, sym, ap, ◌∙◌, arith, Bool, true, false, not, ◌&&◌, if◌then◌else◌, List,
  [], ◌∷◌, ◌++◌, map, take, length, guard, Result, ok, err, Error,
}
use coil_servo.Base.Int.{ℤ}
use coil_servo.Floats.{Floats}
use coil_servo.Link.{Link}
use coil_servo.Board.{Board}
use coil_servo.Config.{Toml, Table, ChannelConfig, load_channel}
use coil_servo.Tools.Script.{Script, ◌>>=◌, from_result, reading, for_each}
use coil_servo.Deploy.{refuse_if_running}

-- What the program needs of the machine it runs on, and the text of values.
pub record Machine (R : Floats) (L : Link) : Type 1 where
  pub World : Type 0
  -- `bit.exists()`.
  pub exists : World → String → Bool
  -- `Board(host, port=port, timeout=2.0)`.
  pub board_at : World → Toml R → ℤ → Result (Board L.Memory)
  -- `subprocess.run(cmd)`: whether the exit status is zero, and the world after.
  pub execute : List String → World → Bool × World
  pub host_text : Toml R → String
  pub port_text : ℤ → String
  -- `bit.name`, and SERVER_SRC.
  pub file_name : String → String
  pub server_src : String

-- The arguments of the program besides the channel.
pub record Options : Type 0 where
  pub bitstream : String
  pub port : ℤ
  pub force : Bool

module _ (R : Floats) (L : Link) (M : Machine R L) where
  open M use {World, exists, board_at, execute, host_text, port_text, file_name, server_src}

  -- The world, and the commands run so far.
  pub record Shell : Type 0 where
    pub world : World
    pub ran : List (List String)

  -- `run`, which raises CalledProcessError when it checks.
  unfoldable pub run : List String × Bool → Script Shell (Unit {0})
  run (cmd, check) s =
      let (fine, world) = execute cmd s.world in
      (
        if check && not fine then err Error.process_error else ok tt,
        record { world = world; ran = s.ran ++ (cmd ∷ []) },
      )

  -- The four calls of `run`, with their `check`.
  abbrev pub commands : Toml R → Options → List (List String × Bool)
  commands host o =
      let target = joined_to "root@" (host_text host) in
      ("scp" ∷ o.bitstream ∷ server_src ∷ joined_to target ":/root/" ∷ [], true)
      ∷ (
        "ssh"
            ∷ target
            ∷ joined_to "PATH=/opt/redpitaya/bin:$PATH fpgautil -b /root/" (file_name o.bitstream)
            ∷ [],
        true,
      )
      ∷ ("ssh" ∷ target ∷ "pkill -f coil_servo_server.py" ∷ [], false)
      ∷ (
        "ssh"
            ∷ target
            ∷ joined_to
                (joined_to "nohup python3 /root/coil_servo_server.py --port " (port_text o.port))
                " >/dev/null 2>&1 & sleep 0.5"
            ∷ [],
        true,
      )
      ∷ []

  unfoldable pub deploy_channel : ChannelConfig R → Options → Script Shell (Unit {0})
  unfolding run
  deploy_channel ch o = do
    found ← reading λ s. ok (exists s.world o.bitstream)
    u ← from_result (guard found Error.system_exit)
    u ← reading λ s. refuse_if_running L (board_at s.world ch.host o.port) o.force
    for_each (commands ch.host o) run

  unfoldable pub deploy_main :
      String → Result (List (String × Table R)) → Options → Script Shell (Unit {0})
  unfolding deploy_channel
  deploy_main name file o = do ch ← from_result (load_channel R name file); deploy_channel ch o

  -- Commands run one after another, up to the first that fails and is checked.
  for_each-run :
      (cmds : List (List String × Bool)) (s : Shell)
      → (n : ℕ) × ((for_each cmds run s).1.ran ≡ s.ran ++ take n (map (λ c. c.0) cmds))
        × ((for_each cmds run s).0 ≡ ok tt → n ≡ length cmds)
  unfolding for_each ◌>>=◌ from_result
  for_each-run [] s = (0, sym (append-nil s.ran), λ h. refl)
  for_each-run ((cmd, check) ∷ cmds) s =
      let s1 = (run (cmd, check) s).1 in
      go (run (cmd, check) s).0 s1 (unfold run in refl) (for_each-run cmds s1)
    where
      go :
          (r : Result (Unit {0})) (s1 : Shell)
          → s1.ran ≡ s.ran ++ (cmd ∷ [])
          → ((n : ℕ) × ((for_each cmds run s1).1.ran ≡ s1.ran ++ take n (map (λ c. c.0) cmds))
              × ((for_each cmds run s1).0 ≡ ok tt → n ≡ length cmds))
          → let q : Result (Unit {0}) × Shell = elim r [
            | err e ↦ (err e, s1)
            | ok u ↦ for_each cmds run s1
          ] in
            (n : ℕ) × (q.1.ran ≡ s.ran ++ take n (cmd ∷ map (λ c. c.0) cmds))
            × (q.0 ≡ ok tt → n ≡ suc (length cmds))
      go (err e) s1 added rest = (1, added, λ h. cc)
      go (ok u) s1 added (n, e, k) = (
        suc n,
        e
            ∙ ap (λ l. l ++ take n (map (λ c. c.0) cmds)) added
            ∙ append_assoc s.ran (cmd ∷ []) (take n (map (λ c. c.0) cmds)),
        λ h. ap suc (k h),
      )

  -- The commands of a deployment of a channel, from a shell that has run none: they are the first
  -- ones of the four, in their order; there is one only if the bitstream is there and
  -- `refuse_if_running` let it pass; and all four are run when nothing is raised.
  pub deploy_order :
      (ch : ChannelConfig R) (o : Options) (s : Shell)
      → s.ran ≡ []
      → let out = deploy_channel ch o s in
        (n : ℕ) × (out.1.ran ≡ take n (map (λ c. c.0) (commands ch.host o)))
        × (0 < n
            → (exists s.world o.bitstream ≡ true)
              × (refuse_if_running L (board_at s.world ch.host o.port) o.force ≡ ok tt))
        × (out.0 ≡ ok tt → n ≡ 4)
  unfolding deploy_channel ◌>>=◌ from_result reading
  deploy_order ch o s none_ran =
      go (exists s.world o.bitstream)
        (refuse_if_running L (board_at s.world ch.host o.port) o.force)
    where
      go :
          (there : Bool) (passed : Result (Unit {0}))
          → let script : Script Shell (Unit {0}) = (do
            found ← reading λ t. ok there
            u ← from_result (guard found Error.system_exit)
            u ← reading λ t. passed
            for_each (commands ch.host o) run) in
            (n : ℕ) × ((script s).1.ran ≡ take n (map (λ c. c.0) (commands ch.host o)))
            × (0 < n → (there ≡ true) × (passed ≡ ok tt))
            × ((script s).0 ≡ ok tt → n ≡ 4)
      go false passed = (0, none_ran, λ h. absurd (omega arith), λ h. cc)
      go true (err e) = (0, none_ran, λ h. absurd (omega arith), λ h. cc)
      go true (ok u) =
          let (n, e, k) = for_each-run (commands ch.host o) s in
          (
            n,
            e ∙ ap (λ l. l ++ take n (map (λ c. c.0) (commands ch.host o))) none_ran,
            λ h. (refl, refl),
            k,
          )
