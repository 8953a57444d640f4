-- ===== src/Tools/Held.antt =====
-- A configuration field that a tool's calls do not name keeps its value through them.
use Prim.Native.String.{String}
use coil_servo.Base.{ℕ, ◌<◌, ◌≡◌, ◌≢◌, ap, ◌∙◌, Bool, some, List}
use coil_servo.Base.Int.{ℤ}
use coil_servo.Base.Dict.{lookup}
use coil_servo.Base.Bits.Fields.{field}
use coil_servo.Registers.{Field, cfg_fields}
use coil_servo.Registers.Apart.{cfg-IsPlaced}
use coil_servo.Link.{cfg_addr}
use coil_servo.Board.{Board, sts}
use coil_servo.Board.Write.{register}
use coil_servo.Board.Keeps.{Spares, IsHeld, write_cfg-IsHeld, pulse-IsHeld, apply_config-IsHeld}
use coil_servo.Bench.{Bench}
use coil_servo.Tools.Script.{Keeps, Keeps-bind, Keeps-reading, Keeps-from_result}
use coil_servo.Tools.Waiting.{await_fill-Keeps}
use coil_servo.Tools.Methods.{
  get_sts, set_cfg, configured, pulsed, wait, popped, warn_flags, capture, fifo_addr, fifo_depth,
}

module _ (x : String) (f : Field) (found : lookup x cfg_fields ≡ some f) (v : ℕ) (W : Bench) where
  open W.link use {Memory}

  abbrev pub Holding : Board Memory → Type 0
  Holding = IsHeld x f found v W.link

  pub set_cfg-IsHeld :
      (fields : List (String × ℤ)) → Spares x fields → Keeps Holding (set_cfg W fields)
  unfolding set_cfg
  set_cfg-IsHeld fields spared = record {
    after = λ b h. write_cfg-IsHeld x f found v W.link b fields spared h;
  }

  pub configured-IsHeld :
      (fields : List (String × ℤ)) → Spares x fields → Keeps Holding (configured W fields)
  unfolding configured
  configured-IsHeld fields spared = record {
    after = λ b h. apply_config-IsHeld x f found v W.link b fields spared h;
  }

  pub pulsed-IsHeld : (name : String) → name ≢ x → Keeps Holding (pulsed W name)
  unfolding pulsed
  pulsed-IsHeld name ne = record { after = λ b h. pulse-IsHeld x f found v W.link b name ne h }

  -- Only the memory changed, and not in this register.
  elsewhere :
      (b : Board Memory) (m : Memory)
      → ((k : ℕ) → k < 16 → W.link.peek m (cfg_addr k) ≡ W.link.peek b.memory (cfg_addr k))
      → Holding b
      → Holding (record b { memory = m })
  unfolding register
  elsewhere b m same h = record {
    shadow = h.shadow;
    board = ap (λ w. field w f.lsb f.width) (same f.word (cfg-IsPlaced x f found).2) ∙ h.board;
  }

  pub wait-IsHeld : (d : ℕ) → Keeps Holding (wait W d)
  unfolding wait
  wait-IsHeld d = record {
    after = λ b h. elsewhere b (W.sleep d b.memory).1 (W.sleep_keeps b.memory d) h;
  }

  pub popped-IsHeld : (addr count : ℕ) → Keeps Holding (popped W addr count)
  unfolding popped
  popped-IsHeld addr count = record {
    after =
        λ b h. elsewhere b (W.pop_words b.memory addr count).1 (W.pop_keeps b.memory addr count) h;
  }

  pub get_sts-IsHeld : Keeps Holding (get_sts W)
  unfolding get_sts
  get_sts-IsHeld = Keeps-reading (sts W.link.wire)

  pub warn_flags-IsHeld : Keeps Holding (warn_flags W)
  unfolding warn_flags
  warn_flags-IsHeld = Keeps-bind (get_sts W) _ get_sts-IsHeld (λ s.
      Keeps-bind _ _ (Keeps-from_result _)
        (λ fault. Keeps-bind _ _ (Keeps-from_result _) (λ m. Keeps-from_result _)))

  pub capture-IsHeld :
      (decimated : Bool) (timeout : ℕ)
      → "capture_sel" ≢ x
      → "fifo_rst" ≢ x
      → Keeps Holding (capture W decimated timeout)
  unfolding capture
  capture-IsHeld decimated timeout sel rst = Keeps-bind _ _ (set_cfg-IsHeld _ (sel, tt)) (λ u.
      Keeps-bind _ _ (pulsed-IsHeld "fifo_rst" rst) (λ u. Keeps-bind _ _ (Keeps-reading _) (λ start.
        Keeps-bind _ _ (await_fill-Keeps W Holding (wait-IsHeld 2000) _)
          (λ u. Keeps-bind _ _ (popped-IsHeld fifo_addr fifo_depth) (λ raw. Keeps-from_result _)))))
