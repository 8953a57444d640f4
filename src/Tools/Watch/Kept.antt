-- ===== src/Tools/Watch/Kept.antt =====
-- watch.py leaves the board's registers alone.
use Prim.Native.String.{String}
use coil_servo.Base.{
  ℕ, zero, suc, ◌≡◌, refl, some, List, [], ◌∷◌, ◌++◌, Result, ok, err, unless_interrupted,
}
use coil_servo.Base.Dict.{lookup}
use coil_servo.Registers.{Field, cfg_fields}
use coil_servo.Board.{Board}
use coil_servo.Board.Write.{register}
use coil_servo.Floats.{Floats}
use coil_servo.Config.{Table, ChannelConfig, load_channel}
use coil_servo.Bench.{Bench}
use coil_servo.Tools.Script.{Keeps, Keeps-bind, Keeps-from_result}
use coil_servo.Tools.Methods.{Status}
use coil_servo.Tools.Held.{Holding, wait-IsHeld, get_sts-IsHeld}
use coil_servo.Tools.Session.{with_channel}
use coil_servo.Tools.Session.Kept.{with_channel-Keeps}
use coil_servo.Tools.Methods.{wait}
use coil_servo.Tools.Watch.{
  Line, watched_flags, raised_flags, look, watch_loop, watch_body, watch_main,
}

module _ (x : String) (f : Field) (found : lookup x cfg_fields ≡ some f) (W : Bench) where
  open W.link use {Memory}

  module _ (v : ℕ) (R : Floats) (ch : ChannelConfig R) where
    raised_flags-Keeps :
        (names : List String) (s : Status)
        → Keeps (Holding x f found v W) (raised_flags R W names s)
    unfolding raised_flags
    raised_flags-Keeps [] s = Keeps-from_result (ok [])
    raised_flags-Keeps (name ∷ names) s =
        let more = raised_flags-Keeps names s in
        Keeps-bind _ _ (Keeps-from_result _) (λ w. Keeps-bind _ _ more (λ l. Keeps-from_result _))

    look-Keeps : Keeps (Holding x f found v W) (look R W ch)
    unfolding look
    look-Keeps = Keeps-bind _ _ (get_sts-IsHeld x f found v W) λ s.
        Keeps-bind _ _ (Keeps-from_result _) λ i_meas.
          Keeps-bind _ _ (raised_flags-Keeps (watched_flags R W) s) λ flags. Keeps-from_result _

    watch_loop-IsHeld :
        (rounds interval : ℕ) (lines : List (Line R)) (b : Board Memory)
        → Holding x f found v W b
        → Holding x f found v W (watch_loop R W rounds interval ch lines b).2
    unfolding watch_loop
    watch_loop-IsHeld zero interval lines b h = h
    watch_loop-IsHeld (suc rounds) interval lines b h =
        go (look R W ch b) (look-Keeps.after b h) (watch_loop-IsHeld rounds interval)
      where
        Later : Type 0
        Later =
            (ls : List (Line R)) (c : Board Memory)
            → Holding x f found v W c
            → Holding x f found v W (watch_loop R W rounds interval ch ls c).2

        after_sleep :
            Line R
            → Result (Unit {0}) × Board Memory
            → Result (Unit {0}) × List (Line R) × Board Memory
        after_sleep line q = elim q.0 [
          | err e ↦ (err e, lines ++ (line ∷ []), q.1)
          | ok u ↦ watch_loop R W rounds interval ch (lines ++ (line ∷ [])) q.1
        ]

        slept :
            (line : Line R) (q : Result (Unit {0}) × Board Memory)
            → Holding x f found v W q.1
            → Later
            → Holding x f found v W (after_sleep line q).2
        slept line (err e, b'') h'' ih = h''
        slept line (ok u, b'') h'' ih = ih (lines ++ (line ∷ [])) b'' h''

        after_look :
            Result (Line R) × Board Memory → Result (Unit {0}) × List (Line R) × Board Memory
        after_look q = elim q.0 [
          | err e ↦ (err e, lines, q.1)
          | ok line ↦ after_sleep line (wait W interval q.1)
        ]

        go :
            (q : Result (Line R) × Board Memory)
            → Holding x f found v W q.1
            → Later
            → Holding x f found v W (after_look q).2
        go (err e, b') h' ih = h'
        go (ok line, b') h' ih =
            slept line (wait W interval b') ((wait-IsHeld x f found v W interval).after b' h') ih

    watch_body-Keeps :
        (rounds interval : ℕ) → Keeps (Holding x f found v W) (watch_body R W rounds interval ch)
    unfolding watch_body
    watch_body-Keeps rounds interval = record {
      after = λ b h.
          go (watch_loop R W rounds interval ch [] b) (watch_loop-IsHeld rounds interval [] b h)
            (unless_interrupted (watch_loop R W rounds interval ch [] b).0);
    }
      where
        go :
            (q : Result (Unit {0}) × List (Line R) × Board Memory)
            → Holding x f found v W q.2
            → (r : Result (Unit {0}))
            → Holding x f found v W
                (elim r as (λ _. Result (List (Line R)) × Board Memory) [
                  | err e ↦ (err e, q.2)
                  | ok u ↦ (ok q.1, q.2)
                ]).1
        go q h (err e) = h
        go q h (ok u) = h

  -- `watch`, after any number of rounds and however it ends, has changed no configuration register.
  watch_main_keeps :
      (R : Floats) (name : String) (file : Result (List (String × Table R))) (m : Memory)
      (rounds interval : ℕ)
      → register W.link (watch_main R W rounds interval name file m).1 f ≡ register W.link m f
  unfolding watch_main
  watch_main_keeps R name file m rounds interval = go (load_channel R name file)
    where
      go :
          (r : Result (ChannelConfig R))
          → register W.link
              (elim r as (λ _. Result (List (Line R)) × Memory) [
                | err e ↦ (err e, m)
                | ok ch ↦ with_channel W R ch (watch_body R W rounds interval ch) m
              ]).1
              f
            ≡ register W.link m f
      go (err e) = refl
      go (ok ch) =
          with_channel-Keeps x f found W R ch (watch_body R W rounds interval ch) m
            (λ v. watch_body-Keeps v R ch rounds interval)
