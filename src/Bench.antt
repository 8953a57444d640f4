-- ===== src/Bench.antt =====
-- What the host tools need of their surroundings besides the register link: the FIFO of the board,
-- time.sleep and time.monotonic. Times are whole microseconds.
use coil_servo.Base.{ℕ, ◌+◌, ◌≤◌, ◌<◌, ◌≡◌, List, Result, ok}
use coil_servo.Link.{Link, cfg_addr}

pub record Bench : Type 1 where
  pub link : Link
  -- `Board.pop_words` at the other end of the connection, which takes the words out of the FIFO.
  pub pop_words : link.Memory → ℕ → ℕ → Result (List ℕ) × link.Memory
  -- `time.sleep`, during which the hardware goes on; Ctrl-C ends it with an exception.
  pub sleep : ℕ → link.Memory → Result (Unit {0}) × link.Memory
  -- `time.monotonic`.
  pub now : link.Memory → ℕ
  -- The registers of the configuration change only when they are written.
  pub pop_keeps :
      (m : link.Memory) (a n k : ℕ)
      → k < 16
      → link.peek (pop_words m a n).1 (cfg_addr k) ≡ link.peek m (cfg_addr k)
  pub sleep_keeps :
      (m : link.Memory) (d k : ℕ)
      → k < 16
      → link.peek (sleep d m).1 (cfg_addr k) ≡ link.peek m (cfg_addr k)
  -- A sleep that is not interrupted takes at least its time.
  pub sleep_passes :
      (m : link.Memory) (d : ℕ) → (sleep d m).0 ≡ ok tt → now m + d ≤ now (sleep d m).1
