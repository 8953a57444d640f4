-- ===== src/Link.antt =====
-- What the board client needs of the register link: single words written to and runs of words read
-- from the configuration block, as the server of host/board/coil_servo_server.py offers them. The
-- client takes any implementation as a parameter.
use coil_servo.Base.{ℕ, ◌+◌, ◌*◌, ◌^◌, ◌<◌, ◌≡◌, ◌≢◌, List, [], ◌∷◌, Result, ok, map, upto}
use coil_servo.Registers.{cfg_base}

-- The address of word `k` of the configuration block.
abbrev pub cfg_addr : ℕ → ℕ
cfg_addr k = cfg_base + 4 * k

-- The operations alone. A write that raises may have changed the memory or not.
pub record Wire : Type 1 where
  -- The memory behind the link, and the word at an address.
  pub Memory : Type 0
  pub peek : Memory → ℕ → ℕ
  -- `Board.write_words` and `Board.read_words` at the other end of the connection.
  pub write_words : Memory → ℕ → List ℕ → Result (Unit {0}) × Memory
  pub read_words : Memory → ℕ → ℕ → Result (List ℕ)

-- A link that works.
pub record Link : Type 1 where
  pub wire : Wire
  pub open wire use *
  -- A word written to the block goes through, and changes that word only.
  pub after_write : Memory → ℕ → ℕ → Memory
  pub write_goes_through :
      (m : Memory) (k w : ℕ)
      → k < 16
      → w < 2 ^ 32
      → write_words m (cfg_addr k) (w ∷ []) ≡ (ok tt, after_write m k w)
  pub peek_written :
      (m : Memory) (k w : ℕ) → k < 16 → w < 2 ^ 32 → peek (after_write m k w) (cfg_addr k) ≡ w
  pub peek_unwritten :
      (m : Memory) (k w j : ℕ)
      → k < 16
      → w < 2 ^ 32
      → j < 16
      → j ≢ k
      → peek (after_write m k w) (cfg_addr j) ≡ peek m (cfg_addr j)
  -- A read of the whole block gives its words, which are 32-bit words.
  pub read_block :
      (m : Memory) → read_words m cfg_base 16 ≡ ok (map (λ k. peek m (cfg_addr k)) (upto 16))
  pub peek_fits : (m : Memory) (k : ℕ) → k < 16 → peek m (cfg_addr k) < 2 ^ 32
