-- ===== src/Board/Torn.antt =====
-- `write_cfg` of a `Board` over a connection on which a write may fail, and the call repeated.
use Prim.Native.String.{String}
use coil_servo.Base.{ℕ, ◌*◌, ◌^◌, ◌<◌, ◌≡◌, ◌≢◌, ◌⊎◌, true, false, List, [], ◌∷◌, Result, ok}
use coil_servo.Base.Int.{ℤ}
use coil_servo.Base.Bits.Fields.{field}
use coil_servo.Registers.Updates.{Updates}
use coil_servo.Link.{Wire, cfg_addr}
use coil_servo.Board.{Board}
use coil_servo.Board.Stage.{contains}
use coil_servo.Board.Write.{IsCoherent}

module _ (W : Wire) where
  open W use {Memory, peek, write_words}

  -- A write of one word to the block, whether it returns or raises, changes that word alone and leaves
  -- there the new value or the old one; if it returns, the new one.
  pub record IsWordwise : Type 0 where
    pub lands :
        (m : Memory) (k w : ℕ)
        → k < 16
        → w < 2 ^ 32
        → (write_words m (cfg_addr k) (w ∷ [])).0 ≡ ok tt
        → peek (write_words m (cfg_addr k) (w ∷ [])).1 (cfg_addr k) ≡ w
    pub torn :
        (m : Memory) (k w : ℕ)
        → k < 16
        → w < 2 ^ 32
        → (peek (write_words m (cfg_addr k) (w ∷ [])).1 (cfg_addr k) ≡ w)
          ⊎ (peek (write_words m (cfg_addr k) (w ∷ [])).1 (cfg_addr k) ≡ peek m (cfg_addr k))
    pub alone :
        (m : Memory) (k w j : ℕ)
        → k < 16
        → w < 2 ^ 32
        → j < 16
        → j ≢ k
        → peek (write_words m (cfg_addr k) (w ∷ [])).1 (cfg_addr j) ≡ peek m (cfg_addr j)

  -- How a `flush` leaves the memory, whether it returns or raises.
  record Flushed (cfg : ℕ) (ws : List ℕ) (m : Memory) (q : Result (Unit {0}) × Memory)
      : Type 0 where
    mixed :
        (j : ℕ)
        → j < 16
        → (peek q.1 (cfg_addr j) ≡ field cfg (32 * j) 32)
          ⊎ (peek q.1 (cfg_addr j) ≡ peek m (cfg_addr j))
    spared : (j : ℕ) → j < 16 → contains j ws ≡ false → peek q.1 (cfg_addr j) ≡ peek m (cfg_addr j)
    written :
        q.0 ≡ ok tt
        → (j : ℕ) → j < 16
        → contains j ws ≡ true
        → peek q.1 (cfg_addr j) ≡ field cfg (32 * j) 32

  -- A call and the same call again: after the first one the shadow has the new values and each word
  -- of the board is that of the new shadow or that of the old one; after the second one, if it
  -- returns, the board and the shadow agree and have the values.
  pub record Recovers (fields : List (String × ℤ)) (b b1 : Board Memory)
      (q : Result (Unit {0}) × Board Memory) : Type 0 where
    pub staged : Updates b.cfg b1.cfg fields
    pub mixed :
        (j : ℕ)
        → j < 16
        → (peek b1.memory (cfg_addr j) ≡ field b1.cfg (32 * j) 32)
          ⊎ (peek b1.memory (cfg_addr j) ≡ field b.cfg (32 * j) 32)
    pub again : Updates b1.cfg q.1.cfg fields
    pub healed : q.0 ≡ ok tt → IsCoherent W q.1
