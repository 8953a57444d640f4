-- ===== src/Board/Guard.antt =====
-- The guard of `Board(…, max_clamp=…)` on the output clamp.
use Prim.Native.String.{String}
use mathlib.Core.Path.{subst}
use coil_servo.Base.{
  ℕ, ◌*◌, ◌≡◌, refl, sym, ap, ◌∙◌, arith, Bool, true, false, if◌then◌else◌, some, List, [], ◌∷◌,
  Result, ok, err,
}
use coil_servo.Base.Int.{ℤ, pos, ◌≤ℤ◌}
use coil_servo.Base.Bits.Fields.{field, field-field}
use coil_servo.Link.{Link, cfg_addr}
use coil_servo.Board.{Board, stage, write_cfg}
use coil_servo.Board.Stage.{contains, IsInBlock}
use coil_servo.Board.Write.{register, flush_lem}
use coil_servo.Board.Failure.{finish, write_cfg-finish, All-Unit, stage_keeps}
use coil_servo.Board.Clamp.{out_clamp, IsClamped, round-IsClamped}

module _ (L : Link) where
  open L use {Memory}

  -- Calls of `write_cfg` one after another, by a caller that goes on after an exception.
  pub writes : Board Memory → List (List (String × ℤ)) → Board Memory
  writes b [] = b
  writes b (fields ∷ more) = writes (write_cfg L.wire b fields).1 more

module _ (L : Link) (limit : ℤ) where
  open L use {Memory, peek}

  -- Neither the shadow nor the board's own register is above the limit.
  pub record IsGuarded (b : Board Memory) : Type 0 where
    pub guard_set : b.max_clamp ≡ some limit
    pub shadow_clamped : IsClamped limit b.cfg
    pub board_clamped : pos (register L b.memory out_clamp) ≤ℤ limit

  word_clamped :
      (c old : ℕ) (written : Bool) (w : ℕ)
      → w ≡ (if written then field c (32 * 6) 32 else old)
      → IsClamped limit c
      → pos (field old 0 14) ≤ℤ limit
      → pos (field w 0 14) ≤ℤ limit
  word_clamped c old true w e h h' =
      subst (λ r. pos r ≤ℤ limit)
        (sym (ap (λ v. field v 0 14) e ∙ field-field c 192 32 0 14 (omega arith))) h
  word_clamped c old false w e h h' = subst (λ v. pos (field v 0 14) ≤ℤ limit) (sym e) h'

  finish-IsGuarded :
      (b : Board Memory) (q : Result (List ℕ) × ℕ)
      → ((ws : List ℕ) → q.0 ≡ ok ws → IsInBlock ws)
      → IsClamped limit q.1
      → IsGuarded b
      → IsGuarded (finish L b q).1
  unfolding register
  finish-IsGuarded b (err x, c) inside h g = record {
    guard_set = g.guard_set;
    shadow_clamped = h;
    board_clamped = g.board_clamped;
  }
  finish-IsGuarded b (ok ws, c) inside h g =
      let (m, ran, holds) = flush_lem L c ws b.memory (inside ws refl) in
      record {
        guard_set = g.guard_set;
        shadow_clamped = h;
        board_clamped =
            subst (λ q. pos (register L q.1 out_clamp) ≤ℤ limit) (sym ran)
              (word_clamped c (peek b.memory (cfg_addr 6)) (contains 6 ws) (peek m (cfg_addr 6))
                (holds 6 (omega arith)) h g.board_clamped);
      }

  write_cfg-IsGuarded :
      (b : Board Memory) (fields : List (String × ℤ))
      → IsGuarded b
      → IsGuarded (write_cfg L.wire b fields).1
  write_cfg-IsGuarded b fields g =
      let kept =
        stage_keeps (some limit) (IsClamped limit) (λ n. Unit)
          (λ c n v q. round-IsClamped limit c n v) fields b.cfg [] (All-Unit fields)
          g.shadow_clamped tt in
      let kept' =
        subst
          (λ o.
            IsClamped limit (stage o b.cfg [] fields).1
            × ((ws : List ℕ) → (stage o b.cfg [] fields).0 ≡ ok ws → IsInBlock ws))
          (sym g.guard_set) kept in
      subst (λ r. IsGuarded r.1) (sym (write_cfg-finish L b fields))
        (finish-IsGuarded b (stage b.max_clamp b.cfg [] fields) kept'.1 kept'.0 g)

  -- An object built with a limit, on a board whose clamp register is not above it, never raises
  -- that register above the limit: not by any sequence of `write_cfg` calls with any names and
  -- values, the calls that raise included.
  pub writes-IsGuarded :
      (b : Board Memory) (calls : List (List (String × ℤ)))
      → IsGuarded b
      → IsGuarded (writes L b calls)
  unfolding writes
  writes-IsGuarded b [] g = g
  writes-IsGuarded b (fields ∷ more) g =
      writes-IsGuarded (write_cfg L.wire b fields).1 more (write_cfg-IsGuarded b fields g)
