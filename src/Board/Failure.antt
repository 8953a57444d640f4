-- ===== src/Board/Failure.antt =====
-- `write_cfg` when it raises: nothing reaches the board, but the shadow keeps what the loop had
-- already changed.
use Prim.Native.String.{String}
use mathlib.Core.Path.{subst}
use coil_servo.Base.{
  ℕ, ◌<◌, ◌≡◌, inl, inr, refl, sym, ap, ◌∙◌, arith, Option-cases, Option, some, List, [], ◌∷◌, All,
  Result, ok, err, Error,
}
use coil_servo.Base.Int.{ℤ}
use coil_servo.Base.Dict.{lookup}
use coil_servo.Registers.{Field, cfg_fields}
use coil_servo.Registers.Apart.{cfg-IsPlaced}
use coil_servo.Registers.Encode.{IsEncodable, encode_refuses}
use coil_servo.Registers.Pack.{cfg_field, cfg_field_found}
use coil_servo.Link.{Link}
use coil_servo.Board.{Board, stage, stage_field, cleared, add_word, flush, write_cfg}
use coil_servo.Board.Stage.{add_word-IsInBlock, IsInBlock, IsAllowed}
use coil_servo.Board.Write.{flush_lem}

pub ok≢err : {A : Type 0} {a : A} {e : Error} → ok a ≡ err e → ⊥
ok≢err h = cc

-- A value of a known name that its field cannot hold.
pub record IsMisfit (e : String × ℤ) : Type 0 where
  pub in_field : Field
  pub found : lookup e.0 cfg_fields ≡ some in_field
  pub too_big : ¬ IsEncodable e.1 in_field.width in_field.signed

pub stage_field_misfit :
    (limit : Option ℤ) (cfg : ℕ) (name : String) (value : ℤ) (x : IsMisfit (name, value))
    → IsAllowed limit (name, value)
    → stage_field limit cfg name value ≡ (err Error.value_error, cleared cfg x.in_field)
unfolding stage_field
stage_field_misfit limit cfg name value x allowed =
    rw
      (
        allowed,
        cfg_field_found name x.in_field x.found,
        encode_refuses value x.in_field.width x.in_field.signed x.too_big,
      )
      refl

pub stage_fails :
    (limit : Option ℤ) (cfg cfg' : ℕ) (touched : List ℕ) (name : String) (value : ℤ)
    (fields : List (String × ℤ)) (e : Error)
    → stage_field limit cfg name value ≡ (err e, cfg')
    → stage limit cfg touched ((name, value) ∷ fields) ≡ (err e, cfg')
unfolding stage
stage_fails limit cfg cfg' touched name value fields e h =
    let rest : Result ℕ × ℕ → Result (List ℕ) × ℕ =
      λ q. elim q.0 [ err x ↦ (err x, q.1) | ok w ↦ stage limit q.1 (add_word w touched) fields ] in
    ap rest h

-- The word that one round touches is a word of the block, whatever is named.
stage_field_in_block :
    (limit : Option ℤ) (cfg : ℕ) (name : String) (value : ℤ) (w : ℕ)
    → (stage_field limit cfg name value).0 ≡ ok w
    → w < 16
unfolding stage_field cfg_field
stage_field_in_block limit cfg name value w h = elim (Option-cases (lookup name cfg_fields)) [
  | inl missing ↦ ground (arith, missing)
  | inr (f, found) ↦ ground (arith, found, cfg-IsPlaced name f found)
]

pub All-Unit : (fields : List (String × ℤ)) → All (λ e. Unit {0}) fields
All-Unit [] = tt
All-Unit (e ∷ fields) = (tt, All-Unit fields)

-- What every round keeps, the loop keeps, also when it raises; and the words to write are words of
-- the block.
module _ (limit : Option ℤ) (P : ℕ → Type 0) (Q : String → Type 0)
    (keep : (cfg : ℕ) (name : String) (value : ℤ)
      → Q name
      → P cfg
      → P (stage_field limit cfg name value).1) where
  pub stage_keeps :
      (fields : List (String × ℤ)) (cfg : ℕ) (touched : List ℕ)
      → All (λ e. Q e.0) fields
      → P cfg
      → IsInBlock touched
      → P (stage limit cfg touched fields).1
        × ((ws : List ℕ) → (stage limit cfg touched fields).0 ≡ ok ws → IsInBlock ws)
  unfolding stage
  stage_keeps [] cfg touched named p h =
      (p, λ ws e. let same : touched ≡ ws = cc in subst IsInBlock same h)
  stage_keeps ((name, value) ∷ fields) cfg touched (q, qs) p h =
      go (stage_field limit cfg name value) (keep cfg name value q p)
        (stage_field_in_block limit cfg name value) (λ c ts. stage_keeps fields c ts qs)
    where
      rest : Result ℕ × ℕ → Result (List ℕ) × ℕ
      rest q = elim q.0 [
        | err x ↦ (err x, q.1)
        | ok w ↦ stage limit q.1 (add_word w touched) fields
      ]

      go :
          (q : Result ℕ × ℕ)
          → P q.1
          → ((w : ℕ) → q.0 ≡ ok w → w < 16)
          → ((cfg : ℕ) (ts : List ℕ)
              → P cfg
              → IsInBlock ts
              → P (stage limit cfg ts fields).1
                × ((ws : List ℕ) → (stage limit cfg ts fields).0 ≡ ok ws → IsInBlock ws))
          → P (rest q).1 × ((ws : List ℕ) → (rest q).0 ≡ ok ws → IsInBlock ws)
      go (err x, c) p' w ih = (p', λ ws e. cc)
      go (ok w, c) p' fits ih =
          ih c (add_word w touched) p' (add_word-IsInBlock w touched (fits w refl) h)

module _ (L : Link) where
  open L use {Memory, peek}

  pub write_fails :
      (b : Board Memory) (fields : List (String × ℤ)) (e : Error) (cfg : ℕ)
      → stage b.max_clamp b.cfg [] fields ≡ (err e, cfg)
      → write_cfg L.wire b fields ≡ (err e, record b { cfg = cfg })
  unfolding write_cfg
  write_fails b fields e cfg h =
      let write : Result (List ℕ) × ℕ → Result (Unit {0}) × Board Memory = λ q. elim q.0 [
        | err x ↦ (err x, record b { cfg = q.1 })
        | ok ws ↦
            let (done, n) = flush L.wire q.1 ws b.memory in
            (done, record b { cfg = q.1; memory = n })
      ] in
      ap write h

  -- The second half of `write_cfg`, from what the loop gave.
  abbrev pub finish : Board Memory → Result (List ℕ) × ℕ → Result (Unit {0}) × Board Memory
  finish b q = elim q.0 [
    | err e ↦ (err e, record b { cfg = q.1 })
    | ok ws ↦
        let (done, m) = flush L.wire q.1 ws b.memory in (done, record b { cfg = q.1; memory = m })
  ]

  pub write_cfg-finish :
      (b : Board Memory) (fields : List (String × ℤ))
      → write_cfg L.wire b fields ≡ finish b (stage b.max_clamp b.cfg [] fields)
  unfolding write_cfg
  write_cfg-finish b fields = refl

  finish_atomic :
      (b : Board Memory) (q : Result (List ℕ) × ℕ)
      → ((ws : List ℕ) → q.0 ≡ ok ws → IsInBlock ws)
      → (e : Error) → (finish b q).0 ≡ err e
      → (finish b q).1.memory ≡ b.memory
  finish_atomic b (err x, c) inside e h = refl
  finish_atomic b (ok ws, c) inside e h =
      let (m, ran, holds) = flush_lem L c ws b.memory (inside ws refl) in
      absurd (ok≢err (sym (ap (λ q. q.0) ran) ∙ h))

  -- Over a link on which every write to the block goes through, a call of `write_cfg` that raises has
  -- written nothing to the board.
  pub write_cfg_atomic :
      (b : Board Memory) (fields : List (String × ℤ)) (e : Error)
      → (write_cfg L.wire b fields).0 ≡ err e
      → (write_cfg L.wire b fields).1.memory ≡ b.memory
  write_cfg_atomic b fields e =
      subst (λ r. r.0 ≡ err e → r.1.memory ≡ b.memory) (sym (write_cfg-finish b fields))
        (finish_atomic b (stage b.max_clamp b.cfg [] fields)
          (stage_keeps b.max_clamp (λ c. Unit) (λ n. Unit) (λ c n v q u. tt) fields b.cfg []
            (All-Unit fields) tt tt).1
          e)
