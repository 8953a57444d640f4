-- ===== src/Board/Write.antt =====
-- The whole of `write_cfg`, with the writes to the board.
use Prim.Native.String.{String}
use coil_servo.Base.{
  ℕ, ◌*◌, ◌^◌, ◌<◌, ◌≡◌, ◌≢◌, refl, sym, ap, ◌∙◌, arith, if◌then◌else◌, none, some, List, [], ◌∷◌,
  All, Result, ok, err,
}
use coil_servo.Base.Int.{ℤ}
use coil_servo.Base.Dict.{lookup, IsDistinct}
use coil_servo.Base.Bits.Fields.{field, field-field}
use coil_servo.Registers.{Field, cfg_fields}
use coil_servo.Registers.Apart.{cfg-IsPlaced}
use coil_servo.Registers.Encode.{decode}
use coil_servo.Registers.Updates.{read_field, IsKnown, Updates, known_decodes}
use coil_servo.Link.{Wire, Link, cfg_addr}
use coil_servo.Board.{Board, stage, flush, write_cfg}
use coil_servo.Board.Stage.{
  contains, IsInBlock, IsAllowed, AvoidsWord, stage-Updates, stage_other_words,
}

module _ (W : Wire) where
  open W use {Memory, peek}

  -- The board's registers hold what the shadow says.
  pub record IsCoherent (b : Board Memory) : Type 0 where
    pub agrees : (j : ℕ) → j < 16 → peek b.memory (cfg_addr j) ≡ field b.cfg (32 * j) 32

module _ (L : Link) where
  open L use {
    Memory, peek, write_words, after_write, write_goes_through, peek_written, peek_unwritten,
  }

  word_fits : (cfg j : ℕ) → field cfg (32 * j) 32 < 2 ^ 32
  word_fits cfg j = omega arith

  -- Writing the listed words goes through, and writes those words of the shadow and no others.
  pub flush_lem :
      (cfg : ℕ) (ws : List ℕ) (m : Memory)
      → IsInBlock ws
      → (m' : Memory) × (flush L.wire cfg ws m ≡ (ok tt, m'))
        × ((j : ℕ)
            → j < 16
            → peek m' (cfg_addr j)
              ≡ (if contains j ws then field cfg (32 * j) 32 else peek m (cfg_addr j)))
  unfolding flush
  flush_lem cfg [] m h = (m, refl, λ j hj. refl)
  flush_lem cfg (w ∷ ws) m (h, hs) =
      let m1 = after_write m w (field cfg (32 * w) 32) in
      let through = write_goes_through m w (field cfg (32 * w) 32) h (word_fits cfg w) in
      let (m', ran, holds) = flush_lem cfg ws m1 hs in
      let next : Result (Unit {0}) × Memory → Result (Unit {0}) × Memory =
        λ q. elim q.0 [ err e ↦ (err e, q.1) | ok u ↦ flush L.wire cfg ws q.1 ] in
      (
        m',
        ap next through ∙ ran,
        λ j hj. ground (
          arith,
          holds j hj,
          word_fits cfg w,
          peek_written m w (field cfg (32 * w) 32) h (word_fits cfg w),
          λ (ne : j ≢ w). peek_unwritten m w (field cfg (32 * w) 32) j h (word_fits cfg w) hj ne,
        ),
      )

  -- A register field as the board holds it.
  unfoldable pub register : Memory → Field → ℕ
  register m f = field (peek m (cfg_addr f.word)) f.lsb f.width

  pub coherent_register :
      (b : Board Memory) (name : String) (f : Field)
      → IsCoherent L.wire b
      → lookup name cfg_fields ≡ some f
      → register b.memory f ≡ read_field b.cfg f
  unfolding register
  coherent_register b name f c e =
      let placed = cfg-IsPlaced name f e in
      ap (λ w. field w f.lsb f.width) (c.agrees f.word placed.2)
      ∙ field-field b.cfg (32 * f.word) 32 f.lsb f.width placed.1

  -- What `write_cfg` does when it raises nothing.
  pub record Written (b b' : Board Memory) (fields : List (String × ℤ)) : Type 0 where
    pub updates : Updates b.cfg b'.cfg fields
    pub coherent : IsCoherent L.wire b'
    pub same_guard : b'.max_clamp ≡ b.max_clamp
    pub other_words :
        (j : ℕ) → AvoidsWord j fields → field b'.cfg (32 * j) 32 ≡ field b.cfg (32 * j) 32

  pub write_cfg_unfold :
      (b : Board Memory) (fields : List (String × ℤ)) (touched : List ℕ) (cfg : ℕ) (m : Memory)
      → stage b.max_clamp b.cfg [] fields ≡ (ok touched, cfg)
      → flush L.wire cfg touched b.memory ≡ (ok tt, m)
      → write_cfg L.wire b fields ≡ (ok tt, record b { cfg = cfg; memory = m })
  unfolding write_cfg
  write_cfg_unfold b fields touched cfg m staged flushed =
      let write : Result (List ℕ) × ℕ → Result (Unit {0}) × Board Memory = λ q. elim q.0 [
        | err e ↦ (err e, record b { cfg = q.1 })
        | ok ws ↦
            let (done, n) = flush L.wire q.1 ws b.memory in
            (done, record b { cfg = q.1; memory = n })
      ] in
      let finish : Result (Unit {0}) × Memory → Result (Unit {0}) × Board Memory =
        λ q. (q.0, record b { cfg = cfg; memory = q.1 }) in
      ap write staged ∙ ap finish flushed

  pub write_cfg-Written :
      (b : Board Memory) (fields : List (String × ℤ))
      → IsCoherent L.wire b
      → IsDistinct fields
      → All IsKnown fields
      → All (IsAllowed b.max_clamp) fields
      → (b' : Board Memory) × (write_cfg L.wire b fields ≡ (ok tt, b')) × Written b b' fields
  write_cfg-Written b fields c d k a =
      let (touched, cfg, staged, updates, in_block, covers) =
        stage-Updates b.max_clamp b.cfg [] fields tt d k a in
      let (m, flushed, holds) = flush_lem cfg touched b.memory in_block in
      (
        record b { cfg = cfg; memory = m },
        write_cfg_unfold b fields touched cfg m staged flushed,
        record {
          updates = updates;
          coherent = record {
            agrees = λ j hj. ground (arith, holds j hj, covers j, c.agrees j hj);
          };
          same_guard = refl;
          other_words = λ j v.
              ap (λ q. field q.1 (32 * j) 32) (sym staged)
              ∙ stage_other_words b.max_clamp b.cfg [] fields j k a v;
        },
      )

  -- Named values that the table knows, that fit their fields and that the guard allows, written
  -- through a coherent object: the call raises nothing; the board's register of each named field
  -- then decodes to the value; every other field of the board is what it was; and the object is
  -- still coherent.
  pub write_cfg_registers :
      (b : Board Memory) (fields : List (String × ℤ))
      → IsCoherent L.wire b
      → IsDistinct fields
      → All IsKnown fields
      → All (IsAllowed b.max_clamp) fields
      → (b' : Board Memory) × (write_cfg L.wire b fields ≡ (ok tt, b'))
        × IsCoherent L.wire b'
        × ((name : String) (f : Field) (value : ℤ)
            → lookup name cfg_fields ≡ some f
            → lookup name fields ≡ some value
            → decode (register b'.memory f) f.width f.signed ≡ value)
        × ((name : String) (f : Field)
            → lookup name cfg_fields ≡ some f
            → lookup name fields ≡ none
            → register b'.memory f ≡ register b.memory f)
  write_cfg_registers b fields c d k a =
      let (b', ran, w) = write_cfg-Written b fields c d k a in
      (
        b',
        ran,
        w.coherent,
        λ name f value e h.
            ap (λ r. decode r f.width f.signed)
              (coherent_register b' name f w.coherent e ∙ w.updates.named name f value e h)
            ∙ known_decodes fields name value f k h e,
        λ name f e h.
            coherent_register b' name f w.coherent e
            ∙ w.updates.others name f e h
            ∙ sym (coherent_register b name f c e),
      )
