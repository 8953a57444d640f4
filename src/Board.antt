-- ===== src/Board.antt =====
-- `Board` of host/coil_servo_host/board.py: the named configuration writes with their local shadow.
-- A method returns its result or exception together with the object, since what was changed before
-- an exception stays changed.
use Prim.Native.String.{String}
use Prim.Native.Nat.{bit_or}
use text.Mathlib.Text.{◌==◌ as str_eq}
use coil_servo.Base.{
  ℕ, zero, suc, ◌+◌, ◌-◌, ◌*◌, ◌^◌, ◌≡◌, Bool, true, false, ◌&&◌, if◌then◌else◌, ltb, ◌==◌, Option,
  none, some, List, [], ◌∷◌, Result, ok, err, Error, ◌>>=◌, same_bool,
}
use coil_servo.Base.Int.{ℤ, pos, ltb_ℤ}
use coil_servo.Base.Bits.{and_not}
use coil_servo.Base.Bits.Fields.{field}
use coil_servo.Registers.{Field, place, cfg_base, sts_base}
use coil_servo.Registers.Encode.{encode}
use coil_servo.Registers.Pack.{cfg_field}
use coil_servo.Registers.Parse.{parse_sts}
use coil_servo.Link.{Wire, cfg_addr}
pub mod Stage
pub mod Write
pub mod Torn
pub mod Failure
pub mod Leak
pub mod Clamp
pub mod Guard
pub mod Keeps
pub mod Sets
pub mod Connect
pub mod Select
pub mod Apply

-- The object: the guard, the shadow `_cfg`, and the memory behind its connection.
pub record Board (M : Type 0) : Type 0 where
  pub max_clamp : Option ℤ
  pub cfg : ℕ
  pub memory : M

-- The guard on `out_clamp`.
unfoldable pub exceeds_clamp : Option ℤ → String → ℤ → Bool
exceeds_clamp none name value = false
exceeds_clamp (some limit) name value = str_eq name "out_clamp" && ltb_ℤ limit value

-- `touched.add(word)`, kept in order since `sorted(touched)` is all that is read of it.
unfoldable pub add_word : ℕ → List ℕ → List ℕ
add_word w [] = w ∷ []
add_word w (v ∷ vs) = if ltb w v then w ∷ v ∷ vs else if w == v then v ∷ vs else v ∷ add_word w vs

-- `self._cfg &= ~(((1 << width) - 1) << bit)`.
abbrev pub cleared : ℕ → Field → ℕ
cleared cfg f = and_not cfg ((2 ^ f.width - 1) * 2 ^ place f)

-- One round of the loop of `write_cfg`: the new shadow, and the exception or the word touched. The
-- field is cleared before `_encode` may raise.
unfoldable pub stage_field : Option ℤ → ℕ → String → ℤ → Result ℕ × ℕ
stage_field max_clamp cfg name value =
    if exceeds_clamp max_clamp name value
    then (err Error.value_error, cfg)
    else elim (cfg_field name) [
      | err e ↦ (err e, cfg)
      | ok f ↦ elim (encode value f.width f.signed) [
        | err e ↦ (err e, cleared cfg f)
        | ok raw ↦ (ok f.word, bit_or (cleared cfg f) (raw * 2 ^ place f))
      ]
    ]

-- The loop of `write_cfg`.
unfoldable pub stage : Option ℤ → ℕ → List ℕ → List (String × ℤ) → Result (List ℕ) × ℕ
stage max_clamp cfg touched [] = (ok touched, cfg)
stage max_clamp cfg touched ((name, value) ∷ fields) =
    let (r, cfg') = stage_field max_clamp cfg name value in
    elim r [ err e ↦ (err e, cfg') | ok w ↦ stage max_clamp cfg' (add_word w touched) fields ]

-- `block |= w << (32 * k)` over the words read, from word `k` on.
unfoldable pub assemble : ℕ → ℕ → List ℕ → ℕ
assemble k block [] = block
assemble k block (w ∷ ws) = assemble (k + 1) (bit_or block (w * 2 ^ (32 * k))) ws

-- `{k: v for k, v in cfg_fields.items() if CFG_FIELDS[k][0] == 0}`, or `!= 0`.
unfoldable pub select : Bool → List (String × ℤ) → Result (List (String × ℤ))
select control [] = ok []
select control ((name, value) ∷ fields) = do
  f ← cfg_field name
  chosen ← select control fields
  ok (if same_bool (f.word == 0) control then (name, value) ∷ chosen else chosen)

module _ (W : Wire) where
  open W use {Memory, write_words, read_words}

  -- `for w in sorted(touched): self.write_words(…)`. What was written stays written.
  unfoldable pub flush : ℕ → List ℕ → Memory → Result (Unit {0}) × Memory
  flush cfg [] m = (ok tt, m)
  flush cfg (w ∷ ws) m =
      let (r, m') = write_words m (cfg_addr w) (field cfg (32 * w) 32 ∷ []) in
      elim r [ err e ↦ (err e, m') | ok u ↦ flush cfg ws m' ]

  -- `Board.write_cfg`.
  unfoldable pub write_cfg : Board Memory → List (String × ℤ) → Result (Unit {0}) × Board Memory
  write_cfg b fields =
      let (r, cfg) = stage b.max_clamp b.cfg [] fields in
      elim r [
        | err e ↦ (err e, record b { cfg = cfg })
        | ok touched ↦
            let (done, m) = flush cfg touched b.memory in (done, record b { cfg = cfg; memory = m })
      ]

  -- One method after another, the second only if the first raised nothing.
  pub then_do :
      Result (Unit {0}) × Board Memory
      → (Board Memory → Result (Unit {0}) × Board Memory)
      → Result (Unit {0}) × Board Memory
  then_do (r, b) next = elim r [ err e ↦ (err e, b) | ok u ↦ next b ]

  -- `Board.pulse`.
  pub pulse : Board Memory → String → Result (Unit {0}) × Board Memory
  pulse b name = then_do (write_cfg b ((name, pos 1) ∷ [])) λ b'. write_cfg b' ((name, pos 0) ∷ [])

  -- `Board(…)`: the shadow is read from the hardware at connect.
  pub connect : Memory → Option ℤ → Result (Board Memory)
  connect m max_clamp = do
    words ← read_words m cfg_base 16
    ok (record { max_clamp = max_clamp; cfg = assemble 0 0 words; memory = m })

  -- `Board.sts`.
  unfoldable pub sts : Board Memory → Result (List (String × ℤ) × String)
  sts b = do words ← read_words b.memory sts_base 8; parse_sts (assemble 0 0 words)

  -- `if fields: self.write_cfg(**fields)`.
  pub write_any : Board Memory → List (String × ℤ) → Result (Unit {0}) × Board Memory
  write_any b [] = (ok tt, b)
  write_any b (e ∷ fields) = write_cfg b (e ∷ fields)

  -- `Board.apply_config`.
  pub apply_config : Board Memory → List (String × ℤ) → Result (Unit {0}) × Board Memory
  apply_config b fields = elim (select true fields) [
    | err e ↦ (err e, b)
    | ok control ↦ elim (select false fields) [
      | err e ↦ (err e, b)
      | ok rest ↦ then_do (write_any b rest) λ b'. write_any b' control
    ]
  ]
