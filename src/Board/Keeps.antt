-- ===== src/Board/Keeps.antt =====
-- What a call of the board client leaves alone: a field that it does not name keeps its value, in
-- the shadow and on the board, also when the call raises.
use Prim.Native.String.{String}
use mathlib.Core.Path.{subst}
use coil_servo.Base.{
  ℕ, ◌*◌, ◌≡◌, ◌≢◌, refl, sym, ap, ◌∙◌, inl, inr, Bool, true, false, Bool-cases, Option-cases,
  if◌then◌else◌, Option, some, List, [], ◌∷◌, All, Result, ok, err, Error, ◌>>=◌, OnOk, same_bool,
  ◌==◌,
}
use coil_servo.Base.Int.{ℤ, pos}
use coil_servo.Base.Dict.{lookup}
use coil_servo.Base.Bits.Fields.{field, field-field, field_clear_other}
use coil_servo.Registers.{Field, place, cfg_fields}
use coil_servo.Registers.Apart.{cfg-IsApart, cfg-IsPlaced}
use coil_servo.Registers.Pack.{cfg_field}
use coil_servo.Registers.Updates.{read_field, IsKnown}
use coil_servo.Link.{Link, cfg_addr}
use coil_servo.Board.{
  Board, stage, stage_field, exceeds_clamp, write_cfg, pulse, then_do, select, write_any,
  apply_config,
}
use coil_servo.Board.Stage.{contains, IsInBlock, put_others, stage_field_known}
use coil_servo.Board.Write.{flush_lem, register}
use coil_servo.Board.Failure.{IsMisfit, stage_field_misfit, stage_keeps, finish, write_cfg-finish}
use coil_servo.Board.Clamp.{IsEncodable-or, refused, unknown}

-- None of the names is `x`.
abbrev pub Spares : String → List (String × ℤ) → Type 0
Spares x = All (λ e. e.0 ≢ x)

select-Spares :
    (x : String) (control : Bool) (fields : List (String × ℤ))
    → Spares x fields
    → OnOk (Spares x) (select control fields)
unfolding select
select-Spares x control [] s = tt
select-Spares x control ((name, value) ∷ fields) (ne, s) =
    go (cfg_field name) (select control fields) (select-Spares x control fields s)
  where
    go :
        (m : Result Field) (r : Result (List (String × ℤ)))
        → OnOk (Spares x) r
        → OnOk (Spares x) (do
          f ← m
          chosen ← r
          ok (if same_bool (f.word == 0) control then (name, value) ∷ chosen else chosen))
    go (err e) r h = tt
    go (ok f) (err e) h = tt
    go (ok f) (ok chosen) h = elim (Bool-cases (same_bool (f.word == 0) control)) [
      | inl taken ↦
          subst (λ b. Spares x (if b then (name, value) ∷ chosen else chosen)) (sym taken) (ne, h)
      | inr left ↦ subst (λ b. Spares x (if b then (name, value) ∷ chosen else chosen)) (sym left) h
    ]

module _ (x : String) (f : Field) (found : lookup x cfg_fields ≡ some f) (v : ℕ) where
  abbrev IsShadowed : ℕ → Type 0
  IsShadowed cfg = read_field cfg f ≡ v

  round-IsShadowed :
      (limit : Option ℤ) (cfg : ℕ) (name : String) (value : ℤ)
      → name ≢ x
      → IsShadowed cfg
      → IsShadowed (stage_field limit cfg name value).1
  round-IsShadowed limit cfg name value ne h = elim (Bool-cases (exceeds_clamp limit name value)) [
    | inl over ↦ subst (λ q. IsShadowed q.1) (sym (refused limit cfg name value over)) h
    | inr a ↦ elim (Option-cases (lookup name cfg_fields)) [
      | inl missing ↦ subst (λ q. IsShadowed q.1) (sym (unknown limit cfg name value a missing)) h
      | inr (g, known) ↦ elim (IsEncodable-or value g.width g.signed) [
        | inl fits ↦
            let k : IsKnown (name, value) = record { in_field = g; found = known; fits = fits } in
            subst (λ q. IsShadowed q.1) (sym (stage_field_known cfg name value k limit a))
              (put_others cfg name value k x f ne found ∙ h)
        | inr bad ↦
            let m : IsMisfit (name, value) = record {
              in_field = g;
              found = known;
              too_big = bad;
            } in
            subst (λ q. IsShadowed q.1) (sym (stage_field_misfit limit cfg name value m a))
              (field_clear_other cfg (place g) g.width (place f) f.width
                  (cfg-IsApart name x g f ne known found)
                ∙ h)
      ]
    ]
  ]

  module _ (L : Link) where
    open L use {Memory, peek}

    -- The field holds `v`, in the shadow and on the board.
    pub record IsHeld (b : Board Memory) : Type 0 where
      pub shadow : read_field b.cfg f ≡ v
      pub board : register L b.memory f ≡ v

    word_held :
        (c old : ℕ) (written : Bool) (w : ℕ)
        → w ≡ (if written then field c (32 * f.word) 32 else old)
        → read_field c f ≡ v
        → (written ≡ false → field old f.lsb f.width ≡ v)
        → field w f.lsb f.width ≡ v
    word_held c old true w e h h' =
        ap (λ u. field u f.lsb f.width) e
        ∙ field-field c (32 * f.word) 32 f.lsb f.width (cfg-IsPlaced x f found).1
        ∙ h
    word_held c old false w e h h' = ap (λ u. field u f.lsb f.width) e ∙ h' refl

    pub finish-IsHeld :
        (b : Board Memory) (q : Result (List ℕ) × ℕ)
        → ((ws : List ℕ) → q.0 ≡ ok ws → IsInBlock ws)
        → IsShadowed q.1
        → ((ws : List ℕ) → q.0 ≡ ok ws → contains f.word ws ≡ false → register L b.memory f ≡ v)
        → ((e : Error) → q.0 ≡ err e → register L b.memory f ≡ v)
        → IsHeld (finish L b q).1
    unfolding register
    finish-IsHeld b (err e, c) inside h left failed = record { shadow = h; board = failed e refl }
    finish-IsHeld b (ok ws, c) inside h left failed =
        let (m, ran, holds) = flush_lem L c ws b.memory (inside ws refl) in
        record {
          shadow = h;
          board =
              subst (λ q. register L q.1 f ≡ v) (sym ran)
                (word_held c (peek b.memory (cfg_addr f.word)) (contains f.word ws)
                  (peek m (cfg_addr f.word)) (holds f.word (cfg-IsPlaced x f found).2) h
                  (left ws refl));
        }

    -- A call of `write_cfg` that does not name the field keeps it, also when it raises.
    pub write_cfg-IsHeld :
        (b : Board Memory) (fields : List (String × ℤ))
        → Spares x fields
        → IsHeld b
        → IsHeld (write_cfg L.wire b fields).1
    write_cfg-IsHeld b fields spared h =
        let kept =
          stage_keeps b.max_clamp IsShadowed (λ n. n ≢ x) (round-IsShadowed b.max_clamp) fields
            b.cfg [] spared h.shadow tt in
        subst (λ r. IsHeld r.1) (sym (write_cfg-finish L b fields))
          (finish-IsHeld b (stage b.max_clamp b.cfg [] fields) kept.1 kept.0 (λ ws e out. h.board)
            (λ e failed. h.board))

    then_do-IsHeld :
        (r : Result (Unit {0}) × Board Memory)
        (next : Board Memory → Result (Unit {0}) × Board Memory)
        → IsHeld r.1
        → ((b : Board Memory) → IsHeld b → IsHeld (next b).1)
        → IsHeld (then_do L.wire r next).1
    unfolding then_do
    then_do-IsHeld (err e, b) next h k = h
    then_do-IsHeld (ok u, b) next h k = k b h

    pub pulse-IsHeld :
        (b : Board Memory) (name : String) → name ≢ x → IsHeld b → IsHeld (pulse L.wire b name).1
    unfolding pulse
    pulse-IsHeld b name ne h =
        then_do-IsHeld (write_cfg L.wire b ((name, pos 1) ∷ [])) _
          (write_cfg-IsHeld b ((name, pos 1) ∷ []) (ne, tt) h)
          (λ b' h'. write_cfg-IsHeld b' ((name, pos 0) ∷ []) (ne, tt) h')

    pub apply_config-IsHeld :
        (b : Board Memory) (fields : List (String × ℤ))
        → Spares x fields
        → IsHeld b
        → IsHeld (apply_config L.wire b fields).1
    unfolding apply_config write_any
    apply_config-IsHeld b fields spared h =
        go (select true fields) (select false fields) (select-Spares x true fields spared)
          (select-Spares x false fields spared)
      where
        any-IsHeld :
            (c : Board Memory) (chosen : List (String × ℤ))
            → Spares x chosen
            → IsHeld c
            → IsHeld (write_any L.wire c chosen).1
        any-IsHeld c [] s g = g
        any-IsHeld c (e ∷ chosen) s g = write_cfg-IsHeld c (e ∷ chosen) s g

        run :
            Result (List (String × ℤ))
            → Result (List (String × ℤ))
            → Result (Unit {0}) × Board Memory
        run first second = elim first [
          | err e ↦ (err e, b)
          | ok control ↦ elim second [
            | err e ↦ (err e, b)
            | ok rest ↦ then_do L.wire (write_any L.wire b rest) λ b'. write_any L.wire b' control
          ]
        ]

        go :
            (first second : Result (List (String × ℤ)))
            → OnOk (Spares x) first
            → OnOk (Spares x) second
            → IsHeld (run first second).1
        go (err e) second s s' = h
        go (ok control) (err e) s s' = h
        go (ok control) (ok rest) s s' =
            then_do-IsHeld (write_any L.wire b rest) _ (any-IsHeld b rest s' h)
              (λ b' h'. any-IsHeld b' control s h')
