-- ===== src/Board/Connect.antt =====
-- Words read from the board, put together: the shadow at connect, and the status block.
use Prim.Native.String.{String}
use Prim.Native.Nat.{bit_or}
use mathlib.Core.Path.{subst}
use coil_servo.Base.{
  ℕ, zero, suc, ◌*◌, ◌+◌, ◌-◌, ◌^◌, ◌≤◌, ◌<◌, ◌≡◌, refl, sym, ap, ◌∙◌, arith, Option, some, List,
  [], ◌∷◌, map, get_elem?, All, upto, count_from, ok,
}
use coil_servo.Base.Int.{ℤ}
use coil_servo.Base.Dict.{lookup}
use coil_servo.Base.Bits.Fields.{field, field-field, field_or_same, field_or_other, field_zero}
use coil_servo.Registers.{Field, sts_fields, sts_base}
use coil_servo.Registers.Apart.{sts-IsPlaced}
use coil_servo.Registers.Encode.{encode}
use coil_servo.Registers.Parse.{parse_sts_total}
use coil_servo.Link.{Link, cfg_addr}
use coil_servo.Board.{Board, assemble, connect, sts}
use coil_servo.Board.Write.{IsCoherent}

abbrev pub IsWords : List ℕ → Type 0
IsWords = All (λ w. w < 2 ^ 32)

-- A block whose words from `k` on are zero.
abbrev IsEmptyFrom : ℕ → ℕ → Type 0
IsEmptyFrom k block = (j : ℕ) → k ≤ j → field block (32 * j) 32 ≡ 0

module _ (k block w : ℕ) (fits : w < 2 ^ 32) where
  or_empty : IsEmptyFrom k block → IsEmptyFrom (k + 1) (bit_or block (w * 2 ^ (32 * k)))
  or_empty h j hj =
      field_or_other block w (32 * k) 32 (32 * j) 32 fits (omega arith) ∙ h j (omega arith)

  or_below :
      (j : ℕ)
      → j < k
      → field (bit_or block (w * 2 ^ (32 * k))) (32 * j) 32 ≡ field block (32 * j) 32
  or_below j hj = field_or_other block w (32 * k) 32 (32 * j) 32 fits (omega arith)

-- Each word stands at its place, and what stood below is kept.
assemble_lem :
    (ws : List ℕ) (k block : ℕ)
    → IsWords ws
    → IsEmptyFrom k block
    → ((j : ℕ) → j < k → field (assemble k block ws) (32 * j) 32 ≡ field block (32 * j) 32)
      × ((i w : ℕ) → get_elem? ws i ≡ some w → field (assemble k block ws) (32 * (k + i)) 32 ≡ w)
unfolding assemble
assemble_lem [] k block h e = (λ j hj. refl, λ i w x. cc)
assemble_lem (w ∷ ws) k block (h, hs) e =
    let (below, at) =
      assemble_lem ws (k + 1) (bit_or block (w * 2 ^ (32 * k))) hs (or_empty k block w h e) in
    (
      λ j hj. below j (omega arith) ∙ or_below k block w h j hj,
      λ i v x. step i v x (below k (omega arith)) (at (i - 1) v),
    )
  where
    after : ℕ
    after = assemble (k + 1) (bit_or block (w * 2 ^ (32 * k))) ws

    step :
        (i v : ℕ)
        → get_elem? (w ∷ ws) i ≡ some v
        → field after (32 * k) 32 ≡ field (bit_or block (w * 2 ^ (32 * k))) (32 * k) 32
        → (get_elem? ws (i - 1) ≡ some v → field after (32 * (k + 1 + (i - 1))) 32 ≡ v)
        → field after (32 * (k + i)) 32 ≡ v
    step zero v x first later =
        let same : w ≡ v = cc in
        let place : k + 0 ≡ k = omega arith in
        ap (λ n. field after (32 * n) 32) place
        ∙ first
        ∙ field_or_same block w (32 * k) 32 h (e k (omega arith))
        ∙ same
    step (suc i) v x first later =
        let back : suc i - 1 ≡ i = omega arith in
        let place : k + suc i ≡ k + 1 + (suc i - 1) = omega arith in
        ap (λ n. field after (32 * n) 32) place
        ∙ later (subst (λ n. get_elem? ws n ≡ some v) (sym back) x)

-- A block put together from words read holds each of them at its place.
pub assemble-words :
    (ws : List ℕ) (i w : ℕ)
    → IsWords ws
    → get_elem? ws i ≡ some w
    → field (assemble 0 0 ws) (32 * i) 32 ≡ w
assemble-words ws i w h x =
    let place : 0 + i ≡ i = omega arith in
    ap (λ n. field (assemble 0 0 ws) (32 * n) 32) (sym place)
    ∙ (assemble_lem ws 0 0 h (λ j hj. field_zero (32 * j) 32)).1 i w x

module _ (L : Link) where
  open L use {Memory, peek, read_words, read_block, peek_fits}

  block_words : Memory → List ℕ
  block_words m = map (λ k. peek m (cfg_addr k)) (upto 16)

  map-IsWords :
      (m : Memory) (n k : ℕ)
      → k + n ≤ 16
      → IsWords (map (λ i. peek m (cfg_addr i)) (count_from k n))
  map-IsWords m zero k h = tt
  map-IsWords m (suc n) k h = (peek_fits m k (omega arith), map-IsWords m n (k + 1) (omega arith))

  get_words :
      (m : Memory) (n k i : ℕ)
      → i < n
      → get_elem? (map (λ j. peek m (cfg_addr j)) (count_from k n)) i
        ≡ some (peek m (cfg_addr (k + i)))
  get_words m zero k i h = absurd (omega arith)
  get_words m (suc n) k zero h = let place : k + 0 ≡ k = omega arith in rw place refl
  get_words m (suc n) k (suc i) h =
      let place : k + suc i ≡ k + 1 + i = omega arith in
      get_words m n (k + 1) i (omega arith) ∙ ap (λ j. some (peek m (cfg_addr j))) (sym place)

  -- A fresh connection raises nothing and has in its shadow what the board's registers hold.
  pub connect-IsCoherent :
      (m : Memory) (max_clamp : Option ℤ)
      → (b : Board Memory) × (connect L.wire m max_clamp ≡ ok b)
        × (b.memory ≡ m)
        × IsCoherent L.wire b
  unfolding connect
  connect-IsCoherent m max_clamp = (
    record { max_clamp = max_clamp; cfg = assemble 0 0 (block_words m); memory = m },
    unfold block_words in rw (read_block m) refl,
    refl,
    record {
      agrees = λ j hj.
          let place : 0 + j ≡ j = omega arith in
          sym (
            assemble-words (block_words m) j (peek m (cfg_addr j))
              (unfold block_words in map-IsWords m 16 0 (omega arith))
              (unfold block_words in
                get_words m 16 0 j hj ∙ ap (λ i. some (peek m (cfg_addr i))) place));
    },
  )

  -- Eight words read from the status block parse without an exception, and each named value is the
  -- one whose encoding stands in the field's digits of the field's word.
  pub sts_total :
      (b : Board Memory) (words : List ℕ)
      → read_words b.memory sts_base 8 ≡ ok words
      → IsWords words
      → (out : List (String × ℤ)) × (name : String) × (sts L.wire b ≡ ok (out, name))
        × ((key : String) (f : Field) (w : ℕ)
            → lookup key sts_fields ≡ some f
            → get_elem? words f.word ≡ some w
            → (v : ℤ) × (lookup key out ≡ some v)
              × (encode v f.width f.signed ≡ ok (field w f.lsb f.width)))
  unfolding sts
  sts_total b words h fits =
      let (out, name, parsed, values, state) = parse_sts_total (assemble 0 0 words) in
      (
        out,
        name,
        rw h parsed,
        λ key f w e x.
            let (v, found, encoded) = values key f e in
            (
              v,
              found,
              encoded
                  ∙ ap ok (
                      sym (
                        field-field (assemble 0 0 words) (32 * f.word) 32 f.lsb f.width
                          (sts-IsPlaced key f e).1)
                      ∙ ap (λ u. field u f.lsb f.width) (assemble-words words f.word w fits x)),
            ),
      )
