-- ===== src/Server/Store.antt =====
-- The store: words written and read back.
use mathlib.Core.Path.{subst}
use coil_servo.Base.{
  ℕ, ◌+◌, ◌*◌, ◌≤◌, ◌<◌, ◌^◌, ◌≡◌, refl, sym, ap, ◌∙◌, arith, ◌⊎◌, false, List, [], ◌∷◌, ◌++◌, All,
  length, ok,
}
use coil_servo.Base.Bytes.{le32, word_of-le32, pack_words}
use coil_servo.Server.{Words, put, write, read, read_from}

-- What writing words one after another leaves in the store.
abbrev pub put_words : Words → ℕ → List ℕ → Words
put_words words addr [] = words
put_words words addr (w ∷ ws) = put_words (put words addr w) (addr + 4) ws

pub write-pack_words :
    (words : Words) (addr : ℕ) (ws : List ℕ)
    → All (λ w. w < 2 ^ 32) ws
    → write words addr (pack_words ws) ≡ ok (put_words words addr ws)
unfolding write
write-pack_words words addr [] h = refl
write-pack_words words addr (w ∷ ws) (h, hs) =
    ap (λ v. write (put words addr v) (addr + 4) (pack_words ws)) (word_of-le32 w h)
    ∙ write-pack_words (put words addr w) (addr + 4) ws hs

-- Addresses outside the run keep their words.
pub put_words_below :
    (words : Words) (addr : ℕ) (ws : List ℕ) (a : ℕ)
    → (a < addr) ⊎ (addr + 4 * length ws ≤ a)
    → put_words words addr ws a ≡ words a
put_words_below words addr [] a h = refl
put_words_below words addr (w ∷ ws) a h =
    put_words_below (put words addr w) (addr + 4) ws a (omega arith) ∙ ground arith

read_from-put_words :
    (words : Words) (addr k : ℕ) (ws : List ℕ)
    → read_from (put_words words (addr + 4 * k) ws) addr false k (length ws) ≡ pack_words ws
unfolding read_from
read_from-put_words words addr k [] = refl
read_from-put_words words addr k (w ∷ ws) =
    let here = addr + 4 * k in
    let step : here + 4 ≡ addr + 4 * (k + 1) = omega arith in
    let first : put_words (put words here w) (here + 4) ws here ≡ w =
      put_words_below (put words here w) (here + 4) ws here (omega arith) ∙ ground arith in
    let later : read_from (put_words (put words here w) (here + 4) ws) addr false (k + 1)
          (length ws)
        ≡ pack_words ws =
      subst
        (λ a.
          read_from (put_words (put words here w) a ws) addr false (k + 1) (length ws)
          ≡ pack_words ws)
        (sym step) (read_from-put_words (put words here w) addr (k + 1) ws) in
    ap
      (λ v.
        le32 v
        ++ read_from (put_words (put words here w) (here + 4) ws) addr false (k + 1) (length ws))
      first
    ∙ ap (λ l. le32 w ++ l) later

pub read-put_words :
    (words : Words) (addr : ℕ) (ws : List ℕ)
    → read (put_words words addr ws) addr (length ws) false ≡ pack_words ws
unfolding read
read-put_words words addr ws =
    let start : addr + 4 * 0 ≡ addr = omega arith in
    subst (λ a. read_from (put_words words a ws) addr false 0 (length ws) ≡ pack_words ws) start
      (read_from-put_words words addr 0 ws)
