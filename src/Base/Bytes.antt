-- ===== src/Base/Bytes.antt =====
-- Bytes as numbers below 256, and the words that `struct` packs little-endian.
use coil_servo.Base.Lists.{length}
use Prim.Native.Nat.{ℕ, ◌+◌, ◌*◌, ◌/◌, ◌%◌, ◌^◌, ◌<◌}
use mathlib.Core.Path.{◌≡◌, refl}
use mathlib.Core.List.{List, [], ◌∷◌, ◌++◌}
use native.Mathlib.Omega.{arith}

-- `struct.pack("<I", w)` for a word that fits.
abbrev pub le32 : ℕ → List ℕ
le32 w = w % 256 ∷ w / 256 % 256 ∷ w / 65536 % 256 ∷ w / 16777216 % 256 ∷ []

-- `struct.unpack_from("<I", …)` on four bytes.
abbrev pub word_of : ℕ → ℕ → ℕ → ℕ → ℕ
word_of a b c d = a + 256 * b + 65536 * c + 16777216 * d

pub word_of-le32 :
    (w : ℕ)
    → w < 2 ^ 32
    → word_of (w % 256) (w / 256 % 256) (w / 65536 % 256) (w / 16777216 % 256) ≡ w
word_of-le32 w h = omega arith

-- `struct.pack(f"<{n}I", *ws)`.
abbrev pub pack_words : List ℕ → List ℕ
pack_words [] = []
pack_words (w ∷ ws) = le32 w ++ pack_words ws

pub length-pack_words : (ws : List ℕ) → length (pack_words ws) ≡ 4 * length ws
length-pack_words [] = refl
length-pack_words (w ∷ ws) = omega (arith, length-pack_words ws)
