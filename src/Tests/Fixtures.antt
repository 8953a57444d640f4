-- ===== src/Tests/Fixtures.antt =====
-- A register memory as a function of the address, as a link, and a board on it.
use Prim.Native.String.{String}
use native.Mathlib.Nat.{mod-eq_of_lt}
use coil_servo.Base.{
  ℕ, ◌*◌, ◌+◌, ◌%◌, ◌^◌, ◌<◌, ◌≡◌, ◌≢◌, refl, arith, false, true, if◌then◌else◌, ◌==◌, some, List,
  [], ◌∷◌, map, upto, ok, All,
}
use coil_servo.Base.Int.{ℤ, pos, neg, negsuc}
use coil_servo.Base.Bits.Fields.{field_zero}
use coil_servo.Base.Dict.{str_eq_iff}
use text.Mathlib.Text.{◌==◌ as str_eq}
use coil_servo.Registers.{cfg_fields}
use coil_servo.Registers.Encode.{lo, hi}
use coil_servo.Registers.Updates.{IsKnown}
use coil_servo.Link.{Link, cfg_addr}
use coil_servo.Board.{Board, exceeds_clamp}
use coil_servo.Board.Stage.{IsAllowed}
use coil_servo.Board.Write.{IsCoherent, register}
use coil_servo.Board.Guard.{IsGuarded}

abbrev put_word : (ℕ → ℕ) → ℕ → ℕ → ℕ → ℕ
put_word m a w x = if x == a then w else m x

abbrev pub put_words : (ℕ → ℕ) → ℕ → List ℕ → ℕ → ℕ
put_words m a [] = m
put_words m a (w ∷ ws) = put_words (put_word m a w) (a + 4) ws

abbrev pub word_at : (ℕ → ℕ) → ℕ → ℕ
word_at m a = m a % 2 ^ 32

pub word_put :
    (m : ℕ → ℕ) (k w : ℕ)
    → k < 16
    → w < 2 ^ 32
    → word_at (put_word m (cfg_addr k) w) (cfg_addr k) ≡ w
word_put m k w hk hw = ground (arith, mod-eq_of_lt hw)

pub word_elsewhere :
    (m : ℕ → ℕ) (k w j : ℕ)
    → k < 16
    → w < 2 ^ 32
    → j < 16
    → j ≢ k
    → word_at (put_word m (cfg_addr k) w) (cfg_addr j) ≡ word_at m (cfg_addr j)
word_elsewhere m k w j hk hw hj ne = ground arith

abbrev pub plain_link : Link
plain_link = record {
  wire = record {
    Memory = ℕ → ℕ;
    peek = word_at;
    write_words = λ m a ws. (ok tt, put_words m a ws);
    read_words = λ m a n. ok (map (λ k. word_at m (a + 4 * k)) (upto n));
  };
  after_write = λ m k w. put_word m (cfg_addr k) w;
  write_goes_through = λ m k w hk hw. refl;
  peek_written = word_put;
  peek_unwritten = word_elsewhere;
  read_block = λ m. refl;
  peek_fits = λ m k hk. omega arith;
}

abbrev pub no_words : ℕ → ℕ
no_words a = 0

abbrev pub limited : Board (ℕ → ℕ)
limited = record { max_clamp = some (pos 5000); cfg = 0; memory = no_words }

pub limited-IsCoherent : IsCoherent plain_link.wire limited
limited-IsCoherent = record { agrees = λ j hj. omega (arith, field_zero (32 * j) 32) }

pub limited-IsGuarded : IsGuarded plain_link (pos 5000) limited
unfolding register
limited-IsGuarded = record {
  guard_set = refl;
  shadow_clamped = omega arith;
  board_clamped = omega arith;
}

-- Values that the table knows.
pub kp_known : IsKnown ("kp_mant", negsuc 2)
unfolding cfg_fields lo hi neg
kp_known = record {
  in_field = record { word = 2; lsb = 0; width = 18; signed = true };
  found = refl;
  fits = omega arith;
}

unfoldable pub enable_known : IsKnown ("servo_enable", pos 1)
unfolding cfg_fields lo hi neg
enable_known = record {
  in_field = record { word = 0; lsb = 0; width = 1; signed = false };
  found = refl;
  fits = omega arith;
}

abbrev pub start_up : List (String × ℤ)
start_up = ("servo_enable", pos 1) ∷ ("kp_mant", negsuc 2) ∷ []

pub start_up-IsKnown : All IsKnown start_up
start_up-IsKnown = (enable_known, (kp_known, tt))

pub start_up-IsAllowed : All (IsAllowed (some (pos 5000))) start_up
unfolding exceeds_clamp
start_up-IsAllowed = (refl, (refl, tt))

pub different : (a b : String) → str_eq a b ≡ false → a ≢ b
different a b h e = ground (arith, str_eq_iff a b)
