-- ===== src/Tests/Torn.antt =====
-- A connection of which one write fails, and a call over it and again.
use coil_servo.Base.{
  ℕ, zero, suc, ◌+◌, ◌*◌, ◌≡◌, refl, some, List, map, upto, Result, ok, err, Error,
}
use coil_servo.Base.Int.{pos, neg}
use coil_servo.Link.{Wire}
use coil_servo.Board.{Board, flush, stage, stage_field, add_word, exceeds_clamp, write_cfg}
use coil_servo.Registers.{cfg_fields}
use coil_servo.Registers.Encode.{encode}
use coil_servo.Registers.Pack.{cfg_field}
use coil_servo.Tests.Fixtures.{word_at, put_words, no_words, start_up}

-- The words, and after how many writes one fails: at 1 the next one raises and writes nothing, at 0
-- no write fails any more.
abbrev Weak : Type 0
Weak = ℕ × (ℕ → ℕ)

abbrev weak_write : Weak → ℕ → List ℕ → Result (Unit {0}) × Weak
weak_write (zero, m) a ws = (ok tt, (zero, put_words m a ws))
weak_write (suc zero, m) a ws = (err Error.connection_error, (zero, m))
weak_write (suc (suc n), m) a ws = (ok tt, (suc n, put_words m a ws))

abbrev weak : Wire
weak = record {
  Memory = Weak;
  peek = λ m a. word_at m.1 a;
  write_words = weak_write;
  read_words = λ m a n. ok (map (λ k. word_at m.1 (a + 4 * k)) (upto n));
}

-- The second write fails.
abbrev fragile : Board Weak
fragile = record { max_clamp = some (pos 5000); cfg = 0; memory = (2, no_words) }

-- The first call raises with the second word unwritten, the second call returns.
tears :
    let (r, b1) = write_cfg weak fragile start_up in
    (r ≡ err Error.connection_error) × ((write_cfg weak b1 start_up).0 ≡ ok tt)
unfolding write_cfg flush stage stage_field add_word cfg_field cfg_fields encode exceeds_clamp neg
tears = (refl, refl)
