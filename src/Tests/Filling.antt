-- ===== src/Tests/Filling.antt =====
-- A bench whose FIFO fills, and the wait for it.
use mathlib.Core.Path.{subst}
use coil_servo.Base.{
  sym, ◌∙◌, false, Bool, leb, ◌≤◌, ℕ, ◌+◌, ◌≡◌, refl, arith, true, ◌==◌, if◌then◌else◌, some, List,
  [], ◌∷◌, none, replicate, Result, ok, err,
}
use coil_servo.Base.Int.{leb_ℤ, ℤ, pos}
use coil_servo.Registers.{sts_fields, sts_base}
use coil_servo.Registers.Encode.{low_bits, decode}
use coil_servo.Registers.Parse.{item, parse_fields, parse_sts}
use coil_servo.Link.{Link}
use coil_servo.Board.{Board, sts, assemble}
use coil_servo.Bench.{Bench}
use coil_servo.Tools.Methods.{fifo_count, wait, poll}
use coil_servo.Tools.Waiting.Filling.{IsFilling, poll_fills}
use coil_servo.Tests.Fixtures.{plain_link}
use coil_servo.Tests.Benches.{idle_link, at_clock, idle, slept_keeps}

-- A FIFO that is full from the time 3000 on.
abbrev counted : Bool → List ℕ
counted full = 0 ∷ 0 ∷ 0 ∷ 0 ∷ 0 ∷ (if full then 16384 else 0) ∷ 0 ∷ 0 ∷ []

abbrev filling_link : Link
filling_link = record idle_link {
  wire = record plain_link.wire {
    read_words = λ m a n.
        if a == sts_base then ok (counted (leb 3000 (m 0))) else plain_link.read_words m a n;
  };
  read_block = λ m. refl;
}

abbrev filling : Bench
filling = record {
  link = filling_link;
  pop_words = λ m a n. (ok (replicate n 0), m);
  sleep = λ d m. (ok tt, at_clock m (m 0 + d));
  now = λ m. m 0;
  pop_keeps = λ m a n k h. refl;
  sleep_keeps = slept_keeps;
  sleep_passes = λ m d h. omega arith;
}

count_of : Bool → Result ℤ
count_of full = elim (parse_sts (assemble 0 0 (counted full))) [
  | err e ↦ err e
  | ok s ↦ item "fifo_count" s.0
]

count_known : (full : Bool) → count_of full ≡ ok (pos (if full then 16384 else 0))
unfolding count_of parse_sts parse_fields sts_fields assemble low_bits decode
count_known true = refl
count_known false = refl

filling_count :
    (b : Board (ℕ → ℕ))
    → fifo_count filling b ≡ ok (pos (if leb 3000 (b.memory 0) then 16384 else 0))
unfolding fifo_count sts count_of
filling_count b = count_known (leb 3000 (b.memory 0))

full_later :
    (b : Board (ℕ → ℕ)) (count : ℤ)
    → 3000 ≤ b.memory 0
    → fifo_count filling b ≡ ok count
    → leb_ℤ (pos 16384) count ≡ true
full_later b count late h =
    let same : ok (pos (if leb 3000 (b.memory 0) then 16384 else 0)) ≡ ok count =
      sym (filling_count b) ∙ h in
    let value : pos (if leb 3000 (b.memory 0) then 16384 else 0) ≡ count = cc in
    subst (λ c. leb_ℤ (pos 16384) c ≡ true) value (ground arith)

filling-IsFilling : IsFilling filling 3000 0
unfolding wait
filling-IsFilling = record {
  readable = λ b. (_, filling_count b);
  full = full_later;
  sleeps = λ b. refl;
  passes = λ b. omega arith;
  prompt = λ b. omega arith;
}

poll_fills_example : (b' : Board (ℕ → ℕ)) × (poll filling 6000 5999 none idle ≡ some (ok tt, b'))
poll_fills_example =
    poll_fills filling 3000 0 filling-IsFilling 6000 5999 none idle (omega arith) (omega arith)
      (omega arith)
