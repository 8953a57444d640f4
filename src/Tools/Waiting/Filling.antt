-- ===== src/Tools/Waiting/Filling.antt =====
-- The wait of `capture` succeeds on a board whose FIFO fills in time.
use mathlib.Core.Bool.{true≢false}
use coil_servo.Base.{
  ℕ, zero, suc, ◌+◌, ◌-◌, ◌≤◌, ◌<◌, ◌≡◌, sym, ap, ◌∙◌, arith, true, false, Bool-cases, inl, inr,
  leb, ltb, Option, some, Result, ok, err,
}
use coil_servo.Base.Int.{ℤ, pos, leb_ℤ}
use coil_servo.Bench.{Bench}
use coil_servo.Tools.Methods.{Host, wait, fifo_count, fifo_depth, poll}
use coil_servo.Tools.Waiting.{poll_filled, poll_sleeps}

-- A board whose status can always be read, and whose FIFO is full from the time `full_at` on; and a
-- sleep that is never interrupted and takes at most `slack` longer than it should.
pub record IsFilling (W : Bench) (full_at slack : ℕ) : Type 0 where
  pub readable : (b : Host W) → (count : ℤ) × (fifo_count W b ≡ ok count)
  pub full :
      (b : Host W) (count : ℤ)
      → full_at ≤ W.now b.memory
      → fifo_count W b ≡ ok count
      → leb_ℤ (pos fifo_depth) count ≡ true
  pub sleeps : (b : Host W) → (wait W 2000 b).0 ≡ ok tt
  pub passes : (b : Host W) → W.now b.memory + 2000 ≤ W.now (wait W 2000 b).1.memory
  pub prompt : (b : Host W) → W.now (wait W 2000 b).1.memory ≤ W.now b.memory + 2000 + slack

module _ (W : Bench) (full_at slack : ℕ) (laws : IsFilling W full_at slack) where
  not_yet :
      (b : Host W) (count : ℤ)
      → fifo_count W b ≡ ok count
      → leb_ℤ (pos fifo_depth) count ≡ false
      → W.now b.memory < full_at
  not_yet b count read short = elim (Bool-cases (leb full_at (W.now b.memory))) [
    | inl late ↦ absurd (true≢false (sym (laws.full b count (ground arith) read) ∙ short))
    | inr early ↦ ground arith
  ]

  -- A wait that starts before its deadline, on a board whose FIFO is full one sleep and its slack
  -- before the deadline, ends with the FIFO full.
  pub poll_fills :
      (fuel deadline : ℕ) (seen : Option ℤ) (b : Host W)
      → deadline - W.now b.memory < fuel
      → W.now b.memory < deadline
      → full_at + 2000 + slack < deadline
      → (b' : Host W) × (poll W fuel deadline seen b ≡ some (ok tt, b'))
  poll_fills zero deadline seen b enough early in_time = absurd (omega arith)
  poll_fills (suc fuel) deadline seen b enough early in_time =
      let (count, read) = laws.readable b in
      let open_yet : ltb (W.now b.memory) deadline ≡ true = ground arith in
      elim (Bool-cases (leb_ℤ (pos fifo_depth) count)) [
        | inl full ↦ (b, poll_filled W fuel deadline seen b open_yet count read full)
        | inr short ↦
            let before : W.now b.memory < full_at = not_yet b count read short in
            let next = (wait W 2000 b).1 in
            let (b', ran) =
              poll_fills fuel deadline (some count) next (omega (arith, laws.passes b))
                (omega (arith, laws.prompt b)) in_time in
            let go : Result (Unit {0}) → Option (Result (Unit {0}) × Host W) = λ r. elim r [
              | err e ↦ some (err e, next)
              | ok u ↦ poll W fuel deadline (some count) next
            ] in
            (
              b',
              poll_sleeps W fuel deadline seen b open_yet count read short
                  ∙ ap go (laws.sleeps b)
                  ∙ ran,
            )
      ]
