-- ===== src/Tools/Waiting.antt =====
-- The wait of `capture` for a full FIFO: it ends, and how.
pub mod Filling
use mathlib.Core.Path.{subst}
use coil_servo.Base.{
  ℕ, zero, suc, ◌+◌, ◌-◌, ◌≤◌, ◌<◌, ◌≡◌, ◌⊎◌, refl, sym, ◌∙◌, arith, true, false, Bool-cases, inl,
  inr, ltb, Option, some, none, Result, ok, err, Error,
}
use coil_servo.Base.Int.{ℤ, pos, leb_ℤ}
use coil_servo.Bench.{Bench}
use coil_servo.Tools.Script.{Keeps}
use coil_servo.Tools.Methods.{Host, wait, fifo_count, fifo_depth, late_error, poll, await_fill}

module _ (W : Bench) where
  -- How the wait can end that starts on the board `start`, when its rounds before have seen a count
  -- or none yet.
  pub data Outcome (deadline : ℕ) (seen : Option ℤ) (start : Host W)
      : Result (Unit {0}) × Host W → Type 0 where
    -- The FIFO reported that it is full.
    filled :
        (b : Host W) (count : ℤ)
        → fifo_count W b ≡ ok count
        → leb_ℤ (pos fifo_depth) count ≡ true
        → Outcome deadline seen start (ok tt, b)
    -- The deadline had passed before the first round, so `count` is not set.
    at_once :
        seen ≡ none
        → deadline ≤ W.now start.memory
        → Outcome deadline seen start (err Error.unbound_local_error, start)
    -- The deadline passed after a round.
    late :
        (b : Host W)
        → ((count : ℤ) × (seen ≡ some count)) ⊎ (W.now start.memory < deadline)
        → deadline ≤ W.now b.memory
        → Outcome deadline seen start (err Error.timeout_error, b)
    -- The status could not be read.
    unread :
        (b : Host W) (e : Error) → fifo_count W b ≡ err e → Outcome deadline seen start (err e, b)
    -- The sleep was interrupted.
    woken :
        (b b' : Host W) (e : Error)
        → wait W 2000 b ≡ (err e, b')
        → Outcome deadline seen start (err e, b')

  -- The end of the wait after a round.
  after_round :
      (deadline : ℕ) (count : ℤ) (seen : Option ℤ) (start b : Host W)
      → (out : Result (Unit {0}) × Host W) → W.now start.memory < deadline
      → Outcome deadline (some count) b out
      → Outcome deadline seen start out
  after_round deadline count seen start b _ early (filled c n read full) = filled c n read full
  after_round deadline count seen start b _ early (at_once new over) = absurd cc
  after_round deadline count seen start b _ early (late c more over) = late c (inr early) over
  after_round deadline count seen start b _ early (unread c e h) = unread c e h
  after_round deadline count seen start b _ early (woken c c' e h) = woken c c' e h

  over_at_once :
      (deadline : ℕ) (seen : Option ℤ) (start : Host W)
      → deadline ≤ W.now start.memory
      → Outcome deadline seen start (err (late_error seen), start)
  over_at_once deadline none start over = at_once refl over
  over_at_once deadline (some count) start over = late start (inl (count, refl)) over

  pub result_cases :
      {A : Type 0} (r : Result A) → ((a : A) × (r ≡ ok a)) ⊎ ((e : Error) × (r ≡ err e))
  result_cases (ok a) = inl (a, refl)
  result_cases (err e) = inr (e, refl)

  module _ (fuel deadline : ℕ) (seen : Option ℤ) (b : Host W) where
    poll_late :
        ltb (W.now b.memory) deadline ≡ false
        → poll W (suc fuel) deadline seen b ≡ some (err (late_error seen), b)
    unfolding poll
    poll_late h = rw (h, poll) refl

    module _ (early : ltb (W.now b.memory) deadline ≡ true) where
      poll_unread :
          (e : Error) → fifo_count W b ≡ err e → poll W (suc fuel) deadline seen b ≡ some (err e, b)
      unfolding poll
      poll_unread e h = rw (early, h, poll) refl

      pub poll_filled :
          (count : ℤ)
          → fifo_count W b ≡ ok count
          → leb_ℤ (pos fifo_depth) count ≡ true
          → poll W (suc fuel) deadline seen b ≡ some (ok tt, b)
      unfolding poll
      poll_filled count h full = rw (early, h, full, poll) refl

      pub poll_sleeps :
          (count : ℤ)
          → fifo_count W b ≡ ok count
          → leb_ℤ (pos fifo_depth) count ≡ false
          → poll W (suc fuel) deadline seen b
            ≡ elim (wait W 2000 b).0 as (λ _. Option (Result (Unit {0}) × Host W)) [
              | err e ↦ some (err e, (wait W 2000 b).1)
              | ok u ↦ poll W fuel deadline (some count) (wait W 2000 b).1
            ]
      unfolding poll
      poll_sleeps count h full = rw (early, h, full, poll) refl

  wait_passes :
      (d : ℕ) (b : Host W)
      → (wait W d b).0 ≡ ok tt
      → W.now b.memory + d ≤ W.now (wait W d b).1.memory
  unfolding wait
  wait_passes d b h = W.sleep_passes b.memory d h

  slept :
      (P : Host W → Type 0) (fuel deadline : ℕ) (count : ℤ) (seen : Option ℤ) (b : Host W)
      → (q : Result (Unit {0}) × Host W) → W.now b.memory < deadline
      → wait W 2000 b ≡ q
      → P q.1
      → (q.0 ≡ ok tt
          → (out : Result (Unit {0}) × Host W) × (poll W fuel deadline (some count) q.1 ≡ some out)
            × Outcome deadline (some count) q.1 out
            × P out.1)
      → (whole : Option (Result (Unit {0}) × Host W))
      → whole ≡ elim q.0 as (λ _. Option (Result (Unit {0}) × Host W)) [
        | err e ↦ some (err e, q.1)
        | ok u ↦ poll W fuel deadline (some count) q.1
      ]
      → (out : Result (Unit {0}) × Host W) × (whole ≡ some out)
        × Outcome deadline seen b out
        × P out.1
  slept P fuel deadline count seen b (err e, b') early same p next whole h =
      (_, h, woken b b' e same, p)
  slept P fuel deadline count seen b (ok u, b') early same p next whole h =
      let (out, ran, how, p') = next refl in
      (out, h ∙ ran, after_round deadline count seen b b' out early how, p')

  -- The loop of `capture` ends: with fuel for every microsecond to the deadline it gives an outcome,
  -- which is a full FIFO; the deadline passed after a round, which is TimeoutError; the deadline passed
  -- before the first round, which is UnboundLocalError; a status that could not be read; or an
  -- interrupted sleep. And what a sleep keeps of the board, the loop keeps.
  pub poll_ends :
      (P : Host W → Type 0) (fuel deadline : ℕ) (seen : Option ℤ) (b : Host W)
      → ((c : Host W) → P c → P (wait W 2000 c).1)
      → P b
      → deadline - W.now b.memory < fuel
      → (out : Result (Unit {0}) × Host W) × (poll W fuel deadline seen b ≡ some out)
        × Outcome deadline seen b out
        × P out.1
  poll_ends P zero deadline seen b keep p enough = absurd (omega arith)
  poll_ends P (suc fuel) deadline seen b keep p enough =
      elim (Bool-cases (ltb (W.now b.memory) deadline)) [
        | inr over ↦
            (_, poll_late fuel deadline seen b over, over_at_once deadline seen b (ground arith), p)
        | inl early ↦ elim (result_cases (fifo_count W b)) [
          | inr (e, h) ↦ (_, poll_unread fuel deadline seen b early e h, unread b e h, p)
          | inl (count, h) ↦ elim (Bool-cases (leb_ℤ (pos fifo_depth) count)) [
            | inl full ↦
                (_, poll_filled fuel deadline seen b early count h full, filled b count h full, p)
            | inr short ↦
                slept P fuel deadline count seen b (wait W 2000 b) (ground arith) refl (keep b p)
                  (λ done.
                    poll_ends P fuel deadline (some count) (wait W 2000 b).1 keep (keep b p)
                      (ground (arith, wait_passes 2000 b done)))
                  (poll W (suc fuel) deadline seen b)
                  (poll_sleeps fuel deadline seen b early count h short)
          ]
        ]
      ]

  abbrev chosen : Host W → Option (Result (Unit {0}) × Host W) → Result (Unit {0}) × Host W
  chosen b q = elim q [ none ↦ (err Error.timeout_error, b) | some out ↦ out ]

  pub await_fill-Keeps :
      (P : Host W → Type 0)
      → Keeps P (wait W 2000)
      → (deadline : ℕ) → Keeps P (await_fill W deadline)
  unfolding await_fill
  await_fill-Keeps P keep deadline = record { after = ends }
    where
      ends : (b : Host W) → P b → P (await_fill W deadline b).1
      ends b p =
          let (out, ran, how, p') =
            poll_ends P (suc (deadline - W.now b.memory)) deadline none b keep.after p
              (omega arith) in
          subst (λ q. P (chosen b q).1) (sym ran) p'
