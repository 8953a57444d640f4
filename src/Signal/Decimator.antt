-- ===== src/Signal/Decimator.antt =====
-- `Decimator` of model/coil_servo_model/fixed_point.py: a boxcar that sums 128 fast samples.
pub mod Blocks
use coil_servo.Base.{
  ℕ, ◌+◌, ◌^◌, ◌&&◌, Option, none, some, List, [], ◌∷◌, if◌then◌else◌, ◌==◌, Result, ok, err, Error,
  guard, ◌>>=◌, ◌>>◌,
}
use coil_servo.Base.Int.{ℤ, pos, ◌+ℤ◌, neg, ltb_ℤ, leb_ℤ}

pub record Decimator : Type 0 where
  pub acc : ℤ
  pub count : ℕ

-- `Decimator.RATIO`.
abbrev pub ratio : ℕ
ratio = 128

-- `Decimator()`.
abbrev pub fresh : Decimator
fresh = record { acc = pos 0; count = 0 }

-- What `push` does once its assertion has passed: the result, and the new state.
pub accumulate : Decimator → ℤ → Option ℤ × Decimator
accumulate d e_fast =
    let acc = d.acc +ℤ e_fast in
    let count = d.count + 1 in
    if count == ratio
    then (some acc, record { acc = pos 0; count = 0 })
    else (none, record { acc = acc; count = count })

unfoldable pub push : Decimator → ℤ → Result (Option ℤ × Decimator)
unfolding accumulate
push d e_fast = do
  guard (leb_ℤ (neg (pos (2 ^ 14))) e_fast && ltb_ℤ e_fast (pos (2 ^ 14))) Error.assertion_error
  ok (accumulate d e_fast)

-- A result of `push` in front of the results that follow; None adds nothing.
abbrev pub collect : Option ℤ → Result (List ℤ × Decimator) → Result (List ℤ × Decimator)
collect none r = r
collect (some x) (ok (outs, d)) = ok (x ∷ outs, d)
collect (some x) (err e) = err e

-- Feeding a record of samples, as the test benches do: the results that are not None, in order.
pub push_all : Decimator → List ℤ → Result (List ℤ × Decimator)
push_all d [] = ok ([], d)
push_all d (e ∷ es) = do (out, d') ← push d e; collect out (push_all d' es)
