-- ===== src/Capture.antt =====
-- The samples that `Board.capture` of host/coil_servo_host/board.py makes of the words of the FIFO.
use coil_servo.Base.{
  ◌-◌, ℕ, ◌+◌, ◌*◌, ◌/◌, ◌%◌, ◌^◌, ◌<◌, ◌≡◌, ap, ◌∙◌, arith, Bool, true, false, if◌then◌else◌, leb,
  List, map,
}
use coil_servo.Base.Int.{ℤ, pos, negsuc, ◌-ℤ◌, IsSigned, -ℤ_parts, eq_of_parts}
use coil_servo.Registers.Encode.{low_bits, low_bits-lt}

-- A column of decimated samples: 16 bits with sign.
unfoldable pub column_16 : ℕ → ℤ
column_16 x = if leb (2 ^ 15) x then pos x -ℤ pos (2 ^ 16) else pos x

-- A column of fast samples: the lower 14 bits, with sign.
unfoldable pub column_14 : ℕ → ℤ
column_14 x = let low = x % 2 ^ 14 in if leb (2 ^ 13) low then pos low -ℤ pos (2 ^ 14) else pos low

-- The two columns of one word of the FIFO.
unfoldable pub unpack_sample : Bool → ℕ → ℤ × ℤ
unfolding column_16 column_14
unpack_sample decimated raw =
    let lo = raw % 2 ^ 16 in
    let hi = raw / 2 ^ 16 % 2 ^ 16 in
    if decimated then (column_16 lo, column_16 hi) else (column_14 lo, column_14 hi)

-- The array that `capture` returns, from the words popped.
abbrev pub unpack : Bool → List ℕ → List (ℤ × ℤ)
unpack decimated raw = map (unpack_sample decimated) raw

column_16_of : (v : ℤ) → IsSigned 16 v → column_16 (low_bits v 16) ≡ v
unfolding column_16 low_bits
column_16_of (pos n) h = ground arith
column_16_of (negsuc n) h =
    let raw = 2 ^ 16 - 1 - n % 2 ^ 16 in
    ground
      (arith, -ℤ_parts (pos raw) (pos (2 ^ 16)), eq_of_parts (pos raw -ℤ pos (2 ^ 16)) (negsuc n))

column_14_of : (v : ℤ) (x : ℕ) → IsSigned 14 v → column_14 (low_bits v 14 + 2 ^ 14 * x) ≡ v
unfolding column_14 low_bits
column_14_of (pos n) x h =
    let low : (n % 2 ^ 14 + 2 ^ 14 * x) % 2 ^ 14 ≡ n = omega arith in rw low (ground arith)
column_14_of (negsuc n) x h =
    let raw = 2 ^ 14 - 1 - n in
    let low : (2 ^ 14 - 1 - n % 2 ^ 14 + 2 ^ 14 * x) % 2 ^ 14 ≡ 2 ^ 14 - 1 - n = omega arith in
    rw low (
      ground (
        arith,
        -ℤ_parts (pos raw) (pos (2 ^ 14)),
        eq_of_parts (pos raw -ℤ pos (2 ^ 14)) (negsuc n),
      ))

-- Two samples packed into the halves of a word come out as they went in: decimated ones of 16 bits,
-- and fast ones of 14 bits whatever stands in the two bits above each.
pub unpack_sample_packed :
    (v w : ℤ) (x y : ℕ)
    → x < 4
    → y < 4
    → (IsSigned 16 v
        → IsSigned 16 w
        → unpack_sample true (low_bits v 16 + 2 ^ 16 * low_bits w 16) ≡ (v, w))
      × (IsSigned 14 v
          → IsSigned 14 w
          → unpack_sample false (low_bits v 14 + 2 ^ 14 * x + 2 ^ 16 * (low_bits w 14 + 2 ^ 14 * y))
            ≡ (v, w))
unfolding unpack_sample
unpack_sample_packed v w x y hx hy = (slow, fast)
  where
    slow :
        IsSigned 16 v
        → IsSigned 16 w
        → unpack_sample true (low_bits v 16 + 2 ^ 16 * low_bits w 16) ≡ (v, w)
    slow hv hw =
        let p : (low_bits v 16 + 2 ^ 16 * low_bits w 16) % 2 ^ 16 ≡ low_bits v 16 =
          omega (arith, low_bits-lt v 16) in
        let q : (low_bits v 16 + 2 ^ 16 * low_bits w 16) / 2 ^ 16 % 2 ^ 16 ≡ low_bits w 16 =
          omega (arith, low_bits-lt v 16, low_bits-lt w 16) in
        λ i. ((ap column_16 p ∙ column_16_of v hv) i, (ap column_16 q ∙ column_16_of w hw) i)

    fast :
        IsSigned 14 v
        → IsSigned 14 w
        → unpack_sample false (low_bits v 14 + 2 ^ 14 * x + 2 ^ 16 * (low_bits w 14 + 2 ^ 14 * y))
          ≡ (v, w)
    fast hv hw =
        let a = low_bits v 14 + 2 ^ 14 * x in
        let b = low_bits w 14 + 2 ^ 14 * y in
        let p : (a + 2 ^ 16 * b) % 2 ^ 16 ≡ a = omega (arith, low_bits-lt v 14) in
        let q : (a + 2 ^ 16 * b) / 2 ^ 16 % 2 ^ 16 ≡ b =
          omega (arith, low_bits-lt v 14, low_bits-lt w 14) in
        λ i. ((ap column_14 p ∙ column_14_of v x hv) i, (ap column_14 q ∙ column_14_of w y hw) i)
