-- ===== src/Hdl/Wires.antt =====
-- Verilog's words: what an assignment to a register or a wire of fixed width keeps of a value.
use native.Mathlib.Nat.{one-le-pow, mod-eq_of_lt, pow-suc}
use coil_servo.Base.{ℕ, suc, ◌-◌, ◌%◌, ◌^◌, ◌≡◌, ap, arith, if◌then◌else◌, ltb}
use coil_servo.Base.Int.{ℤ, pos, negsuc, ◌-ℤ◌, IsSigned, -ℤ_parts, eq_of_parts, parts_disjoint}
use coil_servo.Registers.Encode.{low_bits, low_bits-lt}

-- A signed word of `w` bits: the low bits of the value, the highest of them as the sign.
unfoldable pub as_signed : ℕ → ℤ → ℤ
as_signed w x =
    let raw = low_bits x w in if ltb raw (2 ^ (w - 1)) then pos raw else pos raw -ℤ pos (2 ^ w)

half : (w : ℕ) → 2 ^ (suc w - 1) ≡ 2 ^ w
half w = let e : suc w - 1 ≡ w = omega arith in ap (λ (t : ℕ). 2 ^ t) e

-- A value that fits comes through.
pub as_signed_of_IsSigned : (w : ℕ) (x : ℤ) → IsSigned (suc w) x → as_signed (suc w) x ≡ x
unfolding as_signed low_bits
as_signed_of_IsSigned w (pos n) h =
    let whole : n % 2 ^ suc w ≡ n = mod-eq_of_lt (omega (arith, pow-suc 2 w, half w)) in
    rw whole (ground (arith, half w))
as_signed_of_IsSigned w (negsuc n) h =
    let whole : n % 2 ^ suc w ≡ n = mod-eq_of_lt (omega (arith, pow-suc 2 w, half w)) in
    rw whole (
      ground (
        arith,
        pow-suc 2 w,
        half w,
        -ℤ_parts (pos (2 ^ suc w - 1 - n)) (pos (2 ^ suc w)),
        eq_of_parts (pos (2 ^ suc w - 1 - n) -ℤ pos (2 ^ suc w)) (negsuc n),
      ))

-- Whatever comes in, the word fits its width.
pub as_signed-IsSigned : (w : ℕ) (x : ℤ) → IsSigned (suc w) (as_signed (suc w) x)
unfolding as_signed
as_signed-IsSigned w x = ground (
  arith,
  half w,
  pow-suc 2 w,
  low_bits-lt x (suc w),
  one-le-pow w 2 (omega arith),
  -ℤ_parts (pos (low_bits x (suc w))) (pos (2 ^ suc w)),
  parts_disjoint (pos (low_bits x (suc w)) -ℤ pos (2 ^ suc w)),
)
