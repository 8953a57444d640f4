-- ===== src/Registers/Encode.antt =====
-- `_encode` of model/coil_servo_model/registers.py, and the sign extension of `parse_sts`.
use Prim.Native.Nat.{bit_and}
use native.Mathlib.Nat.{one-le-pow, mod-eq_of_lt, pow-suc}
use coil_servo.Base.Bits.{bit_and-pow, bit_top, bit_top_set}
use coil_servo.Base.{
  ap, ◌∙◌, inl, inr, Bool-cases, ℕ, suc, ◌-◌, ◌%◌, ◌^◌, ◌≤◌, ◌<◌, ◌≡◌, refl, arith, Bool, true,
  false, ◌&&◌, not, if◌then◌else◌, ◌==◌, ltb, Result, ok, err, Error, guard, ◌>>◌,
}
use coil_servo.Base.Int.{ℤ, pos, negsuc, ◌-ℤ◌, neg, ◌≤ℤ◌, leb_ℤ, neg_parts, -ℤ_parts, eq_of_parts}

-- Python's `value & ((1 << width) - 1)` on any integer.
unfoldable pub low_bits : ℤ → ℕ → ℕ
low_bits (pos n) width = n % 2 ^ width
low_bits (negsuc n) width = 2 ^ width - 1 - n % 2 ^ width

-- The range of a field.
unfoldable pub lo : ℕ → Bool → ℤ
lo width signed = if signed then neg (pos (2 ^ (width - 1))) else pos 0

unfoldable pub hi : ℕ → Bool → ℤ
hi width signed = if signed then pos (2 ^ (width - 1) - 1) else pos (2 ^ width - 1)

-- `_encode`.
unfoldable pub encode : ℤ → ℕ → Bool → Result ℕ
unfolding lo hi low_bits
encode value width signed = do
  guard (leb_ℤ (lo width signed) value && leb_ℤ value (hi width signed)) Error.value_error
  ok (low_bits value width)

-- The sign extension of `parse_sts`.
unfoldable pub decode : ℕ → ℕ → Bool → ℤ
decode raw width signed =
    if signed && not (bit_and raw (2 ^ (width - 1)) == 0)
    then pos raw -ℤ pos (2 ^ width)
    else pos raw

-- A value that a field of this width and sign holds.
abbrev pub IsEncodable : ℤ → ℕ → Bool → Type 0
IsEncodable v width signed = (lo width signed ≤ℤ v) × (v ≤ℤ hi width signed)

-- `_encode` refuses exactly the values outside the range.
pub encode_refuses :
    (v : ℤ) (width : ℕ) (signed : Bool)
    → ¬ IsEncodable v width signed
    → encode v width signed ≡ err Error.value_error
unfolding encode
encode_refuses v width signed h = ground (arith, h)

pub encode_accepts :
    (v : ℤ) (width : ℕ) (signed : Bool)
    → IsEncodable v width signed
    → encode v width signed ≡ ok (low_bits v width)
unfolding encode
encode_accepts v width signed h = ground arith

pub low_bits-lt : (v : ℤ) (width : ℕ) → low_bits v width < 2 ^ width
unfolding low_bits
low_bits-lt (pos n) width = omega (arith, one-le-pow width 2 (omega arith))
low_bits-lt (negsuc n) width = omega (arith, one-le-pow width 2 (omega arith))

lt_double : (n m : ℕ) → n < 2 ^ m → n < 2 ^ suc m
lt_double n m h = omega (arith, pow-suc 2 m)

-- The test of the sign bit, as an order.
sign_test : (raw m : ℕ) → raw < 2 ^ suc m → (bit_and raw (2 ^ m) == 0) ≡ ltb raw (2 ^ m)
sign_test raw m h =
    ground
      (arith, bit_and-pow raw m, bit_top raw m, bit_top_set raw m, one-le-pow m 2 (omega arith))

-- What `decode` does to a value of the field's width.
pub decode_lem :
    (raw m : ℕ) (signed : Bool)
    → raw < 2 ^ suc m
    → decode raw (suc m) signed
      ≡ (if signed && not (ltb raw (2 ^ m)) then pos raw -ℤ pos (2 ^ suc m) else pos raw)
unfolding decode
decode_lem raw m signed h =
    let top : suc m - 1 ≡ m = omega arith in rw (top, sign_test raw m h) refl

range_pos :
    (n m : ℕ) (signed : Bool)
    → IsEncodable (pos n) (suc m) signed
    → (n < 2 ^ suc m) × ((signed ≡ true) → n < 2 ^ m)
unfolding lo hi
range_pos n m signed h =
    let top : suc m - 1 ≡ m = omega arith in
    ground (arith, top, ap (λ (k : ℕ). 2 ^ k) top, pow-suc 2 m, one-le-pow m 2 (omega arith))

range_neg :
    (n m : ℕ) (signed : Bool)
    → IsEncodable (negsuc n) (suc m) signed
    → (signed ≡ true) × (n < 2 ^ m)
unfolding lo hi
range_neg n m signed h =
    let top : suc m - 1 ≡ m = omega arith in
    ground (arith, ap (λ (k : ℕ). 2 ^ k) top, neg_parts (pos (2 ^ (suc m - 1))))

-- Decoding what was encoded gives the value back, signed or not, for every width of one or more.
pub decode-encode :
    (v : ℤ) (m : ℕ) (signed : Bool)
    → IsEncodable v (suc m) signed
    → decode (low_bits v (suc m)) (suc m) signed ≡ v
unfolding low_bits
decode-encode (pos n) m signed h =
    let small = range_pos n m signed h in
    rw (mod-eq_of_lt small.0, decode_lem n m signed small.0) (ground (arith, small.1))
decode-encode (negsuc n) m signed h =
    let small = range_neg n m signed h in
    let raw : 2 ^ suc m - 1 - n % 2 ^ suc m ≡ 2 ^ suc m - 1 - n = omega (
      arith,
      pow-suc 2 m,
      ap (λ (k : ℕ). 2 ^ suc m - 1 - k) (mod-eq_of_lt (lt_double n m small.1)),
    ) in
    rw
      (
        raw,
        decode_lem (2 ^ suc m - 1 - n) m signed (omega (arith, one-le-pow (suc m) 2 (omega arith))),
      )
      (ground (
        arith,
        pow-suc 2 m,
        -ℤ_parts (pos (2 ^ suc m - 1 - n)) (pos (2 ^ suc m)),
        eq_of_parts (pos (2 ^ suc m - 1 - n) -ℤ pos (2 ^ suc m)) (negsuc n),
      ))

encodes_pos :
    (n m : ℕ) (signed : Bool)
    → n < 2 ^ suc m
    → (signed && not (ltb n (2 ^ m))) ≡ false
    → encode (pos n) (suc m) signed ≡ ok n
unfolding encode
encodes_pos n m signed h small =
    let top : suc m - 1 ≡ m = omega arith in
    ground (
      arith,
      mod-eq_of_lt h,
      ap (λ (k : ℕ). 2 ^ k) top,
      neg_parts (pos (2 ^ (suc m - 1))),
      pow-suc 2 m,
    )

encodes_negsuc : (n m : ℕ) → n < 2 ^ m → encode (negsuc n) (suc m) true ≡ ok (2 ^ suc m - 1 - n)
unfolding encode
encodes_negsuc n m h =
    let top : suc m - 1 ≡ m = omega arith in
    ground (
      arith,
      mod-eq_of_lt (lt_double n m h),
      ap (λ (k : ℕ). 2 ^ k) top,
      neg_parts (pos (2 ^ (suc m - 1))),
      pow-suc 2 m,
    )

wraps :
    (raw m : ℕ)
    → 2 ^ m ≤ raw
    → raw < 2 ^ suc m
    → pos raw -ℤ pos (2 ^ suc m) ≡ negsuc (2 ^ suc m - 1 - raw)
wraps raw m h below = ground (
  arith,
  -ℤ_parts (pos raw) (pos (2 ^ suc m)),
  eq_of_parts (pos raw -ℤ pos (2 ^ suc m)) (negsuc (2 ^ suc m - 1 - raw)),
)

-- And every bit pattern of the field is the encoding of the value that it decodes to.
pub encode-decode :
    (raw m : ℕ) (signed : Bool)
    → raw < 2 ^ suc m
    → encode (decode raw (suc m) signed) (suc m) signed ≡ ok raw
encode-decode raw m false h = rw (decode_lem raw m false h) (encodes_pos raw m false h refl)
encode-decode raw m true h = elim (Bool-cases (ltb raw (2 ^ m))) [
  | inl small ↦ rw (decode_lem raw m true h, small) (encodes_pos raw m true h (rw small refl))
  | inr large ↦
      rw (decode_lem raw m true h, large)
        (rw (wraps raw m (ground arith) h) (
          encodes_negsuc (2 ^ suc m - 1 - raw) m (ground (arith, pow-suc 2 m))
          ∙ ap ok (ground (arith, pow-suc 2 m))))
]
