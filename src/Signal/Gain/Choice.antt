-- ===== src/Signal/Gain/Choice.antt =====
-- `encode_gain` chooses the best mantissa and shift there is.
use mathlib.Core.Path.{subst}
use coil_servo.Base.{
  ℕ, ◌+◌, ◌-◌, ◌^◌, ◌≤◌, ◌≡◌, ◌≢◌, ◌⊎◌, inl, inr, refl, sym, ap, ◌∙◌, arith, true, false,
  Bool-cases, none, some, Result, ok, err, Error, ◌>>=◌, if◌then◌else◌,
}
use coil_servo.Base.Int.{ℤ, pos, IsSigned, neg_parts, parts_disjoint, eqb_ℤ, eq_of_parts}
use coil_servo.Floats.{Floats}
use coil_servo.Signal.Gain.{
  is_mantissa, scaled, gain_error, Best, scan_shifts, conclude, encode_gain,
}
use coil_servo.Signal.Gain.Best.{IsPreorder, IsMeasured, IsBest, scan_shifts-IsBest}

is_mantissa-IsSigned : (m : ℤ) → is_mantissa m ≡ true → IsSigned 18 m
unfolding is_mantissa
is_mantissa-IsSigned m h = ground (arith, neg_parts (pos (2 ^ 17)), parts_disjoint m)

module _ (R : Floats) where
  open R use {Float, le, eq, of_ℕ}

  -- A mantissa of 18 bits for a shift up to `top`, as `round` gives it, with no other such pair
  -- nearer to the gain.
  pub record IsChoice (g : Float) (top : ℕ) (mant : ℤ) (shift : ℕ) : Type 0 where
    pub fits : IsSigned 18 mant
    pub in_range : shift ≤ top
    pub rounded : scaled R g shift ≡ ok mant
    pub nearest :
        (s : ℕ) (m : ℤ)
        → s ≤ top
        → scaled R g s ≡ ok m
        → is_mantissa m ≡ true
        → le (gain_error R g mant shift) (gain_error R g m s) ≡ true

  -- What `encode_gain` gives for `best`.
  abbrev Chosen : Float → ℕ → Result (ℤ × ℕ) → Type 0
  Chosen g top out =
      ((mant : ℤ) × (shift : ℕ) × (out ≡ ok (mant, shift))
        × (mant ≢ pos 0)
        × IsChoice g top mant shift)
      ⊎ ((out ≡ err Error.value_error)
          × (((s : ℕ) (m : ℤ) → s ≤ top → scaled R g s ≡ ok m → is_mantissa m ≡ true → ⊥)
              ⊎ ((shift : ℕ) × IsChoice g top (pos 0) shift)))

  conclude-Chosen :
      (g : Float) (top : ℕ) (best : Best R)
      → IsBest R g (top + 1) best
      → Chosen g top (conclude R best)
  unfolding conclude
  conclude-Chosen g top none h = inr (refl, inl (λ s m le_top. h s m (omega arith)))
  conclude-Chosen g top (some (mant, shift, least)) (lt, q, u, e, old) =
      let choice : IsChoice g top mant shift = record {
        fits = is_mantissa-IsSigned mant u;
        in_range = omega arith;
        rounded = q;
        nearest = λ s m le_top r t.
            subst (λ x. le x (gain_error R g m s) ≡ true) e (old s m (omega arith) r t);
      } in
      elim (Bool-cases (eqb_ℤ mant (pos 0))) [
        | inl none_left ↦
            let nil : mant ≡ pos 0 = ground (arith, eq_of_parts mant (pos 0)) in
            inr (rw none_left refl, inr (shift, subst (λ x. IsChoice g top x shift) nil choice))
        | inr other ↦ inl (
          mant,
          shift,
          rw other refl,
          (λ nil. ground (arith, ap (λ x. eqb_ℤ x (pos 0)) nil)),
          choice,
        )
      ]

  -- A gain that is not zero, that `round` takes at every shift, and of which no error is NaN. Either
  -- `encode_gain` gives a mantissa other than zero with its shift: the mantissa fits 18 bits, the
  -- shift its field, and no other shift comes nearer to the gain; or it raises ValueError, and then
  -- no shift has a mantissa of 18 bits, or the nearest one is zero.
  pub encode_gain_nearest :
      (g : Float) (shift_bits : ℕ)
      → IsPreorder R
      → IsMeasured R g
      → eq g (of_ℕ 0) ≡ false
      → ((s : ℕ) → s ≤ 2 ^ shift_bits - 1 → (m : ℤ) × (scaled R g s ≡ ok m))
      → ((mant : ℤ) × (shift : ℕ) × (encode_gain R g shift_bits ≡ ok (mant, shift))
          × (mant ≢ pos 0)
          × IsChoice g (2 ^ shift_bits - 1) mant shift)
        ⊎ ((encode_gain R g shift_bits ≡ err Error.value_error)
            × (((s : ℕ) (m : ℤ)
                  → s ≤ 2 ^ shift_bits - 1
                  → scaled R g s ≡ ok m
                  → is_mantissa m ≡ true
                  → ⊥)
                ⊎ ((shift : ℕ) × IsChoice g (2 ^ shift_bits - 1) (pos 0) shift)))
  unfolding encode_gain
  encode_gain_nearest g shift_bits laws numbers nonzero rounds =
      let top = 2 ^ shift_bits - 1 in
      let (last, ran, good) =
        scan_shifts-IsBest R laws g numbers (top + 1) 0 none (λ s lt. rounds s (omega arith))
          (λ s m lt. absurd (omega arith)) in
      let start : 0 + (top + 1) ≡ top + 1 = omega arith in
      subst (Chosen g top)
        (sym (
          ap (λ b. if b then ok (pos 0, 0) else (scan_shifts R g 0 (top + 1) none >>= conclude R))
            nonzero
          ∙ ap (λ (r : Result (Best R)). r >>= conclude R) ran))
        (conclude-Chosen g top last (subst (λ n. IsBest R g n last) start good))
