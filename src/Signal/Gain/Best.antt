-- ===== src/Signal/Gain/Best.antt =====
-- The scan of `encode_gain` keeps the best mantissa and shift so far.
use mathlib.Core.Path.{subst}
use mathlib.Core.Bool.{true≢false}
use coil_servo.Base.{
  ℕ, zero, suc, ◌+◌, ◌<◌, ◌≡◌, ◌⊎◌, inl, inr, refl, sym, ap, ◌∙◌, arith, true, false, Bool-cases,
  none, some, Result, ok, ◌>>=◌,
}
use coil_servo.Base.Int.{ℤ}
use coil_servo.Floats.{Floats}
use coil_servo.Signal.Gain.{is_mantissa, scaled, gain_error, Best, improves, keep_best, scan_shifts}

module _ (R : Floats) where
  open R use {Float, le, eq, of_ℕ}

  -- Away from NaN, `<=` is a total preorder.
  pub record IsPreorder : Type 0 where
    pub le_trans : (x y z : Float) → le x y ≡ true → le y z ≡ true → le x z ≡ true
    pub le_total : (x y : Float) → le x x ≡ true → le y y ≡ true → (le x y ≡ true) ⊎ (le y x ≡ true)

  -- No error of a mantissa of 18 bits is NaN.
  abbrev pub IsMeasured : Float → Type 0
  IsMeasured g =
      (m : ℤ) (s : ℕ) → is_mantissa m ≡ true → le (gain_error R g m s) (gain_error R g m s) ≡ true

  -- No shift below `k` has a mantissa with a smaller error than `least`.
  abbrev pub IsLeast : Float → ℕ → Float → Type 0
  IsLeast g k least =
      (s : ℕ) (m : ℤ)
      → s < k
      → scaled R g s ≡ ok m
      → is_mantissa m ≡ true
      → le least (gain_error R g m s) ≡ true

  -- What the loop knows after the shifts below `k`.
  abbrev pub IsBest : Float → ℕ → Best R → Type 0
  IsBest g k none = (s : ℕ) (m : ℤ) → s < k → scaled R g s ≡ ok m → is_mantissa m ≡ true → ⊥
  IsBest g k (some (mant, shift, least)) =
      (shift < k)
      × (scaled R g shift ≡ ok mant)
      × (is_mantissa mant ≡ true)
      × (least ≡ gain_error R g mant shift)
      × IsLeast g k least

  below_suc : (s k : ℕ) → s < k + 1 → (s < k) ⊎ (s ≡ k)
  below_suc s k h = omega arith

  same_mant :
      (g : Float) (k s : ℕ) (m n : ℤ) → s ≡ k → scaled R g k ≡ ok m → scaled R g s ≡ ok n → n ≡ m
  same_mant g k s m n e p q = let both : ok n ≡ ok m = sym q ∙ ap (scaled R g) e ∙ p in cc

  -- What holds of the shifts below `k`, and of `k`, holds of those below `k + 1`.
  extend :
      (P : ℤ → ℕ → Type 0) (g : Float) (k : ℕ) (m : ℤ)
      → scaled R g k ≡ ok m
      → ((s : ℕ) (n : ℤ) → s < k → scaled R g s ≡ ok n → is_mantissa n ≡ true → P n s)
      → (is_mantissa m ≡ true → P m k)
      → (s : ℕ) (n : ℤ) → s < k + 1
      → scaled R g s ≡ ok n
      → is_mantissa n ≡ true
      → P n s
  extend P g k m p old new s n h q t = elim (below_suc s k h) [
    | inl below ↦ old s n below q t
    | inr here ↦
        let nm = same_mant g k s m n here p q in
        subst (λ x. P x s) (sym nm)
          (subst (λ y. P m y) (sym here) (new (subst (λ x. is_mantissa x ≡ true) nm t)))
  ]

  keep_best-taken :
      (g : Float) (k : ℕ) (m : ℤ) (best : Best R)
      → is_mantissa m ≡ true
      → improves R (gain_error R g m k) best ≡ true
      → keep_best R g k m best ≡ some (m, k, gain_error R g m k)
  unfolding keep_best
  keep_best-taken g k m best t i = rw (t, i) refl

  keep_best-unfit :
      (g : Float) (k : ℕ) (m : ℤ) (best : Best R)
      → is_mantissa m ≡ false
      → keep_best R g k m best ≡ best
  unfolding keep_best
  keep_best-unfit g k m best t = rw t refl

  keep_best-worse :
      (g : Float) (k : ℕ) (m : ℤ) (best : Best R)
      → improves R (gain_error R g m k) best ≡ false
      → keep_best R g k m best ≡ best
  unfolding keep_best
  keep_best-worse g k m best i = elim (Bool-cases (is_mantissa m)) [
    | inl t ↦ rw (t, i) refl
    | inr t ↦ rw t refl
  ]

  -- A best that is kept.
  kept-IsBest :
      (g : Float) (k : ℕ) (m : ℤ) (best : Best R)
      → scaled R g k ≡ ok m
      → IsBest g k best
      → is_mantissa m ≡ false
      → IsBest g (k + 1) best
  kept-IsBest g k m none p h t = extend (λ n s. ⊥) g k m p h (λ t'. true≢false (sym t' ∙ t))
  kept-IsBest g k m (some (mant, shift, least)) p (lt, q, u, e, old) t = (
    omega arith,
    q,
    u,
    e,
    extend (λ n s. le least (gain_error R g n s) ≡ true) g k m p old
        (λ t'. absurd (true≢false (sym t' ∙ t))),
  )

  module _ (laws : IsPreorder) (g : Float) (numbers : IsMeasured g) where
    open laws use {le_trans, le_total}

    -- A shift whose mantissa fits.
    fits-IsBest :
        (k : ℕ) (m : ℤ) (best : Best R)
        → scaled R g k ≡ ok m
        → is_mantissa m ≡ true
        → IsBest g k best
        → IsBest g (k + 1) (keep_best R g k m best)
    fits-IsBest k m none p t h =
        subst (IsBest g (k + 1)) (sym (keep_best-taken g k m none t refl)) (
          omega arith,
          p,
          t,
          refl,
          extend (λ n s. le (gain_error R g m k) (gain_error R g n s) ≡ true) g k m p
              (λ s n lt q u. absurd (h s n lt q u)) (λ u. numbers m k u),
        )
    fits-IsBest k m (some (mant, shift, least)) p t (lt, q, u, e, old) =
        let best : Best R = some (mant, shift, least) in
        elim (Bool-cases (le (gain_error R g m k) least)) [
          | inl better ↦ subst (IsBest g (k + 1)) (sym (keep_best-taken g k m best t better)) (
            omega arith,
            p,
            t,
            refl,
            extend (λ n s. le (gain_error R g m k) (gain_error R g n s) ≡ true) g k m p
                (λ s n h r v. le_trans _ least _ better (old s n h r v)) (λ v. numbers m k v),
          )
          | inr worse ↦
              let order =
                le_total least (gain_error R g m k)
                  (subst (λ x. le x x ≡ true) (sym e) (numbers mant shift u)) (numbers m k t) in
              subst (IsBest g (k + 1)) (sym (keep_best-worse g k m best worse)) (
                omega arith,
                q,
                u,
                e,
                extend (λ n s. le least (gain_error R g n s) ≡ true) g k m p old
                    (λ v. ground (arith, order, worse)),
              )
        ]

    keep_best-IsBest :
        (k : ℕ) (m : ℤ) (best : Best R)
        → scaled R g k ≡ ok m
        → IsBest g k best
        → IsBest g (k + 1) (keep_best R g k m best)
    keep_best-IsBest k m best p h = elim (Bool-cases (is_mantissa m)) [
      | inl t ↦ fits-IsBest k m best p t h
      | inr t ↦
          subst (IsBest g (k + 1)) (sym (keep_best-unfit g k m best t))
            (kept-IsBest g k m best p h t)
    ]

    pub scan_shifts-IsBest :
        (left k : ℕ) (best : Best R)
        → ((s : ℕ) → s < k + left → (m : ℤ) × (scaled R g s ≡ ok m))
        → IsBest g k best
        → (last : Best R) × (scan_shifts R g k left best ≡ ok last) × IsBest g (k + left) last
    unfolding scan_shifts
    scan_shifts-IsBest zero k best rounds h =
        (best, refl, subst (λ n. IsBest g n best) (omega arith) h)
    scan_shifts-IsBest (suc left) k best rounds h =
        let (m, p) = rounds k (omega arith) in
        let (last, ran, good) =
          scan_shifts-IsBest left (k + 1) (keep_best R g k m best) (λ s lt. rounds s (omega arith))
            (keep_best-IsBest k m best p h) in
        (
          last,
          ap (λ (r : Result ℤ). r >>= λ n. scan_shifts R g (k + 1) left (keep_best R g k n best)) p
              ∙ ran,
          subst (λ n. IsBest g n last) (omega arith) good,
        )
