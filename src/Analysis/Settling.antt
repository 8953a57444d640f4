-- ===== src/Analysis/Settling.antt =====
-- What `settling_time` promises.
use coil_servo.Base.{
  ℕ, zero, suc, ◌+◌, ◌≤◌, ◌≡◌, ◌⊎◌, refl, sym, ap, ◌∙◌, arith, inl, inr, Bool, true, false,
  Option-cases, Option, none, some, List, [], ◌∷◌, map, get_elem?, Result, ok, err, ◌>>=◌,
  if◌then◌else◌,
}
use coil_servo.Floats.{Floats}
use coil_servo.Analysis.{at, last, last_true, is_outside, settling_time}

-- No flag from `k` on is set.
abbrev IsClearFrom : ℕ → List Bool → Type 0
IsClearFrom k flags = (j : ℕ) (b : Bool) → k ≤ j → get_elem? flags j ≡ some b → b ≡ false

IsClearFrom-cons :
    (k : ℕ) (flag : Bool) (flags : List Bool)
    → IsClearFrom k flags
    → IsClearFrom (suc k) (flag ∷ flags)
IsClearFrom-cons k flag flags h zero b le e = absurd (omega arith)
IsClearFrom-cons k flag flags h (suc j) b le e = h j b (omega arith) e

IsClearFrom-false : (flags : List Bool) → IsClearFrom 0 flags → IsClearFrom 0 (false ∷ flags)
IsClearFrom-false flags h zero b le e = cc
IsClearFrom-false flags h (suc j) b le e = h j b (omega arith) e

-- The last flag that is set is set, and none after it is.
abbrev IsLast : List Bool → Option ℕ → Type 0
IsLast flags none = IsClearFrom 0 flags
IsLast flags (some i) = (get_elem? flags i ≡ some true) × IsClearFrom (suc i) flags

last_true-IsLast : (flags : List Bool) → IsLast flags (last_true flags)
unfolding last_true
last_true-IsLast [] = λ j b le e. cc
last_true-IsLast (flag ∷ flags) = go flag (last_true flags) (last_true-IsLast flags)
  where
    go :
        (f : Bool) (q : Option ℕ)
        → IsLast flags q
        → IsLast (f ∷ flags) (elim q as (λ _. Option ℕ) [
          | none ↦ if f then some 0 else none
          | some i ↦ some (suc i)
        ])
    go true none h = (refl, IsClearFrom-cons 0 true flags h)
    go false none h = IsClearFrom-false flags h
    go f (some i) h = (h.0, IsClearFrom-cons (suc i) f flags h.1)

get-map :
    {A B : Type 0} (f : A → B) (xs : List A) (j : ℕ) (x : A)
    → get_elem? xs j ≡ some x
    → get_elem? (map f xs) j ≡ some (f x)
get-map f [] j x h = cc
get-map f (y ∷ xs) zero x h = let same : y ≡ x = cc in ap (λ z. some (f z)) same
get-map f (y ∷ xs) (suc j) x h = get-map f xs j x h

-- Behind a flag that is set there is another, if the last one is not set.
next_of_last :
    (flags : List Bool) (i : ℕ)
    → get_elem? flags i ≡ some true
    → last flags ≡ ok false
    → (flag : Bool) × (get_elem? flags (suc i) ≡ some flag)
unfolding last
next_of_last [] i h e = absurd cc
next_of_last (flag ∷ []) zero h e = absurd cc
next_of_last (flag ∷ []) (suc i) h e = absurd cc
next_of_last (flag ∷ next ∷ flags) zero h e = (next, refl)
next_of_last (flag ∷ next ∷ flags) (suc i) h e = next_of_last (next ∷ flags) i h e

head_of_last :
    (flags : List Bool) → last flags ≡ ok false → (flag : Bool) × (get_elem? flags 0 ≡ some flag)
unfolding last
head_of_last [] e = absurd cc
head_of_last (flag ∷ flags) e = (flag, refl)

unmap_get :
    {A B : Type 0} (f : A → B) (xs : List A) (j : ℕ)
    → (y : B) × (get_elem? (map f xs) j ≡ some y)
    → (x : A) × (get_elem? xs j ≡ some x)
unmap_get f [] j (y, h) = absurd cc
unmap_get f (x ∷ xs) zero h = (x, refl)
unmap_get f (x ∷ xs) (suc j) h = unmap_get f xs j h

-- The sample before `k` is the last one outside, and the time is that of sample `k`.
abbrev pub Crossed : {A : Type 0} → List Bool → List A → A → ℕ → Type 0
Crossed outside t time k =
    (i : ℕ) × (k ≡ suc i) × (get_elem? outside i ≡ some true) × (get_elem? t k ≡ some time)

fetched :
    {A : Type 0} (t : List A) (i : ℕ) (time : A)
    → (at t i >>= λ x. ok (some x)) ≡ ok (some time)
    → get_elem? t i ≡ some time
unfolding at
fetched t i time h = elim (Option-cases (get_elem? t i)) [
  | inl missing ↦ ground (arith, missing)
  | inr (x, e) ↦ ground (arith, e)
]

module _ (R : Floats) where
  open R use {Float, mul, of_ℕ, magnitude}

  -- The sample `k` is one of the record; from it on every current lies inside the band; and either it
  -- is the first sample and the time is 0.0, or the sample before it lies outside and the time is its
  -- own.
  pub record IsSettled (t currents : List Float) (target tol_frac time : Float) (k : ℕ)
      : Type 0 where
    pub recorded : (x : Float) × (get_elem? currents k ≡ some x)
    pub inside :
        (j : ℕ) (x : Float)
        → k ≤ j
        → get_elem? currents j ≡ some x
        → is_outside R target (mul (magnitude target) tol_frac) x ≡ false
    pub crossed :
        ((k ≡ 0) × (time ≡ of_ℕ 0))
        ⊎ Crossed (map (is_outside R target (mul (magnitude target) tol_frac)) currents) t time k

  -- For a time that `settling_time` returns there is a sample of the record from which on every current
  -- lies inside the band about the target; either it is the first sample and the time is 0.0, or the
  -- sample before it lies outside and the time is that of the sample.
  pub settling_time_settles :
      (t currents : List Float) (target tol_frac time : Float)
      → settling_time R t currents target tol_frac ≡ ok (some time)
      → (k : ℕ) × IsSettled t currents target tol_frac time k
  unfolding settling_time
  settling_time_settles t currents target tol_frac time h =
      go (last flags) (last_true flags) refl (last_true-IsLast flags) h
    where
      flags : List Bool
      flags = map (is_outside R target (mul (magnitude target) tol_frac)) currents

      inside :
          (k : ℕ)
          → IsClearFrom k flags
          → (j : ℕ) (x : Float) → k ≤ j
          → get_elem? currents j ≡ some x
          → is_outside R target (mul (magnitude target) tol_frac) x ≡ false
      inside k clear j x le e =
          clear j _ le
            (get-map (is_outside R target (mul (magnitude target) tol_frac)) currents j x e)

      found :
          (i : ℕ)
          → (at t (i + 1) >>= λ x. ok (some x)) ≡ ok (some time)
          → get_elem? t (suc i) ≡ some time
      found i e =
          let place : i + 1 ≡ suc i = omega arith in
          ap (get_elem? t) (sym place) ∙ fetched t (i + 1) time e

      there :
          (k : ℕ)
          → (flag : Bool) × (get_elem? flags k ≡ some flag)
          → (x : Float) × (get_elem? currents k ≡ some x)
      there = unmap_get (is_outside R target (mul (magnitude target) tol_frac)) currents

      go :
          (e : Result Bool) (q : Option ℕ)
          → last flags ≡ e
          → IsLast flags q
          → (e >>= λ ends_outside.
              if ends_outside then ok none else elim q as (λ _. Result (Option Float)) [
                | none ↦ ok (some (of_ℕ 0))
                | some i ↦ (at t (i + 1) >>= λ x. ok (some x))
              ])
            ≡ ok (some time)
          → (k : ℕ) × IsSettled t currents target tol_frac time k
      go (err e) q same l h = cc
      go (ok true) q same l h = cc
      go (ok false) none same l h =
          let at_zero : of_ℕ 0 ≡ time = cc in
          (
            0,
            record {
              recorded = there 0 (head_of_last flags same);
              inside = inside 0 l;
              crossed = inl (refl, sym at_zero);
            },
          )
      go (ok false) (some i) same l h = (
        suc i,
        record {
          recorded = there (suc i) (next_of_last flags i l.0 same);
          inside = inside (suc i) l.1;
          crossed = inr (i, refl, l.0, found i h);
        },
      )
