-- ===== src/Base/Lists.antt =====
-- Lists measured by native numbers, under the library's names.
use Prim.Native.Nat.{ℕ, zero, suc, ◌+◌, ◌-◌, ◌≤◌, min}
use mathlib.Core.Path.{◌≡◌, refl, ap, ◌∙◌}
use mathlib.Core.List.{List, [], ◌∷◌, ◌++◌, append-nil}
use mathlib.Core.Option.{Option, none, some}
use native.Mathlib.Omega.{arith}

module _ {ℓ} {A : Type ℓ} where
  abbrev pub length : List A → ℕ
  length [] = 0
  length (x ∷ xs) = suc (length xs)

  abbrev pub get_elem? : List A → ℕ → Option A
  get_elem? [] i = none
  get_elem? (x ∷ xs) zero = some x
  get_elem? (x ∷ xs) (suc i) = get_elem? xs i

  abbrev pub take : ℕ → List A → List A
  take zero xs = []
  take (suc n) [] = []
  take (suc n) (x ∷ xs) = x ∷ take n xs

  abbrev pub drop : ℕ → List A → List A
  drop zero xs = xs
  drop (suc n) [] = []
  drop (suc n) (x ∷ xs) = drop n xs

  abbrev pub replicate : ℕ → A → List A
  replicate zero a = []
  replicate (suc n) a = a ∷ replicate n a

  pub length-append : (xs ys : List A) → length (xs ++ ys) ≡ length xs + length ys
  length-append [] ys = omega arith
  length-append (x ∷ xs) ys = omega (arith, length-append xs ys)

  pub length-take : (n : ℕ) (xs : List A) → length (take n xs) ≡ min n (length xs)
  length-take zero xs = omega arith
  length-take (suc n) [] = omega arith
  length-take (suc n) (x ∷ xs) = omega (arith, length-take n xs)

  pub length-drop : (n : ℕ) (xs : List A) → length (drop n xs) ≡ length xs - n
  length-drop zero xs = omega arith
  length-drop (suc n) [] = omega arith
  length-drop (suc n) (x ∷ xs) = omega (arith, length-drop n xs)

  pub take-append-drop : (n : ℕ) (xs : List A) → take n xs ++ drop n xs ≡ xs
  take-append-drop zero xs = refl
  take-append-drop (suc n) [] = refl
  take-append-drop (suc n) (x ∷ xs) = ap (λ l. x ∷ l) (take-append-drop n xs)

-- Every element satisfies the predicate.
abbrev pub All {ℓ κ} : {A : Type ℓ} → (A → Type κ) → List A → Type κ
All P [] = Unit
All P (x ∷ xs) = P x × All P xs

-- 0, 1, …, n - 1.
abbrev pub count_from : ℕ → ℕ → List ℕ
count_from k zero = []
count_from k (suc n) = k ∷ count_from (k + 1) n

abbrev pub upto : ℕ → List ℕ
upto n = count_from 0 n

-- `take` and `drop` across an append.
module _ {ℓ} {A : Type ℓ} where
  pub take-append_le :
      (n : ℕ) (xs ys : List A) → length xs ≤ n → take n (xs ++ ys) ≡ xs ++ take (n - length xs) ys
  take-append_le n [] ys h = ap (λ (k : ℕ). take k ys) (omega arith)
  take-append_le zero (x ∷ xs) ys h = absurd (omega arith)
  take-append_le (suc n) (x ∷ xs) ys h =
      ap (λ l. x ∷ l)
        (take-append_le n xs ys (omega arith) ∙ ap (λ (k : ℕ). xs ++ take k ys) (omega arith))

  pub drop-append_le :
      (n : ℕ) (xs ys : List A) → length xs ≤ n → drop n (xs ++ ys) ≡ drop (n - length xs) ys
  drop-append_le n [] ys h = ap (λ (k : ℕ). drop k ys) (omega arith)
  drop-append_le zero (x ∷ xs) ys h = absurd (omega arith)
  drop-append_le (suc n) (x ∷ xs) ys h =
      drop-append_le n xs ys (omega arith) ∙ ap (λ (k : ℕ). drop k ys) (omega arith)

  pub take-append_gt : (n : ℕ) (xs ys : List A) → n ≤ length xs → take n (xs ++ ys) ≡ take n xs
  take-append_gt zero xs ys h = refl
  take-append_gt (suc n) [] ys h = absurd (omega arith)
  take-append_gt (suc n) (x ∷ xs) ys h = ap (λ l. x ∷ l) (take-append_gt n xs ys (omega arith))

  pub drop-append_gt :
      (n : ℕ) (xs ys : List A) → n ≤ length xs → drop n (xs ++ ys) ≡ drop n xs ++ ys
  drop-append_gt zero xs ys h = refl
  drop-append_gt (suc n) [] ys h = absurd (omega arith)
  drop-append_gt (suc n) (x ∷ xs) ys h = drop-append_gt n xs ys (omega arith)

  pub take_all : (k : ℕ) (xs ys : List A) → length xs ≡ k → take k (xs ++ ys) ≡ xs
  take_all k xs ys h =
      let none_left : k - length xs ≡ 0 = omega arith in
      take-append_le k xs ys (omega arith)
      ∙ ap (λ (j : ℕ). xs ++ take j ys) none_left
      ∙ append-nil xs

  pub drop_all : (k : ℕ) (xs ys : List A) → length xs ≡ k → drop k (xs ++ ys) ≡ ys
  drop_all k xs ys h =
      let none_left : k - length xs ≡ 0 = omega arith in
      drop-append_le k xs ys (omega arith) ∙ ap (λ (j : ℕ). drop j ys) none_left
