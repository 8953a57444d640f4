-- ===== src/Signal/Decimator/Blocks.antt =====
-- The decimator against its description: one result for each block of 128 samples, their sum.
use native.Mathlib.Nat.{add-zero, zero-add}
use mathlib.Core.List.{append-nil}
use coil_servo.Base.{◌-◌, ◌∙◌, sym, ap, none, some}
use coil_servo.Base.{
  ℕ, zero, suc, ◌+◌, ◌*◌, ◌^◌, ◌≤◌, ◌<◌, ◌≡◌, refl, arith, List, [], ◌∷◌, ◌++◌, length, take, drop,
  take-append-drop, length-take, length-drop, All, ok, err, Error,
}
use coil_servo.Base.Int.{
  ℤ, pos, ◌+ℤ◌, pos_part, neg_part, IsSigned, +ℤ_parts, parts_disjoint, neg_parts, int_laws,
}
use coil_servo.Signal.Decimator.{Decimator, fresh, accumulate, push, push_all, collect}

abbrev pub sum : List ℤ → ℤ
sum [] = pos 0
sum (x ∷ xs) = x +ℤ sum xs

-- The samples that the assertion of `push` lets through.
abbrev pub IsFast : List ℤ → Type 0
IsFast = All (IsSigned 15)

-- The sums of the first `n` blocks of 128.
pub block_sums : ℕ → List ℤ → List ℤ
block_sums zero es = []
block_sums (suc n) es = sum (take 128 es) ∷ block_sums n (drop 128 es)

pub length-block_sums : (n : ℕ) (es : List ℤ) → length (block_sums n es) ≡ n
unfolding block_sums
length-block_sums zero es = refl
length-block_sums (suc n) es = ap suc (length-block_sums n (drop 128 es))

+ℤ_zero : (a : ℤ) → a +ℤ pos 0 ≡ a
+ℤ_zero a = omega int_laws

add_one_suc : (m n : ℕ) → m + 1 + n ≡ m + suc n
add_one_suc m n = omega arith

+ℤ_assoc : (a b c : ℤ) → a +ℤ b +ℤ c ≡ a +ℤ (b +ℤ c)
+ℤ_assoc a b c = omega int_laws

-- A fast sample passes the assertion.
pub push_of_fast : (d : Decimator) (e : ℤ) → IsSigned 15 e → push d e ≡ ok (accumulate d e)
unfolding push
push_of_fast d e h = ground (arith, neg_parts (pos (2 ^ 14)), parts_disjoint e)

-- Any other is refused.
pub push_refuses : (d : Decimator) (e : ℤ) → ¬ IsSigned 15 e → push d e ≡ err Error.assertion_error
unfolding push
push_refuses d e h = ground (arith, neg_parts (pos (2 ^ 14)), parts_disjoint e, h)

pub accumulate-more :
    (d : Decimator) (e : ℤ)
    → d.count + 1 < 128
    → accumulate d e ≡ (none, record { acc = d.acc +ℤ e; count = d.count + 1 })
unfolding accumulate
accumulate-more d e h = ground arith

pub accumulate-dump :
    (d : Decimator) (e : ℤ) → d.count + 1 ≡ 128 → accumulate d e ≡ (some (d.acc +ℤ e), fresh)
unfolding accumulate
accumulate-dump d e h = ground arith

push_all-more :
    (d : Decimator) (e : ℤ) (es : List ℤ)
    → IsSigned 15 e
    → d.count + 1 < 128
    → push_all d (e ∷ es) ≡ push_all (record { acc = d.acc +ℤ e; count = d.count + 1 }) es
unfolding push_all
push_all-more d e es h more = rw (push_of_fast d e h, accumulate-more d e more)

push_all-dump :
    (d : Decimator) (e : ℤ) (es : List ℤ)
    → IsSigned 15 e
    → d.count + 1 ≡ 128
    → push_all d (e ∷ es) ≡ collect (some (d.acc +ℤ e)) (push_all fresh es)
unfolding push_all
push_all-dump d e es h full = rw (push_of_fast d e h, accumulate-dump d e full)

-- A run that does not fill the block is only added up.
push_all-short :
    (d : Decimator) (xs ys : List ℤ)
    → IsFast xs
    → d.count + length xs < 128
    → push_all d (xs ++ ys)
      ≡ push_all (record { acc = d.acc +ℤ sum xs; count = d.count + length xs }) ys
push_all-short d [] ys h fits =
    let same : record { acc = d.acc +ℤ pos 0; count = d.count + 0 } ≡ d =
      λ i. record { acc = +ℤ_zero d.acc i; count = add-zero d.count i } in
    rw same refl
push_all-short d (x ∷ xs) ys h fits =
    let d' : Decimator = record { acc = d.acc +ℤ x; count = d.count + 1 } in
    push_all-more d x (xs ++ ys) h.0 (omega arith)
    ∙ push_all-short d' xs ys h.1 (omega arith)
    ∙ ap (λ (s : Decimator). push_all s ys)
        (λ i. record {
          acc = +ℤ_assoc d.acc x (sum xs) i;
          count = add_one_suc d.count (length xs) i;
        })

-- A run that fills it gives its sum, and the next block starts afresh.
push_all-block :
    (xs ys : List ℤ) (d : Decimator)
    → IsFast xs
    → d.count < 128
    → d.count + length xs ≡ 128
    → push_all d (xs ++ ys) ≡ collect (some (d.acc +ℤ sum xs)) (push_all fresh ys)
push_all-block [] ys d h less full = absurd (omega arith)
push_all-block (x ∷ []) ys d h less full = rw +ℤ_zero (push_all-dump d x ys h.0 full)
push_all-block (x ∷ x' ∷ xs) ys d h less full =
    let d' : Decimator = record { acc = d.acc +ℤ x; count = d.count + 1 } in
    push_all-more d x (x' ∷ xs ++ ys) h.0 (omega arith)
    ∙ push_all-block (x' ∷ xs) ys d' h.1 (omega arith) (omega arith)
    ∙ rw (+ℤ_assoc d.acc x (x' +ℤ sum xs)) refl

All-take : (n : ℕ) (es : List ℤ) → IsFast es → IsFast (take n es)
All-take zero es h = tt
All-take (suc n) [] h = tt
All-take (suc n) (e ∷ es) h = (h.0, All-take n es h.1)

All-drop : (n : ℕ) (es : List ℤ) → IsFast es → IsFast (drop n es)
All-drop zero es h = h
All-drop (suc n) [] h = tt
All-drop (suc n) (e ∷ es) h = All-drop n es h.1

-- What a run leaves behind: the sum and the number of the samples after the last block.
abbrev pub leftover : ℕ → List ℤ → Decimator
leftover zero es = record { acc = sum es; count = length es }
leftover (suc n) es = leftover n (drop 128 es)

zero-+ℤ : (a : ℤ) → pos 0 +ℤ a ≡ a
zero-+ℤ a = omega int_laws

push_all_end :
    (a : ℤ) (n : ℕ)
    → push_all (record { acc = a; count = n }) [] ≡ ok ([], record { acc = a; count = n })
unfolding push_all
push_all_end a n = refl

-- A run of fast samples never fails: it gives the sums of its complete blocks of 128 samples, and
-- the state holds the sum and the number of the samples that are left.
pub push_all-block_sums :
    (n : ℕ) (es : List ℤ)
    → IsFast es
    → 128 * n ≤ length es
    → length es < 128 * n + 128
    → push_all fresh es ≡ ok (block_sums n es, leftover n es)
unfolding block_sums
push_all-block_sums zero es h lo hi =
    ap (push_all fresh) (sym (append-nil es))
    ∙ push_all-short fresh es [] h (omega arith)
    ∙ push_all_end (pos 0 +ℤ sum es) (0 + length es)
    ∙ λ i. ok ([], record { acc = zero-+ℤ (sum es) i; count = zero-add (length es) i })
push_all-block_sums (suc n) es h lo hi =
    ap (push_all fresh) (sym (take-append-drop 128 es))
    ∙ push_all-block (take 128 es) (drop 128 es) fresh (All-take 128 es h) (omega arith)
        (omega (arith, length-take 128 es))
    ∙ rw
        (
          zero-+ℤ (sum (take 128 es)),
          push_all-block_sums n (drop 128 es) (All-drop 128 es h)
              (omega (arith, length-drop 128 es)) (omega (arith, length-drop 128 es)),
        )
        refl

-- The sum of a block is bounded by its length.
sum_bounds :
    (xs : List ℤ)
    → IsFast xs
    → (pos_part (sum xs) ≤ length xs * (2 ^ 14 - 1)) × (neg_part (sum xs) ≤ length xs * 2 ^ 14)
sum_bounds [] h = omega arith
sum_bounds (x ∷ xs) h = omega (
  arith,
  sum_bounds xs h.1,
  +ℤ_parts x (sum xs),
  h.0,
  parts_disjoint x,
  parts_disjoint (sum xs),
  parts_disjoint (x +ℤ sum xs),
)

-- Every result fits the 22 bits that the PI controller expects, with no saturation.
pub block_sums-IsSigned : (n : ℕ) (es : List ℤ) → IsFast es → All (IsSigned 22) (block_sums n es)
unfolding block_sums
block_sums-IsSigned zero es h = tt
block_sums-IsSigned (suc n) es h = (
  omega (arith, sum_bounds (take 128 es) (All-take 128 es h), length-take 128 es),
  block_sums-IsSigned n (drop 128 es) (All-drop 128 es h),
)
