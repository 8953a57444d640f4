-- ===== src/Tools/Script.antt =====
-- Code that works on a board: it gives a result or raises, and leaves the board changed either way.
use coil_servo.Base.{◌≡◌, ap, List, [], ◌∷◌, Result, ok, err, Error}

-- A piece of such code.
abbrev pub Script : Type 0 → Type 0 → Type 0
Script S A = S → Result A × S

module _ {S A B : Type 0} where
  infixl 5 ◌>>=◌
  unfoldable pub ◌>>=◌ : Script S A → (A → Script S B) → Script S B
  (first >>= rest) s = let (r, s') = first s in elim r [ err e ↦ (err e, s') | ok a ↦ rest a s' ]

module _ {S A : Type 0} where
  -- Code that changes nothing.
  unfoldable pub from_result : Result A → Script S A
  from_result r s = (r, s)

  unfoldable pub reading : (S → Result A) → Script S A
  reading read s = (read s, s)

abbrev pub pure : {S A : Type 0} → A → Script S A
pure a = from_result (ok a)

-- `for x in xs: body`.
unfoldable pub for_each : {S A : Type 0} → List A → (A → Script S (Unit {0})) → Script S (Unit {0})
for_each [] body = pure tt
for_each (x ∷ xs) body = body x >>= λ u. for_each xs body

-- What holds of the board before holds after, also when the code raises.
pub record Keeps {S A : Type 0} (P : S → Type 0) (script : Script S A) : Type 0 where
  pub after : (s : S) → P s → P (script s).1

module _ {S A : Type 0} {P : S → Type 0} where
  pub Keeps-from_result : (r : Result A) → Keeps P (from_result r)
  unfolding from_result
  Keeps-from_result r = record { after = λ s p. p }

  pub Keeps-reading : (read : S → Result A) → Keeps P (reading read)
  unfolding reading
  Keeps-reading read = record { after = λ s p. p }

  pub Keeps-bind :
      {B : Type 0} (first : Script S A) (rest : A → Script S B)
      → Keeps P first
      → ((a : A) → Keeps P (rest a))
      → Keeps P (first >>= rest)
  unfolding ◌>>=◌
  Keeps-bind {B = B} first rest h k = record { after = λ s p. go (first s) (h.after s p) }
    where
      go :
          (q : Result A × S)
          → P q.1
          → P (elim q.0 as (λ _. Result B × S) [ err e ↦ (err e, q.1) | ok a ↦ rest a q.1 ]).1
      go (err e, s') p' = p'
      go (ok a, s') p' = (k a).after s' p'

pub Keeps-for_each :
    {S A : Type 0} {P : S → Type 0} (xs : List A) (body : A → Script S (Unit {0}))
    → ((x : A) → Keeps P (body x))
    → Keeps P (for_each xs body)
unfolding for_each
Keeps-for_each [] body h = Keeps-from_result (ok tt)
Keeps-for_each (x ∷ xs) body h = Keeps-bind (body x) _ (h x) (λ u. Keeps-for_each xs body h)

-- What holds of the board after code that raises nothing.
pub record Ends {S A : Type 0} (P : S → Type 0) (script : Script S A) : Type 0 where
  pub ends : (s : S) (a : A) → (script s).0 ≡ ok a → P (script s).1

module _ {S A B : Type 0} {P : S → Type 0} where
  pub Ends-bind :
      (first : Script S A) (rest : A → Script S B)
      → ((a : A) → Ends P (rest a))
      → Ends P (first >>= rest)
  unfolding ◌>>=◌
  Ends-bind first rest k = record { ends = λ s. go (first s) }
    where
      go :
          (q : Result A × S) (b : B)
          → (elim q.0 as (λ _. Result B × S) [ err e ↦ (err e, q.1) | ok a ↦ rest a q.1 ]).0 ≡ ok b
          → P (elim q.0 as (λ _. Result B × S) [ err e ↦ (err e, q.1) | ok a ↦ rest a q.1 ]).1
      go (err e, s') b h = cc
      go (ok a, s') b h = (k a).ends s' b h

  pub Ends-last :
      (first : Script S A) (rest : A → Script S B)
      → ((s : S) → P (first s).1)
      → ((a : A) → Keeps P (rest a))
      → Ends P (first >>= rest)
  unfolding ◌>>=◌
  Ends-last first rest h k = record { ends = λ s. go (first s) (h s) }
    where
      go :
          (q : Result A × S)
          → P q.1
          → (b : B)
          → (elim q.0 as (λ _. Result B × S) [ err e ↦ (err e, q.1) | ok a ↦ rest a q.1 ]).0 ≡ ok b
          → P (elim q.0 as (λ _. Result B × S) [ err e ↦ (err e, q.1) | ok a ↦ rest a q.1 ]).1
      go (err e, s') p b h' = cc
      go (ok a, s') p b h' = (k a).after s' p

module _ {S A B : Type 0} where
  -- What comes after code that raised is not run.
  pub bind_err :
      (first : Script S A) (rest : A → Script S B) (s s' : S) (e : Error)
      → first s ≡ (err e, s')
      → (first >>= rest) s ≡ (err e, s')
  unfolding ◌>>=◌
  bind_err first rest s s' e h =
      let next : Result A × S → Result B × S =
        λ q. elim q.0 [ err x ↦ (err x, q.1) | ok a ↦ rest a q.1 ] in
      ap next h

  pub bind_ok :
      (first : Script S A) (rest : A → Script S B) (s s' : S) (a : A)
      → first s ≡ (ok a, s')
      → (first >>= rest) s ≡ rest a s'
  unfolding ◌>>=◌
  bind_ok first rest s s' a h =
      let next : Result A × S → Result B × S =
        λ q. elim q.0 [ err x ↦ (err x, q.1) | ok x ↦ rest x q.1 ] in
      ap next h
