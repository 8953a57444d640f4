-- ===== src/Base/Results.antt =====
-- Python code that may raise: a value, or the exception.
use mathlib.Core.Path.{◌≡◌, refl, subst}
use mathlib.Core.Bool.{Bool, true, false}
use coil_servo.Base.Tests.{if◌then◌else◌}

-- The exceptions that the modelled code raises itself.
pub data Error : Type 0 where
  assertion_error value_error connection_error io_error timeout_error system_exit key_error
        index_error struct_error overflow_error keyboard_interrupt process_error zero_division_error
        unbound_local_error :
      Error

pub data Result {ℓ} (A : Type ℓ) : Type ℓ where
  -- `raise e`
  err : Error → Result A
  -- `return x`
  ok : A → Result A

module _ {ℓ κ} {A : Type ℓ} {B : Type κ} where
  infixl 5 ◌>>=◌
  abbrev pub ◌>>=◌ : Result A → (A → Result B) → Result B
  err raised >>= rest = err raised
  ok value >>= rest = rest value

infixl 5 ◌>>◌
abbrev pub ◌>>◌ {κ} : {B : Type κ} → Result (Unit {0}) → Result B → Result B
first >> second = first >>= λ _. second

-- Whether `except KeyboardInterrupt` catches the exception.
abbrev pub is_interrupt : Error → Bool
is_interrupt Error.keyboard_interrupt = true
is_interrupt Error.assertion_error = false
is_interrupt Error.value_error = false
is_interrupt Error.connection_error = false
is_interrupt Error.io_error = false
is_interrupt Error.timeout_error = false
is_interrupt Error.system_exit = false
is_interrupt Error.key_error = false
is_interrupt Error.index_error = false
is_interrupt Error.struct_error = false
is_interrupt Error.overflow_error = false
is_interrupt Error.process_error = false
is_interrupt Error.zero_division_error = false
is_interrupt Error.unbound_local_error = false

-- `except KeyboardInterrupt: pass`.
abbrev pub unless_interrupted : Result (Unit {0}) → Result (Unit {0})
unless_interrupted (ok u) = ok u
unless_interrupted (err e) = if is_interrupt e then ok tt else err e

-- `if not b: raise e`, and `assert b`.
abbrev pub guard : (holds : Bool) (raised : Error) → Result (Unit {0})
guard false raised = err raised
guard true raised = ok tt

-- What holds of the value, if there is one.
abbrev pub OnOk {ℓ κ} : {A : Type ℓ} → (A → Type κ) → Result A → Type κ
OnOk P (ok x) = P x
OnOk P (err e) = Unit

pub OnOk-bind :
    {A B : Type 0} {P : A → Type 0} (Q : B → Type 0) (m : Result A) (f : A → Result B)
    → OnOk P m
    → ((x : A) → P x → OnOk Q (f x))
    → OnOk Q (m >>= f)
OnOk-bind Q (ok x) f h k = k x h
OnOk-bind Q (err e) f h k = tt

pub OnOk-if :
    {A : Type 0} (P : A → Type 0) (b : Bool) (x y : Result A)
    → (b ≡ true → OnOk P x)
    → (b ≡ false → OnOk P y)
    → OnOk P (if b then x else y)
OnOk-if P true x y h k = h refl
OnOk-if P false x y h k = k refl

pub OnOk_value : {A : Type 0} (P : A → Type 0) (m : Result A) (x : A) → OnOk P m → m ≡ ok x → P x
OnOk_value P m x h e = subst (OnOk P) e h

-- With the value known.
pub OnOk-bind_eq :
    {A B : Type 0} (Q : B → Type 0) (m : Result A) (f : A → Result B)
    → ((x : A) → m ≡ ok x → OnOk Q (f x))
    → OnOk Q (m >>= f)
OnOk-bind_eq Q (ok x) f k = k x refl
OnOk-bind_eq Q (err e) f k = tt
