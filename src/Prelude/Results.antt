-- ===== src/Prelude/Results.antt =====
-- Python's exceptions as values, and the chain of fallible steps.
use mathlib.Core.Path.{◌≡◌, refl}
use mathlib.Core.Logic.{◌⊎◌, inl, inr}
use mathlib.Core.Bool.{Bool, true, false}
use mathlib.Core.Option.{Option, none, some}

-- The classes of the exceptions that the modelled code raises.
pub data Error : Type 0 where
  assertion_error index_error value_error key_error type_error name_error stop_iteration : Error
  -- No exception of the program: a loop of the model has used up its fuel.
  out_of_fuel : Error

-- What a statement leaves: the exception that it raised, or its value.
pub data Result {ℓ} (V : Type ℓ) : Type ℓ where
  err : Error → Result V
  ok : V → Result V

-- `assert test`
abbrev pub assert : Bool → Result (Unit {0})
assert false = err assertion_error
assert true = ok tt

-- The value of a lookup that raises `e` when it finds nothing.
abbrev pub or_raise {ℓ} : {V : Type ℓ} → Error → Option V → Result V
or_raise e none = err e
or_raise e (some v) = ok v

module _ {ℓ κ} {V : Type ℓ} {W : Type κ} where
  infixl 5 ◌>>=◌
  abbrev pub ◌>>=◌ : Result V → (V → Result W) → Result W
  err e >>= next = err e
  ok v >>= next = next v

module _ {κ} {W : Type κ} where
  infixl 5 ◌>>◌
  abbrev pub ◌>>◌ : Result (Unit {0}) → Result W → Result W
  first >> then_run = first >>= λ _. then_run

pub Result-cases {ℓ} :
    {V : Type ℓ} (r : Result V) → ((e : Error) × (r ≡ err e)) ⊎ ((v : V) × (r ≡ ok v))
Result-cases (err e) = inl (e, refl)
Result-cases (ok v) = inr (v, refl)

-- The two parts of a chain that succeeds.
pub bind-ok {ℓ κ} :
    {V : Type ℓ} {W : Type κ} (r : Result V) (next : V → Result W) {w : W}
    → (r >>= next) ≡ ok w
    → (v : V) × (r ≡ ok v) × (next v ≡ ok w)
bind-ok (ok v) next h = (v, refl, h)
bind-ok (err e) next h = cc
