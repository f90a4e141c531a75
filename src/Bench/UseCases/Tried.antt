-- ===== src/Bench/UseCases/Tried.antt =====
-- A `try` block whose `except` only prints: what was assigned before the exception stays assigned.
use anonymous_repo.Prelude.{
  ℕ, Bool, Option, none, some, List, reverse, get_elem?, ℤ, Result, ok, err,
}
use anonymous_repo.Text.Str.{Text}

-- The variables behind a statement, or at the exception that it has raised.
pub data Tried (S : Type 0) : Type 0 where
  went raised : S → Tried S

-- The next statement.
infixl 5 ◌then_do◌
abbrev pub ◌then_do◌ : {S : Type 0} → Tried S → (S → Tried S) → Tried S
went s then_do next = next s
raised s then_do next = raised s

-- The variables behind the whole of `try` and `except`.
abbrev pub kept : {S : Type 0} → Tried S → S
kept (went s) = s
kept (raised s) = s

-- A statement that uses a value, which may raise.
abbrev pub with_value : {S V : Type 0} → S → Option V → (V → Tried S) → Tried S
with_value s none next = raised s
with_value s (some v) next = next v

abbrev pub value_of : {V : Type 0} → Result V → Option V
value_of (err e) = none
value_of (ok v) = some v

-- `xs[-1]` and `xs[-2]`
unfoldable pub from_end : {V : Type 0} → ℕ → List V → Option V
from_end k xs = get_elem? (reverse xs) k

-- `f(xs[i])`, where an exception is caught.
abbrev pub applied : {V W : Type 0} → (V → Option W) → Option V → Option W
applied f none = none
applied f (some v) = f v

-- Python's floats, and what the scripts ask of them.
pub record Times : Type 1 where
  pub Value : Type 0
  -- `float(t)`
  pub float : Text → Option Value
  -- an integer number of seconds, and of thousandths of a second
  pub of_seconds : ℤ → Value
  pub of_thousandths : ℤ → Value
  pub minus : Value → Value → Value
  pub plus_one : Value → Value
  pub plus_half : Value → Value
  -- `x > 0`, `x < 0.001` and `x > 10`
  pub is_positive : Value → Bool
  pub is_small : Value → Bool
  pub is_busy : Value → Bool
