-- ===== src/Bench/UseCases/Leaves.antt =====
-- A property of the variables behind a `try` block.
use anonymous_repo.Prelude.{◌≡◌, refl, Bool, true, false, Option, none, some, if◌then◌else◌}
use anonymous_repo.Bench.UseCases.Tried.{Tried, went, raised, ◌then_do◌, kept, with_value}

-- What a statement leaves has the property, whether it raises or not.
unfoldable pub Leaves : {S : Type 0} → (S → Type 0) → Tried S → Type 0
Leaves P t = P (kept t)

module _ {S : Type 0} (P : S → Type 0) where
  pub kept-Leaves : (t : Tried S) → Leaves P t → P (kept t)
  unfolding Leaves
  kept-Leaves t h = h

  pub went-Leaves : (s : S) → P s → Leaves P (went s)
  unfolding Leaves
  went-Leaves s h = h

  pub then_do-Leaves :
      (t : Tried S) (next : S → Tried S)
      → Leaves P t
      → ((s : S) → P s → Leaves P (next s))
      → Leaves P (t then_do next)
  unfolding Leaves
  then_do-Leaves (went s) next h k = k s h
  then_do-Leaves (raised s) next h k = h

  pub with_value-Leaves :
      {V : Type 0} (s : S) (o : Option V) (next : V → Tried S)
      → P s
      → ((v : V) → o ≡ some v → Leaves P (next v))
      → Leaves P (with_value s o next)
  unfolding Leaves
  with_value-Leaves s none next h k = h
  with_value-Leaves s (some v) next h k = k v refl

  pub if-Leaves :
      (b : Bool) (t u : Tried S) → Leaves P t → Leaves P u → Leaves P (if b then t else u)
  if-Leaves true t u h k = h
  if-Leaves false t u h k = k

  pub with_value-known :
      {V : Type 0} (s : S) (o : Option V) (next : V → Tried S) (v : V)
      → o ≡ some v
      → Leaves P (next v)
      → Leaves P (with_value s o next)
  with_value-known s o next v e h = rw e h
