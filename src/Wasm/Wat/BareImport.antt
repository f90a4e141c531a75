-- ===== src/Wasm/Wat/BareImport.antt =====
-- `wat_to_inst` at a module that imports something else than a function.
use anonymous_repo.Prelude.{
  ◌≡◌, refl, Bool, true, false, ◌&&◌, not, any, Option, none, some, List, [], ◌∷◌, map, ℕ, Result,
  ok, err, Error, assertion_error, ◌>>=◌, Bool-cases, inl, inr, arith,
}
use anonymous_repo.Text.Str.{Text, codes, starts_with, find_after}
use anonymous_repo.Wasm.Wat.Defs.{Names, clean, register_import, register_func, gather, wat_to_inst}

abbrev pub is_found : Option Text → Bool
is_found none = false
is_found (some t) = true

-- A line of an import without a function, as that of a memory.
abbrev pub is_bare_import : Text → Bool
is_bare_import line =
    starts_with (codes "(import ") line && not (is_found (find_after (codes "(func ") line))

bind-fails {ℓ κ} :
    {A : Type ℓ} {B : Type κ} (r : Result A) (f : A → Result B)
    → ((a : A) → (e : Error) × (f a ≡ err e))
    → (e : Error) × ((r >>= f) ≡ err e)
bind-fails (ok a) f h = h a
bind-fails (err e) f h = (e, refl)

is_found-none : (o : Option Text) → is_found o ≡ false → o ≡ none
is_found-none none h = refl
is_found-none (some t) h = cc

register_import-bare :
    (line : Text) (s : Names × ℕ)
    → is_bare_import line ≡ true
    → register_import line s ≡ err assertion_error
unfolding register_import
register_import-bare line (m, c) h =
    let p : starts_with (codes "(import ") line ≡ true = ground (arith, h) in
    let q : is_found (find_after (codes "(func ") line) ≡ false = ground (arith, h) in
    rw (p, is_found-none (find_after (codes "(func ") line) q) refl

gather-bare :
    (lines : List Text) (s : Names × ℕ)
    → any is_bare_import lines ≡ true
    → (e : Error) × (gather lines s ≡ err e)
unfolding gather
gather-bare [] s h = cc
gather-bare (line ∷ lines) s h =
    let rest = gather-bare lines in
    elim (Bool-cases (is_bare_import line)) [
      | inl e ↦ (assertion_error, rw (register_import-bare line s e) refl)
      | inr e ↦
          let h' : any is_bare_import lines ≡ true = ground (arith, h, e) in
          bind-fails (register_import line s) _
            (λ s₁. bind-fails (register_func line s₁) _ (λ s₂. rest s₂ h'))
    ]

-- A module with a line that begins with "(import " and does not hold "(func ", such as that of an
-- imported memory or table, is not translated, whatever else it holds: `wat_to_inst` raises an
-- exception.
pub wat_to_inst-bare_import :
    (lines : List Text)
    → any is_bare_import (map clean lines) ≡ true
    → (e : Error) × (wat_to_inst lines ≡ err e)
unfolding wat_to_inst
wat_to_inst-bare_import lines h =
    let (e, g) = gather-bare (map clean lines) ([], 0) h in (e, rw g refl)
