-- ===== src/Bench/UseCases/SameLength.antt =====
-- The three lists that are drawn against each other have the same length.
use mathlib.Core.List.{reverse_aux}
use mathlib.Core.Path.{subst}
use anonymous_repo.Prelude.{
  ℕ, suc, ◌≡◌, refl, sym, ap, true, some, List, [], ◌∷◌, ◌++◌, length, length-append, get_elem?,
  All, arith, Bool-cases, inl, inr, pos, ◌≤◌,
}
use anonymous_repo.Text.Str.{Text, codes}
use anonymous_repo.Text.Edit.{is_in}
use anonymous_repo.Bench.UseCases.Tried.{Tried, went, kept, from_end, Times}
use anonymous_repo.Bench.UseCases.Leaves.{
  Leaves, kept-Leaves, went-Leaves, with_value-Leaves, with_value-known, if-Leaves,
}
use anonymous_repo.Bench.UseCases.Samples.{
  set_last, Samples, column, stamp, busy, sample, samples, no_samples, optimistic_idle,
  optimistic_first_idle, optimistic_samples,
}

set_last-length : {V : Type 0} (v : V) (xs : List V) → length (set_last v xs) ≡ length xs
unfolding set_last
set_last-length v [] = refl
set_last-length v (x ∷ []) = refl
set_last-length v (x ∷ y ∷ xs) = ap suc (set_last-length v (y ∷ xs))

reverse_aux-some :
    {V : Type 0} (xs acc : List V)
    → 1 ≤ length acc
    → (v : V) × (get_elem? (reverse_aux xs acc) 0 ≡ some v)
reverse_aux-some [] [] h = absurd (omega arith)
reverse_aux-some [] (y ∷ acc) h = (y, refl)
reverse_aux-some (x ∷ xs) acc h = reverse_aux-some xs (x ∷ acc) (omega arith)

-- A list with an element has a last one.
from_end-some : {V : Type 0} (xs : List V) → 1 ≤ length xs → (v : V) × (from_end 0 xs ≡ some v)
unfolding from_end
from_end-some [] h = absurd (omega arith)
from_end-some (x ∷ xs) h = reverse_aux-some xs (x ∷ []) (omega arith)

module _ (N : Times) where
  -- The lists agree in length, and there is a time to go on from.
  abbrev pub IsEven : Samples N → Type 0
  IsEven s =
      (length s.cpu ≡ length s.times) × (length s.memory ≡ length s.times) × (1 ≤ length s.times)

  -- A sample above 10 per cent has a number for the memory.
  abbrev pub HasMemory : Text → Type 0
  HasMemory line =
      (c : N.Value)
      → column N 2 line ≡ some c
      → N.is_busy c ≡ true
      → (m : N.Value) × (column N 5 line ≡ some m)

  three-append :
      (s : Samples N) (t c m : N.Value)
      → IsEven s
      → IsEven
          (record { times = s.times ++ t ∷ []; cpu = s.cpu ++ c ∷ []; memory = s.memory ++ m ∷ [] })
  three-append s t c m (a, b, p) =
      let x = length-append s.times (t ∷ []) in
      let y = length-append s.cpu (c ∷ []) in
      let z = length-append s.memory (m ∷ []) in (omega arith, omega arith, omega arith)

  busy-IsEven :
      (c m : N.Value) (line : Text) (s : Samples N)
      → column N 5 line ≡ some m
      → IsEven s
      → Leaves IsEven (busy N c line s)
  unfolding busy
  busy-IsEven c m line s e h =
      let (t, l) = from_end-some s.times h.2 in
      with_value-known IsEven _ (column N 5 line) _ m e (
        with_value-known IsEven _ (from_end 0 s.times) _ t l
          (went-Leaves IsEven _ (three-append s (N.plus_half t) c m h)))

  optimistic_idle-IsEven : (s : Samples N) → IsEven s → Leaves IsEven (optimistic_idle N s)
  unfolding optimistic_idle
  optimistic_idle-IsEven s (a, b, p) =
      with_value-Leaves IsEven s (from_end 0 s.times) _ (a, b, p)
        (λ t e.
          let k = set_last-length (N.plus_half t) s.times in
          went-Leaves IsEven (record s { times = set_last (N.plus_half t) s.times })
            (omega arith, omega arith, omega arith))

  abbrev one_sample : N.Value → Samples N
  one_sample t = record {
    times = t ∷ [];
    cpu = N.of_seconds (pos 0) ∷ [];
    memory = N.of_seconds (pos 0) ∷ [];
  }

  -- A file that begins with a date.
  abbrev pub IsDated : ℕ → List Text → Type 0
  IsDated offset [] = ⊥
  IsDated offset (line ∷ lines) =
      (is_in (codes "2024") line ≡ true)
      × ((t : N.Value) × (stamp N offset line ≡ some t))
      × All HasMemory lines

  module _ (idle : Samples N → Tried (Samples N))
      (keep : (s : Samples N) → IsEven s → Leaves IsEven (idle s)) (offset : ℕ) where
    sample-IsEven :
        (line : Text) (s : Samples N)
        → HasMemory line
        → IsEven s
        → Leaves IsEven (sample N idle offset line s)
    unfolding sample
    sample-IsEven line s m h =
        if-Leaves IsEven (is_in (codes "2024") line) _ _
          (with_value-Leaves IsEven s (stamp N offset line) _ h (λ t e.
            went-Leaves IsEven _
              (three-append s t (N.of_seconds (pos 0)) (N.of_seconds (pos 0)) h)))
          (with_value-Leaves IsEven s (column N 2 line) _ h (λ c e.
            elim (Bool-cases (N.is_busy c)) [
              | inl b ↦ let (v, k) = m c e b in rw b (busy-IsEven c v line s k h)
              | inr b ↦ rw b (keep s h)
            ]))

    samples-IsEven :
        (lines : List Text) (s : Samples N)
        → All HasMemory lines
        → IsEven s
        → IsEven (samples N idle offset lines s)
    unfolding samples
    samples-IsEven [] s m h = h
    samples-IsEven (line ∷ lines) s (m, ms) h =
        samples-IsEven lines (kept (sample N idle offset line s)) ms
          (kept-Leaves IsEven (sample N idle offset line s) (sample-IsEven line s m h))

    sample-stamp :
        (line : Text) (t : N.Value)
        → is_in (codes "2024") line ≡ true
        → stamp N offset line ≡ some t
        → sample N idle offset line (no_samples N) ≡ went (one_sample t)
    unfolding sample
    sample-stamp line t d e = rw (d, e) refl

    samples-IsDated :
        (lines : List Text)
        → IsDated offset lines
        → IsEven (samples N idle offset lines (no_samples N))
    unfolding samples
    samples-IsDated [] h = absurd h
    samples-IsDated (line ∷ lines) (d, (t, e), ms) =
        subst (λ x. IsEven (samples N idle offset lines (kept x))) (sym (sample-stamp line t d e))
          (samples-IsEven lines (one_sample t) ms (refl, refl, omega arith))

  first_idle-IsEven : (s : Samples N) → IsEven s → Leaves IsEven (optimistic_first_idle N s)
  unfolding Leaves
  first_idle-IsEven s h = h

  -- If the two files of checkpoints begin with a date that can be read, and each sample above 10 per cent
  -- has a number for the memory, then the lists that usecase_optimistic_computing.py draws against each
  -- other have the same length, whichever other lines raise an exception.
  pub optimistic_samples-IsEven :
      (checkpoint1 checkpoint restore1 restore : List Text)
      → IsDated 0 checkpoint1
      → IsDated 0 checkpoint
      → All HasMemory restore1
      → All HasMemory restore
      → IsEven (optimistic_samples N checkpoint1 checkpoint restore1 restore).0
        × IsEven (optimistic_samples N checkpoint1 checkpoint restore1 restore).1
  unfolding optimistic_samples
  optimistic_samples-IsEven checkpoint1 checkpoint restore1 restore a b c d =
      let second = samples-IsDated (optimistic_idle N) optimistic_idle-IsEven 0 checkpoint b in
      let third = samples-IsEven (optimistic_idle N) optimistic_idle-IsEven 0 restore1 _ c second in
      (
        samples-IsDated (optimistic_first_idle N) first_idle-IsEven 0 checkpoint1 a,
        samples-IsEven (optimistic_idle N) optimistic_idle-IsEven 0 restore _ d third,
      )
