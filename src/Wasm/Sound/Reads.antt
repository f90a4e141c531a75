-- ===== src/Wasm/Sound/Reads.antt =====
-- What an action of the parser does with the lines that are left, and the rules for sequences.
use mathlib.Core.Path.{subst}
use anonymous_repo.Prelude
use anonymous_repo.Prelude.{
  ℕ, suc, ◌+◌, ◌<◌, ◌≤◌, ◌≡◌, ◌≢◌, refl, sym, ◌∙◌, ap, Bool, true, false, ◌&&◌, none, some, Option,
  List, [], ◌∷◌, ◌++◌, append_assoc, append-nil, arith, length, length-append, ℤ, Result, ok, err,
  Error, out_of_fuel, if◌then◌else◌, ◌==◌, ==_iff, Bool-cases, inl, inr, Option-cases,
}
use anonymous_repo.Text.Str.{Text, text_eq}
use anonymous_repo.Text.Number.{parse_int}
use anonymous_repo.Wasm.Token.{Token, token_text}
use anonymous_repo.Wasm.Stream.{
  Line, InstStream, expect-stream_at_empty, stream_at, expect-stream_at, expect-stream_at_nil,
  next-stream_at, second,
}
use anonymous_repo.Wasm.Parser.{Parser, ◌>>=◌, ◌>>◌, expect, assert_expect, next, next_int}

-- The run raised an exception of the program, or `P` holds of its value.
pub data Ensures {ℓ κ} {V : Type ℓ} (P : V → Type κ) : Result V → Type (ℓ ⊔ κ) where
  raised : {e : Error} → e ≢ out_of_fuel → Ensures P (err e)
  holds : {v : V} → P v → Ensures P (ok v)

-- Some lines `ks` were read off the front, and `Q` relates them to the value.
abbrev pub Reads {ℓ} :
    {A : Type ℓ} → (List Line → A → Type 0) → List Line → List Line → A × InstStream → Type 0
Reads Q d ls (a, s) =
    (ks : List Line) × (rest : List Line) × (ls ≡ ks ++ rest)
    × (s ≡ stream_at (d ++ ks) rest)
    × Q ks a

-- So for every list of fewer than `n` lines.
abbrev pub ReadsOnly {ℓ} : {A : Type ℓ} → ℕ → (List Line → A → Type 0) → Parser A → Type ℓ
ReadsOnly n Q p = (d ls : List Line) → length ls < n → Ensures (Reads Q d ls) (p (stream_at d ls))

pub text_eq→eq : (s t : Text) → text_eq s t ≡ true → s ≡ t
unfolding text_eq
text_eq→eq [] [] h = refl
text_eq→eq (a ∷ s) [] h = cc
text_eq→eq [] (b ∷ t) h = cc
text_eq→eq (a ∷ s) (b ∷ t) h = ground (arith, text_eq→eq s t, ==_iff a b)

module _ {ℓ} {A : Type ℓ} where
  pub Reads-pure :
      (Q : List Line → A → Type 0) (d ls : List Line) (a : A)
      → Q [] a
      → Ensures (Reads Q d ls) (ok (a, stream_at d ls))
  Reads-pure Q d ls a q = holds ([], ls, refl, rw append-nil, q)

  -- What is read behind `ks` is read behind the lines before it.
  pub Reads-shift :
      (R : List Line → A → Type 0) (d ks ls rest : List Line) {x : Result (A × InstStream)}
      → ls ≡ ks ++ rest
      → Ensures (Reads (λ us b. R (ks ++ us) b) (d ++ ks) rest) x
      → Ensures (Reads R d ls) x
  Reads-shift R d ks ls rest e (holds (us, more, p, q, r)) = holds (
    ks ++ us,
    more,
    rw (e, p, append_assoc),
    q ∙ ap (λ t. stream_at t more) (append_assoc d ks us),
    r,
  )
  Reads-shift R d ks ls rest e (raised n) = raised n

  pub ReadsOnly-map :
      (n : ℕ) (Q R : List Line → A → Type 0) (p : Parser A)
      → ((ks : List Line) (a : A) → Q ks a → R ks a)
      → ReadsOnly n Q p
      → ReadsOnly n R p
  ReadsOnly-map n Q R p g h d ls lt = go (h d ls lt)
    where
      go : {x : Result (A × InstStream)} → Ensures (Reads Q d ls) x → Ensures (Reads R d ls) x
      go (holds {v = (a, s)} (ks, rest, e, q, r)) = holds (ks, rest, e, q, g ks a r)
      go (raised n) = raised n

module _ {ℓ κ} {A : Type ℓ} {B : Type κ} where
  -- A sequence: the rest may count on fewer lines by those that were read.
  pub bind-ReadsOnly :
      (n m : ℕ) (Q : List Line → A → Type 0) (R : List Line → B → Type 0) (p : Parser A)
      (f : A → Parser B)
      → ReadsOnly n Q p
      → ((a : A) (ks : List Line)
          → Q ks a
          → (n ≤ m + length ks) × ReadsOnly m (λ us b. R (ks ++ us) b) (f a))
      → ReadsOnly n R (p >>= f)
  bind-ReadsOnly n m Q R p f h k d ls lt = go (h d ls lt)
    where
      left : (ks rest : List Line) → ls ≡ ks ++ rest → n ≤ m + length ks → length rest < m
      left ks rest e le = omega (arith, ap length e, length-append ks rest)

      go :
          {x : Result (A × InstStream)}
          → Ensures (Reads Q d ls) x
          → Ensures (Reads R d ls) (Prelude.◌>>=◌ x λ (a, s). f a s)
      go (holds {v = (a, s)} (ks, rest, e, q, r)) =
          let (le, again) = k a ks r in
          rw q (Reads-shift R d ks ls rest e (again (d ++ ks) rest (left ks rest e le)))
      go (raised n) = raised n

module _ {κ} {B : Type κ} (n m : ℕ) (le : n ≤ suc m) (R : List Line → B → Type 0) where
  -- `if self.expect(t): yes else: no`
  pub expect-ReadsOnly :
      (t : Token) (yes_case no_case : Parser B)
      → ((ws : Line) (d rest : List Line)
          → length rest < m
          → Ensures
              (Reads R d ((token_text t ∷ ws) ∷ rest))
              (yes_case (stream_at d ((token_text t ∷ ws) ∷ rest))))
      → ReadsOnly n R no_case
      → ReadsOnly n R (do b ← expect t; if b then yes_case else no_case)
  unfolding expect
  expect-ReadsOnly t yes_case no_case h k d [] lt =
      rw (expect-stream_at_nil d (token_text t)) (raised cc)
  expect-ReadsOnly t yes_case no_case h k d ([] ∷ rest) lt =
      rw (expect-stream_at_empty d (token_text t) rest) (raised cc)
  expect-ReadsOnly t yes_case no_case h k d ((w ∷ ws) ∷ rest) lt =
      elim (Bool-cases (text_eq w (token_text t))) [
        | inl e ↦
            rw (expect-stream_at d (token_text t) w ws rest, e)
              (subst
                (λ v.
                  Ensures (Reads R d ((v ∷ ws) ∷ rest)) (yes_case (stream_at d ((v ∷ ws) ∷ rest))))
                (sym (text_eq→eq w (token_text t) e)) (h ws d rest (omega arith)))
        | inr e ↦ rw (expect-stream_at d (token_text t) w ws rest, e) (k d ((w ∷ ws) ∷ rest) lt)
      ]

  -- `assert self.expect(t)`
  pub assert-ReadsOnly :
      (t : Token) (k : Parser B)
      → ((ws : Line) (d rest : List Line)
          → length rest < m
          → Ensures
              (Reads R d ((token_text t ∷ ws) ∷ rest))
              (k (stream_at d ((token_text t ∷ ws) ∷ rest))))
      → ReadsOnly n R (do assert_expect t; k)
  unfolding assert_expect
  assert-ReadsOnly t k h d [] lt = rw (expect-stream_at_nil d (token_text t)) (raised cc)
  assert-ReadsOnly t k h d ([] ∷ rest) lt =
      rw (expect-stream_at_empty d (token_text t) rest) (raised cc)
  assert-ReadsOnly t k h d ((w ∷ ws) ∷ rest) lt = elim (Bool-cases (text_eq w (token_text t))) [
    | inl e ↦
        rw (expect-stream_at d (token_text t) w ws rest, e)
          (subst (λ v. Ensures (Reads R d ((v ∷ ws) ∷ rest)) (k (stream_at d ((v ∷ ws) ∷ rest))))
            (sym (text_eq→eq w (token_text t) e)) (h ws d rest (omega arith)))
    | inr e ↦ rw (expect-stream_at d (token_text t) w ws rest, e) (raised cc)
  ]

module _ {κ} {B : Type κ} (m : ℕ) (R : List Line → B → Type 0) (d rest : List Line) where
  pub next-Reads :
      (l : Line) (k : Line → Parser B)
      → length rest < m
      → ReadsOnly m (λ us b. R (l ∷ us) b) (k l)
      → Ensures (Reads R d (l ∷ rest)) ((do line ← next; k line) (stream_at d (l ∷ rest)))
  unfolding next
  next-Reads l k lt h =
      rw (next-stream_at d l rest)
        (Reads-shift R d (l ∷ []) (l ∷ rest) rest refl (h (d ++ l ∷ []) rest lt))

  pub next_int-Reads :
      (w : Text) (ws : Line) (k : ℤ → Parser B)
      → length rest < m
      → ((v : Text) (vs : Line) (z : ℤ)
          → parse_int v ≡ some z
          → ReadsOnly m (λ us b. R ((w ∷ v ∷ vs) ∷ us) b) (k z))
      → Ensures
          (Reads R d ((w ∷ ws) ∷ rest))
          ((do z ← next_int; k z) (stream_at d ((w ∷ ws) ∷ rest)))
  unfolding next_int second
  next_int-Reads w [] k lt h = rw (next-stream_at d (w ∷ []) rest) (raised cc)
  next_int-Reads w (v ∷ vs) k lt h =
      let l = w ∷ v ∷ vs in
      elim (Option-cases (parse_int v)) [
        | inl e ↦ rw (next-stream_at d l rest, e) (raised cc)
        | inr (z, e) ↦
            rw (next-stream_at d l rest, e)
              (Reads-shift R d (l ∷ []) (l ∷ rest) rest refl (h v vs z e (d ++ l ∷ []) rest lt))
      ]
