-- ===== src/Text/Decimal.antt =====
-- `int(str(z)) == z`, and what `str` writes is a word.
use mathlib.Core.Path.{subst}
use anonymous_repo.Prelude.{
  All, sym, ℕ, zero, suc, ◌+◌, ◌-◌, ◌*◌, ◌/◌, ◌%◌, ◌<◌, ◌≡◌, refl, ◌∙◌, ap, Bool, true, false, some,
  [], ◌∷◌, ◌++◌, append_assoc, append-nil, ltb, leb, ◌==◌, All-append, arith, Bool-cases, inl, inr,
  ℤ, pos, negsuc,
}
use anonymous_repo.Text.Str.{Text, is_space}
use anonymous_repo.Text.Words.{IsWord, IsWord-NoSpace, NoSpace, strip-word}
use anonymous_repo.Text.Number.{digits_value, signed, parse_int, decimal_from, decimal, show_int}

pub digits_value-digit :
    (n : ℕ) (b : Bool) (d : ℕ) (t : Text)
    → d < 10
    → digits_value n b ((b'0' + d) ∷ t) ≡ digits_value (n * 10 + d) true t
unfolding digits_value
digits_value-digit n b d t h =
    let low : leb b'0' (b'0' + d) ≡ true = ground arith in
    let high : leb (b'0' + d) b'9' ≡ true = ground arith in
    let value : b'0' + d - b'0' ≡ d = omega arith in simp (low, high, value)

digits_value-decimal_from :
    (f n : ℕ) (b : Bool) (t : Text)
    → n < f
    → digits_value 0 b (decimal_from f n ++ t) ≡ digits_value n true t
unfolding decimal_from
digits_value-decimal_from zero n b t h = absurd (omega arith)
digits_value-decimal_from (suc f) n b t h = elim (Bool-cases (ltb n 10)) [
  | inl e ↦
      let whole : 0 * 10 + n ≡ n = omega arith in
      rw e (digits_value-digit 0 b n t (ground arith) ∙ ap (λ k. digits_value k true t) whole)
  | inr e ↦
      let front = digits_value-decimal_from f (n / 10) b ((b'0' + n % 10) ∷ t) (ground arith) in
      let back = digits_value-digit (n / 10) true (n % 10) t (omega arith) in
      let whole : n / 10 * 10 + n % 10 ≡ n = omega arith in
      rw (e, append_assoc) (front ∙ back ∙ ap (λ k. digits_value k true t) whole)
]

pub digit-NoSpace : (d : ℕ) → d < 10 → is_space (b'0' + d) ≡ false
unfolding is_space
digit-NoSpace d h = ground arith

decimal_from-NoSpace : (f n : ℕ) → n < f → NoSpace (decimal_from f n)
unfolding decimal_from
decimal_from-NoSpace zero n h = tt
decimal_from-NoSpace (suc f) n h = elim (Bool-cases (ltb n 10)) [
  | inl e ↦ rw e (digit-NoSpace n (ground arith), tt)
  | inr e ↦ rw e (
      All-append (λ c. is_space c ≡ false) (decimal_from f (n / 10)) ((b'0' + n % 10) ∷ [])
        (decimal_from-NoSpace f (n / 10) (ground arith)) (digit-NoSpace (n % 10) (omega arith), tt))
]

decimal_from-All :
    (P : ℕ → Type 0) (f n : ℕ)
    → ((d : ℕ) → d < 10 → P (b'0' + d))
    → n < f
    → All P (decimal_from f n)
unfolding decimal_from
decimal_from-All P zero n p h = tt
decimal_from-All P (suc f) n p h = elim (Bool-cases (ltb n 10)) [
  | inl e ↦ rw e (p n (ground arith), tt)
  | inr e ↦ rw e (
      All-append P (decimal_from f (n / 10)) ((b'0' + n % 10) ∷ [])
        (decimal_from-All P f (n / 10) p (ground arith)) (p (n % 10) (omega arith), tt))
]

-- What holds of the ten digits holds of every character of a number's text.
pub decimal-All : (P : ℕ → Type 0) (n : ℕ) → ((d : ℕ) → d < 10 → P (b'0' + d)) → All P (decimal n)
unfolding decimal
decimal-All P n p = decimal_from-All P (suc n) n p (omega arith)

-- The text of a number begins with a digit.
abbrev StartsDigit : Text → Type 0
StartsDigit t = (d : ℕ) × (rest : Text) × (d < 10) × (t ≡ (b'0' + d) ∷ rest)

StartsDigit-append : (s t : Text) → StartsDigit s → StartsDigit (s ++ t)
StartsDigit-append s t (d, rest, h, e) = (d, rest ++ t, h, rw e)

decimal_from-StartsDigit : (f n : ℕ) → n < f → StartsDigit (decimal_from f n)
unfolding decimal_from
decimal_from-StartsDigit zero n h = absurd (omega arith)
decimal_from-StartsDigit (suc f) n h = elim (Bool-cases (ltb n 10)) [
  | inl e ↦ rw e (n, [], ground arith, refl)
  | inr e ↦ rw e (
      StartsDigit-append (decimal_from f (n / 10)) ((b'0' + n % 10) ∷ [])
        (decimal_from-StartsDigit f (n / 10) (ground arith)))
]

IsWord-of_StartsDigit : (t : Text) → StartsDigit t → NoSpace t → IsWord t
IsWord-of_StartsDigit [] (d, rest, h, e) k = cc
IsWord-of_StartsDigit (c ∷ t) h k = k

pub decimal-IsWord : (n : ℕ) → IsWord (decimal n)
unfolding decimal
decimal-IsWord n =
    IsWord-of_StartsDigit (decimal_from (suc n) n)
      (decimal_from-StartsDigit (suc n) n (omega arith))
      (decimal_from-NoSpace (suc n) n (omega arith))

digits_value-decimal : (n : ℕ) → digits_value 0 false (decimal n) ≡ some n
unfolding decimal digits_value
digits_value-decimal n =
    ap (digits_value 0 false) (sym (append-nil (decimal_from (suc n) n)))
    ∙ digits_value-decimal_from (suc n) n false [] (omega arith)

pub signed_of_StartsDigit :
    (t : Text) (n : ℕ) → StartsDigit t → digits_value 0 false t ≡ some n → signed t ≡ some (pos n)
unfolding signed
signed_of_StartsDigit t n (d, rest, h, e) k =
    let minus : ((b'0' + d) == b'-') ≡ false = ground arith in
    let plus : ((b'0' + d) == b'+') ≡ false = ground arith in
    let value = subst (λ u. digits_value 0 false u ≡ some n) e k in rw e (ground (arith, value))

minus-NoSpace : is_space b'-' ≡ false
unfolding is_space
minus-NoSpace = refl

pub show_int-IsWord : (z : ℤ) → IsWord (show_int z)
unfolding show_int
show_int-IsWord (pos n) = decimal-IsWord n
show_int-IsWord (negsuc n) =
    (minus-NoSpace, IsWord-NoSpace (decimal (suc n)) (decimal-IsWord (suc n)))

signed_of_minus :
    (t : Text) (n : ℕ) → digits_value 0 false t ≡ some (suc n) → signed (b'-' ∷ t) ≡ some (negsuc n)
unfolding signed
signed_of_minus t n h = ground (arith, h)

pub parse_int_of_word : (t : Text) → IsWord t → parse_int t ≡ signed t
unfolding parse_int
parse_int_of_word t h = ap signed (strip-word t h)

-- The text of any integer is read back as that integer.
pub parse_int-show_int : (z : ℤ) → parse_int (show_int z) ≡ some z
parse_int-show_int z = parse_int_of_word (show_int z) (show_int-IsWord z) ∙ signed-show_int z
  where
    signed-show_int : (y : ℤ) → signed (show_int y) ≡ some y
    signed-show_int (pos n) =
        unfold show_int decimal in
        signed_of_StartsDigit (decimal_from (suc n) n) n
          (decimal_from-StartsDigit (suc n) n (omega arith)) (digits_value-decimal n)
    signed-show_int (negsuc n) =
        unfold show_int in signed_of_minus (decimal (suc n)) n (digits_value-decimal (suc n))

pub parse_int-decimal : (n : ℕ) → parse_int (decimal n) ≡ some (pos n)
unfolding show_int
parse_int-decimal n = parse_int-show_int (pos n)
