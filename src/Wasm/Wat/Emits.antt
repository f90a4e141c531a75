-- ===== src/Wasm/Wat/Emits.antt =====
-- What `wat_to_inst` writes for some lines, and the words that `InstStream` reads back from it.
use anonymous_repo.Prelude.{
  All-append, ◌==◌, ◌≡◌, refl, sym, ap, ◌∙◌, Option, none, some, List, [], ◌∷◌, ◌++◌, append_assoc,
  append-nil, false, Result, ok, err, ◌>>=◌,
}
use anonymous_repo.Text.Str.{Text, strip, split_on, split}
use anonymous_repo.Text.Words.{
  IsWord, IsWord-NoSpace, NoSpace-OneLine, OneLine, split-word, split-word_space, split_on-word,
  split_on-word_space, readlines-newline, strip-word_newline, strip-words_newline,
}
use anonymous_repo.Wasm.Stream.{Line, load_insts, second}
use anonymous_repo.Wasm.Wat.Defs.{Names, State, newline, translate_line, translate_lines}
use anonymous_repo.Wasm.Wat.Shape.{tail}

-- The text is read back as these lines, whatever follows it.
abbrev pub Loads : Text → List Line → Type 0
Loads w ls = (rest : Text) → load_insts (w ++ rest) ≡ ls ++ load_insts rest

pub Loads-nil : Loads [] []
Loads-nil rest = refl

pub Loads-append :
    (v w : Text) (ks ls : List Line) → Loads v ks → Loads w ls → Loads (v ++ w) (ks ++ ls)
Loads-append v w ks ls h k rest = simp (append_assoc, h (w ++ rest), k rest)

load_insts-line :
    (l rest : Text)
    → OneLine l
    → load_insts (l ++ 10 ∷ rest) ≡ split_on 32 (strip (l ++ newline)) ∷ load_insts rest
unfolding load_insts
load_insts-line l rest h = simp (readlines-newline l rest h)

pub Loads-word : (w : Text) → IsWord w → Loads (w ++ newline) ((w ∷ []) ∷ [])
Loads-word w h rest =
    ap load_insts (append_assoc w newline rest)
    ∙ load_insts-line w rest (NoSpace-OneLine w (IsWord-NoSpace w h))
    ∙ simp (strip-word_newline w h, split_on-word w (IsWord-NoSpace w h))

pub Loads-words :
    (w v : Text) → IsWord w → IsWord v → Loads (w ++ 32 ∷ (v ++ newline)) ((w ∷ v ∷ []) ∷ [])
Loads-words w v h k rest =
    let whole =
      All-append (λ c. (c == 10) ≡ false) w (32 ∷ v) (NoSpace-OneLine w (IsWord-NoSpace w h))
        (refl, NoSpace-OneLine v (IsWord-NoSpace v k)) in
    let shape : (w ++ 32 ∷ (v ++ newline)) ++ rest ≡ (w ++ 32 ∷ v) ++ 10 ∷ rest =
      simp append_assoc in
    ap load_insts shape
    ∙ load_insts-line (w ++ 32 ∷ v) rest whole
    ∙ simp (
      strip-words_newline w v h k,
      split_on-word_space w v (IsWord-NoSpace w h),
      split_on-word v (IsWord-NoSpace v k),
    )

-- What comes after a text that has been written.
abbrev pub behind : Text → State × Text → Result (State × Text)
behind w r = ok (r.0, w ++ r.1)

-- The translation of the lines goes from a state to another and writes what is read back as `ls`.
abbrev pub Emits : Names → State → List Text → State → List Line → Type 0
Emits m s lines s' ls =
    (w : Text) × ((more : List Text)
      → translate_lines m s (lines ++ more) ≡ (translate_lines m s' more >>= behind w))
    × Loads w ls

pub Emits-line :
    (m : Names) (s s' : State) (l w : Text) (ls : List Line)
    → translate_line m s l ≡ ok (s', w)
    → Loads w ls
    → Emits m s (l ∷ []) s' ls
unfolding translate_lines
Emits-line m s s' l w ls e h = (w, λ more. rw e, h)

bind_twice :
    (r : Result (State × Text)) (v w : Text)
    → (r >>= behind w >>= behind v) ≡ (r >>= behind (v ++ w))
bind_twice (err e) v w = refl
bind_twice (ok x) v w = ap (λ t. ok (x.0, t)) (sym (append_assoc v w x.1))

pub Emits-append :
    (m : Names) (s s' s″ : State) (a b : List Text) (ks ls : List Line)
    → Emits m s a s' ks
    → Emits m s' b s″ ls
    → Emits m s (a ++ b) s″ (ks ++ ls)
Emits-append m s s' s″ a b ks ls (v, p, h) (w, q, k) = (
  v ++ w,
  λ more.
      ap (translate_lines m s) (append_assoc a b more)
      ∙ p (b ++ more)
      ∙ ap (λ r. r >>= behind v) (q more)
      ∙ bind_twice (translate_lines m s″ more) v w,
  Loads-append v w ks ls h k,
)

-- The second word of a line that begins with a word, a space and another word.
pub second-split :
    (head w : Text) (t : Option Text)
    → IsWord head
    → IsWord w
    → second (split (head ++ 32 ∷ (w ++ tail t))) ≡ ok w
unfolding second
second-split head w none h k = simp (append-nil, split-word_space head w h, split-word w k)
second-split head w (some t) h k =
    simp (split-word_space head (w ++ 32 ∷ t) h, split-word_space w t k)

behind-nil : (r : Result (State × Text)) → r ≡ (r >>= behind [])
behind-nil (err e) = refl
behind-nil (ok x) = refl

pub Emits-nil : (m : Names) (s : State) → Emits m s [] s []
Emits-nil m s = ([], λ more. behind-nil (translate_lines m s more), Loads-nil)
