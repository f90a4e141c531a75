-- ===== src/Bench/Compare/Lines.antt =====
-- The rows of outputs in which one line has the mark.
use anonymous_repo.Prelude.{
  ◌≡◌, refl, ap, true, false, Option, none, some, List, [], ◌∷◌, ◌++◌, All, Result, ok, err, length,
  suc, arith, name_error, length, suc, arith,
}
use anonymous_repo.Text.Str.{Text, split_on}
use anonymous_repo.Text.Edit.{is_in}
use anonymous_repo.Bench.Host.{Output, str, raw}
use anonymous_repo.Bench.Compare.Rows.{
  line_row, line_rows, rows_per_line, read_marked, last_time, rows_per_run,
}

-- The line is the only one of the output with the mark.
abbrev pub IsOnly : Text → Text → Text → Type 0
IsOnly mark output line =
    (before : List Text) × (after : List Text) × (split_on 10 output ≡ before ++ line ∷ after)
    × (is_in mark line ≡ true)
    × All (λ l. is_in mark l ≡ false) before
    × All (λ l. is_in mark l ≡ false) after

-- The rows of runs with these times.
abbrev pub rows_of : {T : Type 0} → List (Text × Output) → List T → List (Text × T)
rows_of ((exec, output) ∷ results) (t ∷ ts) = (exec, t) ∷ rows_of results ts
rows_of _ _ = []

pub length-rows_of :
    {T : Type 0} (results : List (Text × Output)) (ts : List T)
    → length results ≡ length ts
    → length (rows_of results ts) ≡ length results
length-rows_of [] [] h = refl
length-rows_of [] (t ∷ ts) h = refl
length-rows_of ((exec, output) ∷ results) [] h = absurd (omega arith)
length-rows_of ((exec, output) ∷ results) (t ∷ ts) h =
    let rest = length-rows_of results ts (omega arith) in omega arith

module _ {T : Type 0} (mark : Text) (read : Text → Option T → Result (Option T)) where
  -- The only line with the mark is read as the time, whatever was read before.
  abbrev pub Readable : List (Text × Output) → List T → Type 0
  Readable [] [] = Unit
  Readable ((exec, str output) ∷ results) (t ∷ ts) =
      ((line : Text) × IsOnly mark output line × ((last : Option T) → read line last ≡ ok (some t)))
      × Readable results ts
  Readable _ _ = ⊥

  pub Readable-length :
      (results : List (Text × Output)) (ts : List T)
      → Readable results ts
      → length results ≡ length ts
  Readable-length [] [] h = refl
  Readable-length [] (t ∷ ts) h = absurd h
  Readable-length ((exec, raw b) ∷ results) ts h = absurd h
  Readable-length ((exec, str o) ∷ results) [] h = absurd h
  Readable-length ((exec, str o) ∷ results) (t ∷ ts) (h, hs) =
      ap suc (Readable-length results ts hs)

  line_rows-unmarked :
      (exec : Text) (lines : List Text) (t : Option T)
      → All (λ l. is_in mark l ≡ false) lines
      → line_rows mark read exec lines t ≡ ok (t, [])
  unfolding line_rows line_row
  line_rows-unmarked exec [] t h = refl
  line_rows-unmarked exec (l ∷ ls) t (h, hs) = rw (h, line_rows-unmarked exec ls t hs) refl

  line_rows-read :
      (exec : Text) (before after : List Text) (line : Text) (last : Option T) (t : T)
      → is_in mark line ≡ true
      → All (λ l. is_in mark l ≡ false) before
      → All (λ l. is_in mark l ≡ false) after
      → read line last ≡ ok (some t)
      → line_rows mark read exec (before ++ line ∷ after) last ≡ ok (some t, (exec, t) ∷ [])
  unfolding line_rows line_row
  line_rows-read exec [] after line last t e b a r =
      rw (e, r, line_rows-unmarked exec after (some t) a) refl
  line_rows-read exec (l ∷ before) after line last t e (b, bs) a r =
      rw (b, line_rows-read exec before after line last t e bs a r) refl

  line_rows-unread :
      (exec : Text) (before after : List Text) (line : Text)
      → is_in mark line ≡ true
      → All (λ l. is_in mark l ≡ false) before
      → read line none ≡ ok none
      → line_rows mark read exec (before ++ line ∷ after) none ≡ err name_error
  unfolding line_rows line_row
  line_rows-unread exec [] after line e b r = rw (e, r) refl
  line_rows-unread exec (l ∷ before) after line e (b, bs) r =
      rw (b, line_rows-unread exec before after line e bs r) refl

  last_time-unmarked :
      (lines : List Text) (t : Option T)
      → All (λ l. is_in mark l ≡ false) lines
      → last_time mark read lines t ≡ ok t
  unfolding last_time read_marked
  last_time-unmarked [] t h = refl
  last_time-unmarked (l ∷ ls) t (h, hs) = rw h (last_time-unmarked ls t hs)

  last_time-read :
      (before after : List Text) (line : Text) (last : Option T) (t : T)
      → is_in mark line ≡ true
      → All (λ l. is_in mark l ≡ false) before
      → All (λ l. is_in mark l ≡ false) after
      → read line last ≡ ok (some t)
      → last_time mark read (before ++ line ∷ after) last ≡ ok (some t)
  unfolding last_time read_marked
  last_time-read [] after line last t e b a r = rw (e, r) (last_time-unmarked after (some t) a)
  last_time-read (l ∷ before) after line last t e (b, bs) a r =
      rw b (last_time-read before after line last t e bs a r)

  pub rows_per_line-Readable :
      (results : List (Text × Output)) (ts : List T) (last : Option T)
      → Readable results ts
      → rows_per_line mark read results last ≡ ok (rows_of results ts)
  unfolding rows_per_line
  rows_per_line-Readable [] [] last h = refl
  rows_per_line-Readable [] (t ∷ ts) last h = absurd h
  rows_per_line-Readable ((exec, raw b) ∷ results) ts last h = absurd h
  rows_per_line-Readable ((exec, str o) ∷ results) [] last h = absurd h
  rows_per_line-Readable ((exec, str o) ∷ results) (t ∷ ts) last
        ((line, (before, after, s, e, b, a), r), hs) =
      rw
        (
          s,
          line_rows-read exec before after line last t e b a (r last),
          rows_per_line-Readable results ts (some t) hs,
        )
        refl

  pub rows_per_run-Readable :
      (results : List (Text × Output)) (ts : List T) (last : Option T)
      → Readable results ts
      → rows_per_run mark read results last ≡ ok (rows_of results ts)
  unfolding rows_per_run
  rows_per_run-Readable [] [] last h = refl
  rows_per_run-Readable [] (t ∷ ts) last h = absurd h
  rows_per_run-Readable ((exec, raw b) ∷ results) ts last h = absurd h
  rows_per_run-Readable ((exec, str o) ∷ results) [] last h = absurd h
  rows_per_run-Readable ((exec, str o) ∷ results) (t ∷ ts) last
        ((line, (before, after, s, e, b, a), r), hs) =
      rw
        (
          s,
          last_time-read before after line last t e b a (r last),
          rows_per_run-Readable results ts (some t) hs,
        )
        refl

  -- The only line with the mark leaves the time as it was.
  abbrev pub Keeps : Text → Type 0
  Keeps output =
      (line : Text) × IsOnly mark output line × ((last : Option T) → read line last ≡ ok last)

  -- A first run without a time.
  pub rows_per_line-unassigned :
      (exec output : Text) (results : List (Text × Output))
      → Keeps output
      → rows_per_line mark read ((exec, str output) ∷ results) none ≡ err name_error
  unfolding rows_per_line
  rows_per_line-unassigned exec output results (line, (before, after, s, e, b, a), r) =
      rw (s, line_rows-unread exec before after line e b (r none)) refl

  -- Rows behind those of readable runs.
  rows_per_line-append :
      (earlier rest : List (Text × Output)) (ts : List T) (last : Option T) (rows : List (Text × T))
      → Readable earlier ts
      → ((l : Option T) → rows_per_line mark read rest l ≡ ok rows)
      → rows_per_line mark read (earlier ++ rest) last ≡ ok (rows_of earlier ts ++ rows)
  unfolding rows_per_line
  rows_per_line-append [] rest [] last rows h f = f last
  rows_per_line-append [] rest (t ∷ ts) last rows h f = absurd h
  rows_per_line-append ((exec, raw b) ∷ earlier) rest ts last rows h f = absurd h
  rows_per_line-append ((exec, str o) ∷ earlier) rest [] last rows h f = absurd h
  rows_per_line-append ((exec, str o) ∷ earlier) rest (t ∷ ts) last rows
        ((line, (before, after, s, e, b, a), r), hs) f =
      rw
        (
          s,
          line_rows-read exec before after line last t e b a (r last),
          rows_per_line-append earlier rest ts (some t) rows hs f,
        )
        refl

  -- A run that keeps the time, behind one that is read.
  rows_per_line-pair :
      (exec₀ output₀ exec output : Text) (later : List (Text × Output)) (ts : List T) (t : T)
      (last : Option T)
      → Readable ((exec₀, str output₀) ∷ []) (t ∷ [])
      → Keeps output
      → Readable later ts
      → rows_per_line mark read ((exec₀, str output₀) ∷ (exec, str output) ∷ later) last
        ≡ ok ((exec₀, t) ∷ (exec, t) ∷ rows_of later ts)
  unfolding rows_per_line
  rows_per_line-pair exec₀ output₀ exec output later ts t last
        ((line₀, (before₀, after₀, s₀, e₀, b₀, a₀), r₀), n) (line, (before, after, s, e, b, a), r)
        h =
      rw
        (
          s₀,
          line_rows-read exec₀ before₀ after₀ line₀ last t e₀ b₀ a₀ (r₀ last),
          s,
          line_rows-read exec before after line (some t) t e b a (r (some t)),
          rows_per_line-Readable later ts (some t) h,
        )
        refl

  pub rows_per_line-Keeps :
      (earlier : List (Text × Output)) (es : List T) (exec₀ output₀ exec output : Text)
      (later : List (Text × Output)) (ts : List T) (t : T)
      → Readable earlier es
      → Readable ((exec₀, str output₀) ∷ []) (t ∷ [])
      → Keeps output
      → Readable later ts
      → rows_per_line mark read (earlier ++ (exec₀, str output₀) ∷ (exec, str output) ∷ later) none
        ≡ ok (rows_of earlier es ++ (exec₀, t) ∷ (exec, t) ∷ rows_of later ts)
  rows_per_line-Keeps earlier es exec₀ output₀ exec output later ts t g h k l =
      rows_per_line-append earlier ((exec₀, str output₀) ∷ (exec, str output) ∷ later) es none
        ((exec₀, t) ∷ (exec, t) ∷ rows_of later ts) g
        (λ last. rows_per_line-pair exec₀ output₀ exec output later ts t last h k l)
