-- ===== src/Wasm/Wat/RoundTrip.antt =====
-- `wat_to_inst` on a structured module, and the parser on the file that it writes.
use mathlib.Core.Path.{subst}
use anonymous_repo.Prelude.{
  true, length, All, Bool-cases, inl, inr, arith, ℕ, ◌+◌, ◌≡◌, refl, sym, ap, ◌∙◌, List, [], ◌∷◌,
  ◌++◌, append_assoc, append-nil, map, pos, ok,
}
use anonymous_repo.Text.Str.{text_eq, readlines, Text, codes, starts_with}
use anonymous_repo.Text.Number.{show_int}
use anonymous_repo.Text.Decimal.{parse_int-show_int}
use anonymous_repo.Wasm.Token.{token_text, func_begin, func_end, block_begin, block_end}
use anonymous_repo.Wasm.Syntax.{Body, Op, fresh, plain}
use anonymous_repo.Wasm.Stream.{Line, load_insts, open_stream, stream_at}
use anonymous_repo.Wasm.Grammar.{IsBody, IsFunction, IsProgram}
use anonymous_repo.Wasm.Parser.{parse_program}
use anonymous_repo.Wasm.Complete.{parse_program_complete}
use anonymous_repo.Wasm.Wat.Defs.{
  Names, State, start, newline, begin_func, finish, translate_line, translate_lines, clean,
  relocate, wat_to_inst,
}
use anonymous_repo.Wasm.Wat.Shape.{
  WatFunc, header, func_lines, body_lines, next_body, body_of, program_of, AllCalls, AllCalls-map,
  program_of-same,
}
use anonymous_repo.Text.Words.{IsWord}
use anonymous_repo.Text.Split.{Lacks}
use anonymous_repo.Wasm.Sound.Reads.{text_eq→eq}
use anonymous_repo.Wasm.Wat.Module.{Import, IsModule, import_names, func_names, has, number}
use anonymous_repo.Wasm.Wat.Gathered.{gather-number}
use anonymous_repo.Wasm.Wat.Emits.{Loads, Loads-append, Emits, Emits-line, Emits-append, Emits-nil}
use anonymous_repo.Wasm.Wat.OpLines.{
  target, target_known, IsKnown, inside, Loads-token, Loads-number,
}
use anonymous_repo.Wasm.Wat.Written.{body-Writes}

abbrev close_lines : List Line
close_lines = (token_text block_end ∷ []) ∷ (token_text func_end ∷ []) ∷ []

abbrev open_lines : ℕ → List Line
open_lines i = (token_text func_begin ∷ show_int (pos i) ∷ []) ∷ (token_text block_begin ∷ []) ∷ []

Loads-close : Loads (codes "end_block" ++ newline ++ codes "end_func" ++ newline) close_lines
unfolding token_text
Loads-close =
    Loads-append (codes "end_block" ++ newline) (codes "end_func" ++ newline)
      ((token_text block_end ∷ []) ∷ []) ((token_text func_end ∷ []) ∷ []) (Loads-token block_end)
      (Loads-token func_end)

open_text : ℕ → Text
open_text i =
    (codes "begin_func " ++ (show_int (pos i) ++ newline)) ++ (codes "begin_block" ++ newline)

Loads-open : (i : ℕ) → Loads (open_text i) (open_lines i)
unfolding token_text open_text
Loads-open i =
    Loads-append (codes "begin_func " ++ (show_int (pos i) ++ newline))
      (codes "begin_block" ++ newline) ((token_text func_begin ∷ show_int (pos i) ∷ []) ∷ [])
      ((token_text block_begin ∷ []) ∷ []) (Loads-number func_begin (pos i))
      (Loads-token block_begin)

header-Emits :
    (m : Names) (i k : ℕ) (t : Text)
    → Emits m
        (inside i k)
        ((codes "(func" ++ t) ∷ [])
        (inside (i + 1) 0)
        (close_lines ++ open_lines i)
unfolding translate_line starts_with begin_func open_text
header-Emits m i k t =
    Emits-line m (inside i k) (inside (i + 1) 0) (codes "(func" ++ t)
      ((codes "end_block" ++ newline ++ codes "end_func" ++ newline) ++ open_text i)
      (close_lines ++ open_lines i) (simp append_assoc)
      (Loads-append (codes "end_block" ++ newline ++ codes "end_func" ++ newline) (open_text i)
        close_lines (open_lines i) Loads-close (Loads-open i))

first_header-Emits :
    (m : Names) (t : Text) → Emits m start ((codes "(func" ++ t) ∷ []) (inside 1 0) (open_lines 0)
unfolding translate_line starts_with begin_func open_text
first_header-Emits m t =
    Emits-line m start (inside 1 0) (codes "(func" ++ t) (open_text 0) (open_lines 0)
      (simp append_assoc) (Loads-open 0)

one-IsFunction :
    (i : ℕ) (bl : List Line) (b : Body)
    → IsBody bl b
    → IsFunction
        (open_lines i ++ (bl ++ close_lines))
        (record { info = fresh; func_idx = pos i; block = plain (Op.block b) })
one-IsFunction i bl b h =
    IsFunction.function (show_int (pos i)) [] [] [] [] (pos i) bl b (parse_int-show_int (pos i)) h
      refl

close-follows :
    (bl ls ps : List Line)
    → ls ++ close_lines ≡ close_lines ++ ps
    → (bl ++ ls) ++ close_lines ≡ (bl ++ close_lines) ++ ps
close-follows bl ls ps q =
    append_assoc bl ls close_lines ∙ ap (λ t. bl ++ t) q ∙ sym (append_assoc bl close_lines ps)

-- The functions that follow another: their lines, moved by the two that close a function.
abbrev FollowsWith : Names → ℕ → ℕ → List WatFunc → Type 0
FollowsWith m i k fs =
    (j : ℕ) × (k' : ℕ) × (ls : List Line) × (ps : List Line) × Emits m (inside i k) (func_lines fs)
      (inside j k') ls
    × (ls ++ close_lines ≡ close_lines ++ ps)
    × IsProgram ps (program_of (target m) i fs)

funcs-FollowsWith :
    (m : Names) (i k : ℕ) (fs : List WatFunc) → AllCalls (IsKnown m) fs → FollowsWith m i k fs
funcs-FollowsWith m i k [] h = (i, k, [], [], Emits-nil m (inside i k), refl, IsProgram.nil)
funcs-FollowsWith m i k (f ∷ fs) (h, h') =
    let (bl, e, b) = body-Writes m (i + 1) 0 f.body h in
    let k₁ = next_body 0 f.body in
    let (j, k', ls, ps, e', q, p) = funcs-FollowsWith m (i + 1) k₁ fs h' in
    (
      j,
      k',
      (close_lines ++ open_lines i) ++ (bl ++ ls),
      (open_lines i ++ (bl ++ close_lines)) ++ ps,
      Emits-append m (inside i k) (inside (i + 1) 0) (inside j k')
          ((codes "(func" ++ header f) ∷ []) (body_lines f.body ++ func_lines fs)
          (close_lines ++ open_lines i) (bl ++ ls) (header-Emits m i k (header f))
          (Emits-append m (inside (i + 1) 0) (inside (i + 1) k₁) (inside j k') (body_lines f.body)
            (func_lines fs) bl ls e e'),
      ap (λ t. close_lines ++ (open_lines i ++ t)) (close-follows bl ls ps q),
      IsProgram.cons (open_lines i ++ (bl ++ close_lines)) ps _ (program_of (target m) (i + 1) fs)
          (one-IsFunction i bl (body_of (target m) 0 f.body) b) p refl,
    )

load_insts-nil : load_insts [] ≡ []
unfolding load_insts readlines
load_insts-nil = refl

-- The critical lines of a module are translated, and the file that is written is read back as lines
-- of its program.
abbrev Written : Names → List WatFunc → Type 0
Written m fs =
    (s : State) × (w : Text) × (ls : List Line) × (translate_lines m start (func_lines fs)
      ≡ ok (s, w))
    × (load_insts (w ++ finish s) ≡ ls)
    × IsProgram ls (program_of (target m) 0 fs)

funcs-Written : (m : Names) (fs : List WatFunc) → AllCalls (IsKnown m) fs → Written m fs
unfolding translate_lines finish
funcs-Written m [] h = (start, [], [], refl, load_insts-nil, IsProgram.nil)
funcs-Written m (f ∷ fs) (h, h') =
    let (bl, e, b) = body-Writes m 1 0 f.body h in
    let k₁ = next_body 0 f.body in
    let (j, k', ls, ps, e', q, p) = funcs-FollowsWith m 1 k₁ fs h' in
    let (w, t, l) =
      Emits-append m start (inside 1 0) (inside j k') ((codes "(func" ++ header f) ∷ [])
        (body_lines f.body ++ func_lines fs) (open_lines 0) (bl ++ ls)
        (first_header-Emits m (header f))
        (Emits-append m (inside 1 0) (inside 1 k₁) (inside j k') (body_lines f.body) (func_lines fs)
          bl ls e e') in
    (
      inside j k',
      w,
      (open_lines 0 ++ (bl ++ close_lines)) ++ ps,
      ap (translate_lines m start) (sym (append-nil (func_lines (f ∷ fs))))
          ∙ t []
          ∙ ap (λ x. ok (inside j k', x)) (append-nil w),
      l (codes "end_block" ++ newline ++ codes "end_func" ++ newline)
          ∙ ap (λ x. (open_lines 0 ++ (bl ++ ls)) ++ x)
              (Loads-close [] ∙ ap (λ x. close_lines ++ x) load_insts-nil)
          ∙ ap (λ x. open_lines 0 ++ x) (close-follows bl ls ps q),
      IsProgram.cons (open_lines 0 ++ (bl ++ close_lines)) ps _ (program_of (target m) 1 fs)
          (one-IsFunction 0 bl (body_of (target m) 0 f.body) b) p refl,
    )

has-IsWord :
    (name : Text) (imports : List Import) (fs : List WatFunc)
    → All (λ (i : Import). Lacks b'(' i.quoted × IsWord i.name) imports
    → All (λ (f : WatFunc). IsWord f.name) fs
    → has name (import_names imports ++ func_names fs) ≡ true
    → IsWord name
has-IsWord name [] [] u v h = cc
has-IsWord name [] (f ∷ fs) u (v, vs) h = elim (Bool-cases (text_eq f.name name)) [
  | inl e ↦ subst IsWord (text_eq→eq f.name name e) v
  | inr e ↦ has-IsWord name [] fs u vs (ground (arith, h, e))
]
has-IsWord name (i ∷ imports) fs (u, us) v h = elim (Bool-cases (text_eq i.name name)) [
  | inl e ↦ subst IsWord (text_eq→eq i.name name e) u.1
  | inr e ↦ has-IsWord name imports fs us v (ground (arith, h, e))
]

-- Let the lines of the text form, after `clean`, be those of a module whose imports are all
-- functions, have no opening parenthesis in their quoted names and stand before its functions,
-- whose functions have structured bodies without `if`, and whose names are words and different,
-- every call naming one of them. Then `wat_to_inst` raises nothing, and the parser reads the whole
-- file that it writes as the program of the functions of the module: numbered from 0, with the
-- loops of each numbered from 0 in the order of their first lines, and with each call by the number
-- of the function that bears the name, which is negative for an import.
pub wat_to_inst-parse_program :
    (lines : List Text) (imports : List Import) (fs : List WatFunc)
    → IsModule (map clean lines) imports fs
    → (contents : Text) × (wat_to_inst lines ≡ ok contents)
      × (parse_program (open_stream contents)
          ≡ ok (program_of (number imports fs) 0 fs, stream_at (load_insts contents) []))
unfolding wat_to_inst open_stream stream_at
wat_to_inst-parse_program lines imports fs w =
    let (names, g, found) = gather-number (map clean lines) imports fs w in
    let m = relocate (length imports) names in
    let listed = import_names imports ++ func_names fs in
    let known =
      AllCalls-map (λ name. has name listed ≡ true) (IsKnown m)
        (λ name h. (
          has-IsWord name imports fs w.import_words w.func_words h,
          (number imports fs name, found name h),
        ))
        fs w.calls in
    let same = program_of-same (target m) (number imports fs) 0 fs (
      AllCalls-map (λ name. has name listed ≡ true) (λ name. target m name ≡ number imports fs name)
        (λ name h. target_known m name (number imports fs name) (found name h)) fs w.calls) in
    let (s, t, ls, e, l, p) = funcs-Written m fs known in
    let grammar =
      subst (IsProgram (load_insts (t ++ finish s))) same
        (subst (λ x. IsProgram x (program_of (target m) 0 fs)) (sym l) p) in
    (
      t ++ finish s,
      rw (g, w.critical, e),
      parse_program_complete (load_insts (t ++ finish s)) (program_of (number imports fs) 0 fs)
          grammar,
    )
