-- ===== src/Wasm/Stream.antt =====
-- `InstStream`: the lines of the instruction file, each split into words, and the next index.
-- `stream_at done rest` is the stream that has handed out `done`.
use anonymous_repo.Prelude.{
  ℕ, ◌+◌, ◌≡◌, Bool, true, false, List, [], ◌∷◌, ◌++◌, map, append_assoc, arith, leb, if◌then◌else◌,
  length, length-append, get_elem?, get_elem?-append_here, Result, ok, err, ◌>>=◌, or_raise,
  assertion_error, index_error,
}
use anonymous_repo.Text.Str.{Text, text_eq, strip, split_on, readlines}

abbrev pub Line : Type 0
Line = List Text

pub record InstStream : Type 0 where
  pub insts : List Line
  -- next instruction
  pub inst_idx : ℕ

-- What `load_insts` leaves in `insts`, from the contents of the file.
unfoldable pub load_insts : Text → List Line
load_insts contents = map (λ inst. split_on 32 (strip inst)) (readlines contents)

unfoldable pub open_stream : Text → InstStream
unfolding load_insts
open_stream contents = record { insts = load_insts contents; inst_idx = 0 }

-- `inst[0]` and `inst[1]`
unfoldable pub first : Line → Result Text
first [] = err index_error
first (w ∷ ws) = ok w

unfoldable pub second : Line → Result Text
second (v ∷ w ∷ ws) = ok w
second _ = err index_error

unfoldable pub end : InstStream → Bool
end s = leb (length s.insts) s.inst_idx

unfoldable pub peek : InstStream → Result Line
peek s = or_raise index_error (get_elem? s.insts s.inst_idx)

unfoldable pub expect : Text → InstStream → Result Bool
unfolding peek first
expect inst_type s =
    if leb (length s.insts) s.inst_idx
    then err assertion_error
    else (do inst ← peek s; w ← first inst; ok (text_eq w inst_type))

unfoldable pub next : InstStream → Result (Line × InstStream)
unfolding peek
next s = do inst ← peek s; ok (inst, record s { inst_idx = s.inst_idx + 1 })

unfoldable pub stream_at : List Line → List Line → InstStream
stream_at done rest = record { insts = done ++ rest; inst_idx = length done }

module _ (done : List Line) where
  pub end-stream_at_nil : end (stream_at done []) ≡ true
  unfolding end stream_at
  end-stream_at_nil = ground (arith, length-append done [])

  module _ (l : Line) (rest : List Line) where
    pub end-stream_at : end (stream_at done (l ∷ rest)) ≡ false
    unfolding end stream_at
    end-stream_at = ground (arith, length-append done (l ∷ rest))

    pub peek-stream_at : peek (stream_at done (l ∷ rest)) ≡ ok l
    unfolding peek stream_at
    peek-stream_at = rw (get_elem?-append_here done l rest)

    pub next-stream_at : next (stream_at done (l ∷ rest)) ≡ ok (l, stream_at (done ++ l ∷ []) rest)
    unfolding next stream_at
    next-stream_at =
        rw (get_elem?-append_here done l rest)
          (ground (arith, append_assoc done (l ∷ []) rest, length-append done (l ∷ [])))

  pub expect-stream_at_nil : (t : Text) → expect t (stream_at done []) ≡ err assertion_error
  unfolding expect stream_at
  expect-stream_at_nil t = ground (arith, length-append done [])

  pub expect-stream_at_empty :
      (t : Text) (rest : List Line) → expect t (stream_at done ([] ∷ rest)) ≡ err index_error
  unfolding expect stream_at
  expect-stream_at_empty t rest =
      rw (get_elem?-append_here done [] rest) (ground (arith, length-append done ([] ∷ rest)))

  pub expect-stream_at :
      (t w : Text) (ws : Line) (rest : List Line)
      → expect t (stream_at done ((w ∷ ws) ∷ rest)) ≡ ok (text_eq w t)
  unfolding expect stream_at
  expect-stream_at t w ws rest =
      rw (get_elem?-append_here done (w ∷ ws) rest)
        (ground (arith, length-append done ((w ∷ ws) ∷ rest)))
