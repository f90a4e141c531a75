-- ===== src/Text/Edit.antt =====
-- More of Python's `str`: `join`, `replace`, the substring test and the newlines of text streams.
use anonymous_repo.Prelude.{
  reverse, ℕ, ◌-◌, zero, suc, Bool, true, false, ◌&&◌, List, [], ◌∷◌, ◌++◌, length, ◌==◌,
  if◌then◌else◌, none, some,
}
use anonymous_repo.Text.Str.{Text, starts_with, find_after}

-- `sep.join(parts)`
unfoldable pub join_rest : Text → List Text → Text
join_rest sep [] = []
join_rest sep (p ∷ ps) = sep ++ (p ++ join_rest sep ps)

unfoldable pub join : Text → List Text → Text
unfolding join_rest
join sep [] = []
join sep (p ∷ ps) = p ++ join_rest sep ps

-- `t.replace(old, new)` for an `old` that is not empty; the number counts the characters of an
-- occurrence of `old` that are still to be passed over.
unfoldable pub replace_from : Text → Text → ℕ → Text → Text
replace_from old new k [] = []
replace_from old new (suc k) (c ∷ t) = replace_from old new k t
replace_from old new zero (c ∷ t) =
    let here = starts_with old (c ∷ t) in
    (if here then new else c ∷ []) ++ replace_from old new (if here then length old - 1 else 0) t

unfoldable pub replace : Text → Text → Text → Text
unfolding replace_from starts_with
replace old new t = replace_from old new 0 t

-- `p in t`
unfoldable pub is_in : Text → Text → Bool
unfolding find_after
is_in p t = elim (find_after p t) [ none ↦ false | some rest ↦ true ]

-- What a text stream makes of "\r\n" and "\r"; the test says whether a "\r" went before.
unfoldable pub newlines_from : Bool → Text → Text
newlines_from cr [] = []
newlines_from cr (c ∷ t) =
    (if c == 13 then 10 ∷ [] else if c == 10 && cr then [] else c ∷ []) ++ newlines_from (c == 13) t

unfoldable pub universal_newlines : Text → Text
unfolding newlines_from
universal_newlines t = newlines_from false t

-- `t.endswith(p)`
unfoldable pub ends_with : Text → Text → Bool
unfolding starts_with
ends_with p t = starts_with (reverse p) (reverse t)
