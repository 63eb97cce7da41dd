-- ===== src/Workflows/Refs.antt =====
-- pkg/workflows/dependency_graph.go: the interpolation token, and findRefs.
use chainlink_common.Base.{
  ℕ, Bool, true, ◌&&◌, ◌||◌, not, List, [], ◌∷◌, ◌++◌, Option, none, some, length, ◌==◌,
  if◌then◌else◌, Result, ok, err, ◌>>=◌,
}
use chainlink_common.Base.Bytes.{Bytes}
use chainlink_common.Workflows.Items.{
  Item, text, mapping, object, list, blob, text_map, nil, WorkflowError, invalid_ref, deep_map,
}

-- Whether a character is none of tab, line feed, form feed, carriage return and space.
abbrev is_visible : ℕ → Bool
is_visible c = not ((c == 9) || (c == 10) || (c == 12) || (c == 13) || (c == 32))

abbrev all_visible : Bytes → Bool
all_visible [] = true
all_visible (c ∷ cs) = is_visible c && all_visible cs

-- What stands before a closing parenthesis at the end.
unfoldable pub before_close : Bytes → Option Bytes
before_close [] = none
before_close (c ∷ []) = if c == 41 then some [] else none
before_close (c ∷ (d ∷ cs)) = elim (before_close (d ∷ cs)) [
  | none ↦ none
  | some inner ↦ some (c ∷ inner)
]

-- The group of InterpolationTokenRe, `^\$\((\S+)\)$`, if a text matches.
unfoldable pub token : Bytes → Option Bytes
unfolding before_close
token [] = none
token (c ∷ []) = none
token (c ∷ (d ∷ cs)) = elim (before_close cs) [
  | none ↦ none
  | some inner ↦
      if (c == 36) && (d == 40) && all_visible inner && not (length inner == 0)
      then some inner
      else none
]

unfoldable pub prepend : ℕ → List Bytes → List Bytes
prepend c [] = (c ∷ []) ∷ []
prepend c (part ∷ parts) = (c ∷ part) ∷ parts

-- `strings.Split(s, ".")`.
unfoldable pub split_dots : Bytes → List Bytes
unfolding prepend
split_dots [] = [] ∷ []
split_dots (c ∷ cs) = let rest = split_dots cs in if c == 46 then [] ∷ rest else prepend c rest

-- The reference that a text holds: the first part of its token.
unfoldable pub ref_of : Bytes → List Bytes → Result WorkflowError (List Bytes)
unfolding split_dots
ref_of inner refs = elim (split_dots inner) [
  | [] ↦ err invalid_ref
  | ref ∷ parts ↦ ok (refs ++ (ref ∷ []))
]

-- The closure of findRefs.
unfoldable pub find_ref : List Bytes → Item → Result WorkflowError (List Bytes × Item)
unfolding token ref_of
find_ref refs (text t) = elim (token t) [
  | none ↦ ok (refs, text t)
  | some inner ↦ ref_of inner refs >>= λ found. ok (found, text t)
]
find_ref refs (mapping fs) = ok (refs, mapping fs)
find_ref refs (object fs) = ok (refs, object fs)
find_ref refs (list is) = ok (refs, list is)
find_ref refs (blob b) = ok (refs, blob b)
find_ref refs (text_map m) = ok (refs, text_map m)
find_ref refs nil = ok (refs, nil)

unfoldable pub find_refs : Item → Result WorkflowError (List Bytes)
unfolding find_ref deep_map
find_refs inputs = do found ← deep_map find_ref [] inputs; ok found.0
