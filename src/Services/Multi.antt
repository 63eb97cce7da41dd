-- ===== src/Services/Multi.antt =====
-- pkg/services/multi.go: MultiStart. A service is a name; what its methods return is given.
use chainlink_common.Base.{ℕ, zero, suc, List, [], ◌∷◌, ◌++◌, Option, none, some, length, get_elem?}

pub data Call (S : Type 0) : Type 0 where
  start_of : S → Call S
  close_of : S → Call S

-- MultiStart, with the calls made so far.
pub record MultiStart (S : Type 0) : Type 0 where
  pub started : List S
  pub calls : List (Call S)

module _ {S E : Type 0} (starts closes : S → Option E) where
  -- `errors.Join(err, s.Close())`; an error is the list of those that it joins.
  unfoldable pub join_error : List E → Option E → List E
  join_error errs none = errs
  join_error errs (some e) = errs ++ (e ∷ [])

  -- The loop of Close, from the index after the next one; an index out of range would panic.
  unfoldable pub close_down : ℕ → List E → MultiStart S → Option (List E × MultiStart S)
  unfolding join_error
  close_down zero errs m = some (errs, m)
  close_down (suc i) errs m = elim (get_elem? m.started i) [
    | none ↦ none
    | some s ↦
        close_down i (join_error errs (closes s))
          (record m { calls = m.calls ++ (close_of s ∷ []) })
  ]

  unfoldable pub close_multi : MultiStart S → Option (List E × MultiStart S)
  unfolding close_down
  close_multi m = close_down (length m.started) [] m

  -- `start`.
  unfoldable pub start_one : S → MultiStart S → Option (List E × MultiStart S)
  unfolding close_multi
  start_one s m =
      let called : MultiStart S = record m { calls = m.calls ++ (start_of s ∷ []) } in
      elim (starts s) [
        | none ↦ some ([], record called { started = m.started ++ (s ∷ []) })
        | some e ↦ elim (close_multi called) [
          | none ↦ none
          | some closed ↦ some (e ∷ closed.0, closed.1)
        ]
      ]

  -- Start.
  unfoldable pub start_all : List S → MultiStart S → Option (List E × MultiStart S)
  unfolding start_one
  start_all [] m = some ([], m)
  start_all (s ∷ ss) m = elim (start_one s m) [
    | none ↦ none
    | some r ↦ elim r.0 [ [] ↦ start_all ss r.1 | e ∷ es ↦ some r ]
  ]

  -- CloseBecause.
  unfoldable pub close_because : List E → MultiStart S → Option (List E × MultiStart S)
  unfolding close_multi
  close_because reason m = elim (close_multi m) [
    | none ↦ none
    | some closed ↦ some (reason ++ closed.0, closed.1)
  ]
