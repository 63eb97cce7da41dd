-- ===== src/Aggregators/Mode.antt =====
-- pkg/capabilities/consensus/ocr3/aggregators/reduce_aggregator.go: the mode of the observations
-- and its quorum, with the counters of the identical aggregator.
use Prim.Native.String.{String}
use chainlink_common.Base.{
  ℕ, ◌+◌, List, [], ◌∷◌, Option, none, some, ltb, ◌==◌, if◌then◌else◌, Dict, string_eq, Result, ok,
  err,
}
use chainlink_common.Aggregators.Identical.{Counter, bump}
use chainlink_common.Aggregators.ReduceConfig.{quorum_any, quorum_ocr}

pub data ModeError : Type 0 where
  no_items : ModeError
  cannot_marshal_item : ModeError
  not_reached : ℕ → ModeError
  unsupported_quorum : String → ModeError
  no_mode : ModeError

-- The loop for maxCount, from the count so far.
unfoldable pub max_count : {Val : Type 0} → ℕ → Dict String (Counter Val) → ℕ
max_count n [] = n
max_count n ((sha, c) ∷ m) = max_count (if ltb n c.count then c.count else n) m

-- The loop for modes.
unfoldable pub modes : {Val : Type 0} → ℕ → Dict String (Counter Val) → List (Option Val)
modes n [] = []
modes n ((sha, c) ∷ m) =
    let rest = modes n m in if c.count == n then c.full_observation ∷ rest else rest

unfoldable pub mode_has_quorum : String → ℕ → ℕ → Result ModeError (Unit {0})
mode_has_quorum quorum_type count f =
    if string_eq.beq quorum_type quorum_any
    then ok tt
    else if string_eq.beq quorum_type quorum_ocr
    then (if ltb count (f + 1) then err (not_reached count) else ok tt)
    else err (unsupported_quorum quorum_type)

-- `modes[0]`.
unfoldable pub first_mode :
    {Val : Type 0} → ℕ → List (Option Val) → Result ModeError (Option Val × ℕ)
first_mode n [] = err no_mode
first_mode n (v ∷ vs) = ok (v, n)

module _ {Val : Type 0} (hash : Option Val → Option String) where
  unfoldable pub count_items :
      List (Option Val) → Dict String (Counter Val) → Result ModeError (Dict String (Counter Val))
  count_items [] m = ok m
  count_items (item ∷ items) m = elim (hash item) [
    | none ↦ err cannot_marshal_item
    | some sha ↦ count_items items (bump sha item m)
  ]

  unfoldable pub mode : List (Option Val) → Result ModeError (Option Val × ℕ)
  mode [] = err no_items
  mode (item ∷ items) = elim (count_items (item ∷ items) []) [
    | err e ↦ err e
    | ok counts ↦ first_mode (max_count 0 counts) (modes (max_count 0 counts) counts)
  ]
