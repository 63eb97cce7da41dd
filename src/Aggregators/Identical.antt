-- ===== src/Aggregators/Identical.antt =====
-- pkg/capabilities/consensus/ocr3/aggregators/identical.go: the aggregation by the most frequent
-- observation at each index. A value is an interface, so none is a nil observation.
use Prim.Native.String.{String}
use chainlink_common.Base.{
  ℕ, zero, suc, ◌+◌, ◌*◌, List, [], ◌∷◌, Option, none, some, Bool, true, false, not, length, ltb,
  ◌==◌, if◌then◌else◌, Dict, lookup, insert, string_eq, Result, ok, err,
}

pub record IdenticalAggConfig : Type 0 where
  pub expected_observations_len : ℕ
  pub key_overrides : List String

pub record Counter (Val : Type 0) : Type 0 where
  pub full_observation : Option Val
  pub count : ℕ

pub data AggregateError : Type 0 where
  cannot_marshal : AggregateError
  no_consensus : ℕ → AggregateError
  cannot_wrap : AggregateError

-- ParseConfigIdenticalAggregator, behind UnwrapTo.
unfoldable pub with_default : IdenticalAggConfig → IdenticalAggConfig
with_default c =
    if c.expected_observations_len == 0 then record c { expected_observations_len = 1 } else c

-- The guards of Aggregate on the observations of a node.
unfoldable pub is_ignored : {Val : Type 0} → ℕ → List (Option Val) → Bool
is_ignored expected [] = true
is_ignored expected (none ∷ os) = true
is_ignored expected (some o ∷ os) = not (length (some o ∷ os) == expected)

-- The loop of collectHighestCounts over one map of counters, from the best so far.
unfoldable pub highest : {Val : Type 0} → Counter Val → Dict String (Counter Val) → Counter Val
highest best [] = best
highest best ((sha, c) ∷ m) = highest (if ltb best.count c.count then c else best) m

unfoldable pub winners :
    {Val : Type 0}
    → ℕ
    → ℕ
    → List (Dict String (Counter Val))
    → Result AggregateError (List (Option Val))
winners f idx [] = ok []
winners f idx (m ∷ ms) =
    let best = highest (record { full_observation = none; count = 0 }) m in
    let rest = winners f (suc idx) ms in
    if ltb best.count (2 * f + 1)
    then err (no_consensus idx)
    else elim rest [ ok vs ↦ ok (best.full_observation ∷ vs) | err e ↦ err e ]

unfoldable pub bump :
    {Val : Type 0} → String → Option Val → Dict String (Counter Val) → Dict String (Counter Val)
bump sha o m = elim (lookup sha m) [
  | none ↦ insert sha (record { full_observation = o; count = 1 }) m
  | some c ↦ insert sha (record c { count = suc c.count }) m
]

unfoldable pub no_counters : {Val : Type 0} → ℕ → List (Dict String (Counter Val))
no_counters zero = []
no_counters (suc n) = [] ∷ no_counters n

unfoldable pub name_by_override :
    {Val : Type 0}
    → List String
    → List (Option Val)
    → Dict String (Option Val)
    → Dict String (Option Val)
name_by_override [] vs outcome = outcome
name_by_override (k ∷ ks) [] outcome = outcome
name_by_override (k ∷ ks) (v ∷ vs) outcome = name_by_override ks vs (insert k v outcome)

-- `hash` marshals a value and takes its SHA-256.
module _ {Val : Type 0} (hash : Option Val → Option String) where
  -- The loop over the observations of a node, as many as there are maps: the map of each index
  -- counts its observation.
  unfoldable pub count_node :
      List (Option Val)
      → List (Dict String (Counter Val))
      → Result AggregateError (List (Dict String (Counter Val)))
  count_node [] ms = ok ms
  count_node (o ∷ os) [] = ok []
  count_node (o ∷ os) (m ∷ ms) =
      let rest = count_node os ms in
      elim (hash o) [
        | none ↦ err cannot_marshal
        | some sha ↦ elim rest [ ok ms' ↦ ok (bump sha o m ∷ ms') | err e ↦ err e ]
      ]

  unfoldable pub count_nodes :
      ℕ
      → Dict ℕ (List (Option Val))
      → List (Dict String (Counter Val))
      → Result AggregateError (List (Dict String (Counter Val)))
  count_nodes expected [] ms = ok ms
  count_nodes expected ((node, os) ∷ rest) ms = elim (is_ignored expected os) [
    | true ↦ count_nodes expected rest ms
    | false ↦ elim (count_node os ms) [ ok ms' ↦ count_nodes expected rest ms' | err e ↦ err e ]
  ]

-- `decimal` prints an index.
module _ {Val : Type 0} (decimal : ℕ → String) where
  -- The keys of the outcome: the overrides if there are as many, or else the indices.
  unfoldable pub name_by_index :
      ℕ → List (Option Val) → Dict String (Option Val) → Dict String (Option Val)
  name_by_index idx [] outcome = outcome
  name_by_index idx (v ∷ vs) outcome = name_by_index (suc idx) vs (insert (decimal idx) v outcome)

  unfoldable pub outcome_map : List String → ℕ → List (Option Val) → Dict String (Option Val)
  outcome_map overrides n vs =
      if length overrides == n then name_by_override overrides vs [] else name_by_index 0 vs []

-- `new_map` is NewMap.
module _ {Val M : Type 0} (hash : Option Val → Option String) (decimal : ℕ → String)
    (new_map : Dict String (Option Val) → Option M) where
  unfoldable pub collect_highest_counts :
      List String → ℕ → List (Dict String (Counter Val)) → Result AggregateError M
  collect_highest_counts overrides f ms = elim (winners f 0 ms) [
    | err e ↦ err e
    | ok vs ↦ elim (new_map (outcome_map decimal overrides (length ms) vs)) [
      | none ↦ err cannot_wrap
      | some m ↦ ok m
    ]
  ]

  unfoldable pub aggregate :
      IdenticalAggConfig → Dict ℕ (List (Option Val)) → ℕ → Result AggregateError M
  aggregate config observations f =
      let expected = config.expected_observations_len in
      elim (count_nodes hash expected observations (no_counters expected)) [
        | err e ↦ err e
        | ok ms ↦ collect_highest_counts config.key_overrides f ms
      ]
