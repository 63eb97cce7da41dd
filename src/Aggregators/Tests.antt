-- ===== src/Aggregators/Tests.antt =====
-- The theorem on the identical aggregator at four nodes, one of which may be faulty.
use Prim.Native.String.{String}
use chainlink_common.Base.{
  ◌+◌, ◌≤◌, ℕ, ◌≡◌, ◌<◌, refl, List, [], ◌∷◌, Option, none, some, Dict, ok, lookup, insert,
}
use chainlink_common.Aggregators.Identical.{
  IdenticalAggConfig, aggregate, is_ignored, highest, winners, bump, count_node, count_nodes,
  no_counters, name_by_index, outcome_map, collect_highest_counts,
}
use chainlink_common.Aggregators.Mode.{
  mode, mode_has_quorum, count_items, max_count, modes, first_mode,
}
use chainlink_common.Aggregators.ReduceConfig.{quorum_ocr}
use chainlink_common.Aggregators.MostFrequent.{occurrences, mode-most}
use chainlink_common.Aggregators.Quorum.{Agreed, aggregate-Agreed}

abbrev hash_text : Option String → Option String
hash_text none = none
hash_text (some s) = some s

abbrev decimal : ℕ → String
decimal n = "index"

abbrev one_value : IdenticalAggConfig
one_value = record { expected_observations_len = 1; key_overrides = [] }

abbrev four_nodes : Dict ℕ (List (Option String))
four_nodes = (0, some "a" ∷ []) ∷ (1, some "b" ∷ []) ∷ (2, some "a" ∷ []) ∷ (3, some "a" ∷ []) ∷ []

aggregate-four :
    aggregate hash_text decimal some one_value four_nodes 1 ≡ ok (("index", some "a") ∷ [])
unfolding aggregate is_ignored highest winners bump count_node count_nodes no_counters name_by_index
    outcome_map collect_highest_counts lookup insert
aggregate-four = refl

aggregate-Agreed_example :
    (vs : List (Option String)) × (some (outcome_map decimal [] 1 vs)
      ≡ some (("index", some "a") ∷ []))
    × ((i : ℕ) → i < 1 → Agreed hash_text 1 1 i four_nodes vs)
aggregate-Agreed_example =
    aggregate-Agreed hash_text decimal some one_value four_nodes 1 (("index", some "a") ∷ [])
      aggregate-four

abbrev three_items : List (Option String)
three_items = some "a" ∷ some "b" ∷ some "a" ∷ []

mode-three : mode hash_text three_items ≡ ok (some "a", 2)
unfolding mode count_items bump max_count modes first_mode lookup insert
mode-three = refl

mode-most_example :
    (sha : String) × (hash_text (some "a") ≡ some sha)
    × (occurrences hash_text sha three_items ≡ 2)
    × ((other : String) → occurrences hash_text other three_items ≤ 2)
    × ((f : ℕ)
        → mode_has_quorum quorum_ocr 2 f ≡ ok tt
        → f + 1 ≤ occurrences hash_text sha three_items)
mode-most_example = mode-most hash_text three_items (some "a") 2 mode-three
