-- ===== src/DataFeeds/Signers.antt =====
-- The first phase of the aggregator: who signs, and how many signatures a report needs.
use chainlink_common.Base.{
  ℕ, suc, ◌+◌, Bool, true, false, List, [], ◌∷◌, ◌++◌, Option, none, some, length, leb, ◌==◌, ◌&&◌,
  if◌then◌else◌, Dict, Eq, lookup, insert,
}
use chainlink_common.Base.Int.{ℤ, pos, ltb_ℤ, int_eq}
use chainlink_common.DataFeeds.Feeds.{Environment}
use chainlink_common.Base.Bytes.{Bytes, same_bytes, bytes_eq}

abbrev pub addr_len : ℕ
addr_len = 20

unfoldable pub contains : Bytes → List Bytes → Bool
contains s [] = false
contains s (t ∷ ts) = let rest = contains s ts in if same_bytes t s then true else rest

-- A Go map used as a set, as the list of its keys.
unfoldable pub add_unique : Bytes → List Bytes → List Bytes
unfolding contains
add_unique s ss = if contains s ss then ss else s ∷ ss

-- The loop of extractUniqueSigners, from the set so far.
unfoldable pub unique_signers : List Bytes → List Bytes → Option (List Bytes)
unfolding add_unique
unique_signers unique [] = some unique
unique_signers unique (s ∷ ss) =
    let rest = unique_signers (add_unique s unique) ss in
    if length s == addr_len then rest else none

unfoldable pub extract_unique_signers : List Bytes → Option (List Bytes)
unfolding unique_signers
extract_unique_signers ss = unique_signers [] ss

module _ {K : Type 0} ⦃e : Eq K⦄ where
  -- `m[k]`, which is 0 for a missing key, and `m[k]++`.
  unfoldable pub count_of : K → Dict K ℕ → ℕ
  unfolding lookup
  count_of k m = elim (lookup k m) [ none ↦ 0 | some n ↦ n ]

  unfoldable pub increment : K → Dict K ℕ → Dict K ℕ
  unfolding count_of insert
  increment k m = insert k (suc (count_of k m)) m

-- The loop over the signers of a node.
unfoldable pub count_signers : List Bytes → Dict Bytes ℕ → Dict Bytes ℕ
unfolding increment
count_signers [] m = m
count_signers (s ∷ ss) m = count_signers ss (increment s m)

-- The maps of extractSignersAndPayloads.
pub record Extracted (V : Type 0) : Type 0 where
  pub events : Dict ℕ V
  pub signers : Dict Bytes ℕ
  pub mins : Dict ℤ ℕ

module _ {V : Type 0} (env : Environment V) where
  -- A node's contribution: its event, its signers and its minimum.
  unfoldable pub contribution : List (Option V) → Option (V × List Bytes × ℤ)
  unfolding extract_unique_signers
  contribution [] = none
  contribution (v ∷ (w ∷ ws)) = none
  contribution (none ∷ []) = none
  contribution (some v ∷ []) = elim (env.unwrap_metadata v) [
    | none ↦ none
    | some meta ↦ elim (extract_unique_signers meta.signers) [
      | none ↦ none
      | some ss ↦ some (v, ss, meta.min_required_signatures)
    ]
  ]

  unfoldable pub extract_node : ℕ → List (Option V) → Extracted V → Extracted V
  unfolding contribution count_signers increment
  extract_node id node_observations e = elim (contribution node_observations) [
    | none ↦ e
    | some (v, ss, min) ↦ record {
      events = e.events ++ ((id, v) ∷ []);
      signers = count_signers ss e.signers;
      mins = increment min e.mins;
    }
  ]

  unfoldable pub extract_nodes : Dict ℕ (List (Option V)) → Extracted V → Extracted V
  unfolding extract_node
  extract_nodes [] e = e
  extract_nodes ((id, node_observations) ∷ observations) e =
      extract_nodes observations (extract_node id node_observations e)

unfoldable pub allowed_signers : ℕ → Dict Bytes ℕ → List Bytes
allowed_signers f [] = []
allowed_signers f ((s, n) ∷ m) =
    let rest = allowed_signers f m in if leb (f + 1) n then s ∷ rest else rest

-- The loop for minRequired, from the minimum so far.
unfoldable pub min_required : ℕ → ℤ → Dict ℤ ℕ → ℤ
min_required f min [] = min
min_required f min ((k, n) ∷ m) = min_required f (if leb (f + 1) n && ltb_ℤ min k then k else min) m

unfoldable pub nothing_extracted : {V : Type 0} → Extracted V
nothing_extracted = record { events = []; signers = []; mins = [] }

-- What the first phase makes of the observations of a round.
module _ {V : Type 0} (env : Environment V) where
  unfoldable pub extract : Dict ℕ (List (Option V)) → Extracted V
  unfolding extract_nodes nothing_extracted
  extract observations = extract_nodes env observations nothing_extracted

  unfoldable pub signers_of : ℕ → Dict ℕ (List (Option V)) → List Bytes
  unfolding extract allowed_signers
  signers_of f observations = allowed_signers f (extract observations).signers

  unfoldable pub min_of : ℕ → Dict ℕ (List (Option V)) → ℤ
  unfolding extract min_required
  min_of f observations = min_required f (pos 0) (extract observations).mins
