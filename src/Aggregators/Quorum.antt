-- ===== src/Aggregators/Quorum.antt =====
-- The identical aggregator chooses what a quorum of nodes agree on, in any order of the maps.
use Prim.Native.String.{String}
use text.Mathlib.TextEquality.{eq_iff}
use chainlink_common.Base.{
  ℕ, ◌+◌, ◌*◌, ◌≡◌, ◌≢◌, ◌≤◌, ◌<◌, inl, inr, refl, sym, subst, ◌∙◌, List, [], ◌∷◌, Option, none,
  some, length, get_elem?, Dict, lookup, string_eq, Result-cases, ok, arith, Option-cases,
  Bool-cases,
}
use chainlink_common.Aggregators.Identical.{
  IdenticalAggConfig, Counter, is_ignored, winners, count_nodes, no_counters, outcome_map,
  collect_highest_counts, aggregate,
}
use chainlink_common.Aggregators.Counters.{
  get-no_counters, length-no_counters, counted, highest-entry, best_of, winners-get, agreeing,
  Tallied,
}
use chainlink_common.Aggregators.NodeCounts.{
  count_node-length, not_ignored-length, count_nodes-cons, count_nodes-get,
}

module _ {Val : Type 0} (hash : Option Val → Option String) where
  -- A node agrees with one hash only.
  agreeing-two :
      (expected i : ℕ) (a b : String) (obs : Dict ℕ (List (Option Val)))
      → a ≢ b
      → agreeing hash expected i a obs + agreeing hash expected i b obs ≤ length obs
  agreeing-two expected i a b [] n = omega arith
  agreeing-two expected i a b ((node, os) ∷ obs) n = elim (Option-cases (get_elem? os i)) [
    | inl e ↦ ground (arith, agreeing-two expected i a b obs n)
    | inr (o, e) ↦ elim (Option-cases (hash o)) [
      | inl f ↦ ground (arith, agreeing-two expected i a b obs n)
      | inr (h, f) ↦ ground (arith, eq_iff h a, eq_iff h b, agreeing-two expected i a b obs n)
    ]
  ]

  empty-Tallied : Tallied hash []
  unfolding lookup
  empty-Tallied = record { one_key = λ sha. omega arith; hashed = λ sha c e. cc }

  counted-nil : (sha : String) → counted {Val = Val} sha [] ≡ 0
  unfolding lookup
  counted-nil sha = refl

  -- What stands at an index of the outcome: a value that at least 2F+1 nodes gave there, and no
  -- other hash has as many nodes unless there are more than 4F+1.
  pub record Agreed (expected f i : ℕ) (obs : Dict ℕ (List (Option Val))) (vs : List (Option Val))
      : Type 0 where
    pub value : Option Val
    pub sha : String
    pub stands : get_elem? vs i ≡ some value
    pub hashes : hash value ≡ some sha
    pub quorum : 2 * f + 1 ≤ agreeing hash expected i sha obs
    pub only :
        (other : String)
        → length obs ≤ 4 * f + 1
        → 2 * f + 1 ≤ agreeing hash expected i other obs
        → other ≡ sha

  best-Agreed :
      (expected f i : ℕ) (obs : Dict ℕ (List (Option Val))) (vs : List (Option Val))
      (m : Dict String (Counter Val))
      → Tallied hash m
      → ((sha : String) → counted sha m ≡ agreeing hash expected i sha obs)
      → get_elem? vs i ≡ some (best_of m).full_observation
      → 2 * f + 1 ≤ (best_of m).count
      → Agreed expected f i obs vs
  best-Agreed expected f i obs vs m v c g h =
      elim (highest-entry (record { full_observation = none; count = 0 }) m v.one_key) [
        | inl e ↦ absurd (ground arith)
        | inr (sha, e) ↦ record {
          value = (best_of m).full_observation;
          sha = sha;
          stands = g;
          hashes = v.hashed sha (best_of m) e;
          quorum = ground (arith, c sha);
          only = λ other few q. elim (Bool-cases (string_eq.beq other sha)) [
            | inl same ↦ (eq_iff other sha).0 same
            | inr apart ↦
                let differ : other ≢ sha = ground (arith, eq_iff other sha) in
                absurd (ground (arith, c sha, agreeing-two expected i other sha obs differ))
          ];
        }
      ]

  count_nodes-length :
      (expected : ℕ) (obs : Dict ℕ (List (Option Val))) (ms ms' : List (Dict String (Counter Val)))
      → count_nodes hash expected obs ms ≡ ok ms'
      → length ms ≡ expected
      → length ms' ≡ expected
  unfolding count_nodes
  count_nodes-length expected [] ms ms' e l = ground arith
  count_nodes-length expected ((node, os) ∷ obs) ms ms' e l =
      elim (Bool-cases (is_ignored expected os)) [
        | inl n ↦ count_nodes-length expected obs ms ms' (ground arith) l
        | inr n ↦
            let (mid, f, h) = count_nodes-cons hash expected node os obs ms ms' n e in
            count_nodes-length expected obs mid ms' h (
              count_node-length hash os ms mid f (not_ignored-length hash expected os n ∙ sym l)
              ∙ l)
      ]

module _ {Val M : Type 0} (hash : Option Val → Option String) (decimal : ℕ → String)
    (new_map : Dict String (Option Val) → Option M) where
  winners-of :
      (config : IdenticalAggConfig) (obs : Dict ℕ (List (Option Val))) (f : ℕ) {result : M}
      → aggregate hash decimal new_map config obs f ≡ ok result
      → let expected = config.expected_observations_len in
        (ms : List (Dict String (Counter Val))) × (vs : List (Option Val)) × (count_nodes hash
            expected obs
            (no_counters expected)
          ≡ ok ms)
        × (winners f 0 ms ≡ ok vs)
        × (new_map (outcome_map decimal config.key_overrides (length ms) vs) ≡ some result)
  unfolding aggregate collect_highest_counts
  winners-of config obs f {result} e =
      let expected = config.expected_observations_len in
      elim (Result-cases (count_nodes hash expected obs (no_counters expected))) [
        | inr (x, n) ↦ absurd (ground arith)
        | inl (ms, a) ↦ elim (Result-cases (winners f 0 ms)) [
          | inr (x, n) ↦ absurd (ground arith)
          | inl (vs, b) ↦
              elim (Option-cases
                (new_map (outcome_map decimal config.key_overrides (length ms) vs))) [
                  | inl n ↦ absurd (ground arith)
                  | inr (r, c) ↦ (ms, vs, a, b, ground arith)
                ]
        ]
      ]

  -- Where Aggregate succeeds, every index of its outcome has a value that at least 2F+1 of the
  -- nodes gave there, and among at most 4F+1 nodes no other value, by its hash, has as many: what
  -- is chosen does not depend on the order in which the maps are ranged over.
  pub aggregate-Agreed :
      (config : IdenticalAggConfig) (obs : Dict ℕ (List (Option Val))) (f : ℕ) (result : M)
      → aggregate hash decimal new_map config obs f ≡ ok result
      → let expected = config.expected_observations_len in
        (vs : List (Option Val)) × (new_map (outcome_map decimal config.key_overrides expected vs)
          ≡ some result)
        × ((i : ℕ) → i < expected → Agreed hash expected f i obs vs)
  aggregate-Agreed config obs f result e =
      let expected = config.expected_observations_len in
      let (ms, vs, a, b, c) = winners-of config obs f e in
      let full =
        count_nodes-length hash expected obs (no_counters expected) ms a
          (length-no_counters Val expected) in
      (
        vs,
        subst (λ n. new_map (outcome_map decimal config.key_overrides n vs) ≡ some result) full c,
        λ i h.
            let (m, g, v, counts) =
              count_nodes-get hash expected i obs (no_counters expected) ms [] a
                (length-no_counters Val expected) (get-no_counters expected i h)
                (empty-Tallied hash) in
            let (stands, quorum) = winners-get f 0 i ms vs m b g in
            best-Agreed hash expected f i obs vs m v
              (λ sha. omega (arith, counts sha, counted-nil hash sha)) stands quorum,
      )
