-- ===== src/Aggregators/NodeCounts.antt =====
-- What the loop over the nodes has counted at each index.
use Prim.Native.String.{String}
use chainlink_common.Base.{
  ℕ, zero, suc, ◌+◌, ◌≡◌, inl, inr, refl, sym, ◌∙◌, List, [], ◌∷◌, Option, none, some, false,
  length, get_elem?, Dict, string_eq, Result, ok, err, arith, Option-cases, Bool-cases,
}
use chainlink_common.Aggregators.Identical.{
  Counter, AggregateError, is_ignored, bump, count_node, count_nodes,
}
use chainlink_common.Aggregators.Counters.{counted, bump-counted, agreeing, Tallied, bump-Tallied}

module _ {Val : Type 0} (hash : Option Val → Option String) where
  count_node-cons :
      (o : Option Val) (os : List (Option Val)) (m : Dict String (Counter Val))
      (ms ms' : List (Dict String (Counter Val)))
      → count_node hash (o ∷ os) (m ∷ ms) ≡ ok ms'
      → (sha : String) × (rest : List (Dict String (Counter Val))) × (hash o ≡ some sha)
        × (count_node hash os ms ≡ ok rest)
        × (ms' ≡ bump sha o m ∷ rest)
  unfolding count_node
  count_node-cons o os m ms ms' e = go (count_node hash os ms) refl
    where
      go :
          (x : Result AggregateError (List (Dict String (Counter Val))))
          → count_node hash os ms ≡ x
          → (sha : String) × (rest : List (Dict String (Counter Val))) × (hash o ≡ some sha)
            × (count_node hash os ms ≡ ok rest)
            × (ms' ≡ bump sha o m ∷ rest)
      go x f = elim (Option-cases (hash o)) [
        | inl n ↦ absurd (ground arith)
        | inr (sha, n) ↦
            elim x as (λ x. count_node hash os ms ≡ x → _) [
              | ok rest ↦ λ g. (sha, rest, n, g, ground arith)
              | err y ↦ λ g. absurd (ground arith)
            ]
              f
      ]

  -- What a node adds at an index.
  count_node-get :
      (i : ℕ) (os : List (Option Val)) (ms ms' : List (Dict String (Counter Val)))
      (m : Dict String (Counter Val))
      → count_node hash os ms ≡ ok ms'
      → length os ≡ length ms
      → get_elem? ms i ≡ some m
      → (o : Option Val) × (sha : String) × (get_elem? os i ≡ some o)
        × (hash o ≡ some sha)
        × (get_elem? ms' i ≡ some (bump sha o m))
  count_node-get i os [] ms' m e l g = cc
  count_node-get i [] (n ∷ ms) ms' m e l g = absurd (omega arith)
  count_node-get zero (o ∷ os) (n ∷ ms) ms' m e l g =
      let (sha, rest, a, b, c) = count_node-cons o os n ms ms' e in (o, sha, refl, a, ground arith)
  count_node-get (suc i) (o ∷ os) (n ∷ ms) ms' m e l g =
      let (sha, rest, a, b, c) = count_node-cons o os n ms ms' e in
      let (o', sha', d, h, k) = count_node-get i os ms rest m b (omega arith) g in
      (o', sha', d, h, ground arith)

  pub count_node-length :
      (os : List (Option Val)) (ms ms' : List (Dict String (Counter Val)))
      → count_node hash os ms ≡ ok ms'
      → length os ≡ length ms
      → length ms' ≡ length ms
  unfolding count_node
  count_node-length [] ms ms' e l = ground arith
  count_node-length (o ∷ os) [] ms' e l = absurd (omega arith)
  count_node-length (o ∷ os) (m ∷ ms) ms' e l =
      let (sha, rest, a, b, c) = count_node-cons o os m ms ms' e in
      ground (arith, count_node-length os ms rest b)

  pub not_ignored-length :
      (expected : ℕ) (os : List (Option Val))
      → is_ignored expected os ≡ false
      → length os ≡ expected
  unfolding is_ignored
  not_ignored-length expected [] e = cc
  not_ignored-length expected (none ∷ os) e = cc
  not_ignored-length expected (some o ∷ os) e = ground arith

  pub count_nodes-cons :
      (expected node : ℕ) (os : List (Option Val)) (obs : Dict ℕ (List (Option Val)))
      (ms ms' : List (Dict String (Counter Val)))
      → is_ignored expected os ≡ false
      → count_nodes hash expected ((node, os) ∷ obs) ms ≡ ok ms'
      → (mid : List (Dict String (Counter Val))) × (count_node hash os ms ≡ ok mid)
        × (count_nodes hash expected obs mid ≡ ok ms')
  unfolding count_nodes
  count_nodes-cons expected node os obs ms ms' n e = go (count_node hash os ms) refl
    where
      go :
          (x : Result AggregateError (List (Dict String (Counter Val))))
          → count_node hash os ms ≡ x
          → (mid : List (Dict String (Counter Val))) × (count_node hash os ms ≡ ok mid)
            × (count_nodes hash expected obs mid ≡ ok ms')
      go (ok mid) f = (mid, f, ground arith)
      go (err y) f = absurd (ground arith)

  -- The counts at an index are the nodes that agree, whatever the hash.
  pub count_nodes-get :
      (expected i : ℕ) (obs : Dict ℕ (List (Option Val)))
      (ms ms' : List (Dict String (Counter Val))) (m : Dict String (Counter Val))
      → count_nodes hash expected obs ms ≡ ok ms'
      → length ms ≡ expected
      → get_elem? ms i ≡ some m
      → Tallied hash m
      → (m' : Dict String (Counter Val)) × (get_elem? ms' i ≡ some m')
        × Tallied hash m'
        × ((sha : String) → counted sha m' ≡ counted sha m + agreeing hash expected i sha obs)
  unfolding count_nodes
  count_nodes-get expected i [] ms ms' m e l g v = (m, ground arith, v, λ sha. omega arith)
  count_nodes-get expected i ((node, os) ∷ obs) ms ms' m e l g v =
      elim (Bool-cases (is_ignored expected os)) [
        | inl n ↦
            let (m', a, b, c) = count_nodes-get expected i obs ms ms' m (ground arith) l g v in
            (m', a, b, λ sha. ground (arith, c sha))
        | inr n ↦
            let (mid, f, h) = count_nodes-cons expected node os obs ms ms' n e in
            let same = not_ignored-length expected os n ∙ sym l in
            let (o, sha, a, b, c) = count_node-get i os ms mid m f same g in
            let (m', a', b', c') =
              count_nodes-get expected i obs mid ms' (bump sha o m) h
                (count_node-length os ms mid f same ∙ l) c (bump-Tallied hash sha o m b v) in
            (m', a', b', λ s. ground (arith, c' s, bump-counted sha s o m))
      ]
