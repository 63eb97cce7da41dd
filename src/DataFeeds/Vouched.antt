-- ===== src/DataFeeds/Vouched.antt =====
-- The signers and the minimum that the aggregator goes by are those of at least f+1 nodes each.
use chainlink_common.Base.{
  ℕ, ◌+◌, ◌≡◌, ◌≤◌, refl, inl, inr, true, false, List, [], ◌∷◌, All, Option, Option-cases, none,
  some, leb, ◌||◌, subst, if◌then◌else◌, Dict, Bool-cases, arith,
}
use chainlink_common.Base.Int.{ℤ, int_eq}
use chainlink_common.Base.Bytes.{Bytes, same_bytes, bytes_eq, same_bytes_iff}
use chainlink_common.DataFeeds.Feeds.{Environment}
use chainlink_common.DataFeeds.Signers.{
  contains, add_unique, unique_signers, extract_unique_signers, count_signers, Extracted,
  contribution, extract_node, extract_nodes, allowed_signers, signers_of, extract,
  nothing_extracted,
}
use chainlink_common.DataFeeds.Counts.{
  Entries, Entries-map, AtMost, occurrences, count_signers-AtMost,
}

module _ (s : Bytes) where
  -- 1 if a signer is in a list.
  abbrev listed : List Bytes → ℕ
  listed ss = if contains s ss then 1 else 0

  abbrev Once : List Bytes → Type 0
  Once ss = occurrences s ss ≤ listed ss

  add_unique-Once : (t : Bytes) (ss : List Bytes) → Once ss → Once (add_unique t ss)
  unfolding add_unique
  add_unique-Once t ss h = elim (Bool-cases (contains t ss)) [
    | inl old ↦ rw old h
    | inr new ↦ rw new (elim (Bool-cases (same_bytes t s)) [
      | inl same ↦
          let at : t ≡ s = (same_bytes_iff t s).0 same in
          let absent : contains s ss ≡ false = cc in unfold contains in ground arith
      | inr apart ↦ unfold contains in ground arith
    ])
  ]

  contains-add_unique :
      (t : Bytes) (ss : List Bytes) → contains s (add_unique t ss) ≡ contains s ss || same_bytes t s
  unfolding add_unique
  contains-add_unique t ss = elim (Bool-cases (contains t ss)) [
    | inl old ↦ elim (Bool-cases (same_bytes t s)) [
      | inl same ↦
          let at : t ≡ s = (same_bytes_iff t s).0 same in
          let present : contains s ss ≡ true = cc in rw (old, same, present) refl
      | inr apart ↦
          rw (old, apart)
            (elim (Bool-cases (contains s ss)) [ inl x ↦ rw x refl | inr x ↦ rw x refl ])
    ]
    | inr new ↦ rw new (
        unfold contains in
        elim (Bool-cases (same_bytes t s)) [
          | inl same ↦
              rw same (elim (Bool-cases (contains s ss)) [ inl x ↦ rw x refl | inr x ↦ rw x refl ])
          | inr apart ↦
              rw apart (elim (Bool-cases (contains s ss)) [ inl x ↦ rw x refl | inr x ↦ rw x refl ])
        ])
  ]

  unique_signers-Once :
      (us ss : List Bytes) {r : List Bytes}
      → Once us
      → unique_signers us ss ≡ some r
      → occurrences s r ≤ (if contains s us || contains s ss then 1 else 0)
  unfolding unique_signers contains
  unique_signers-Once us [] {r = r} h e =
      let same : us ≡ r = ground arith in
      subst (λ r. occurrences s r ≤ (if contains s us || false then 1 else 0)) same (ground arith)
  unique_signers-Once us (t ∷ ts) {r = r} h e =
      let known : unique_signers (add_unique t us) ts ≡ some r = ground arith in
      let rest : occurrences s r
          ≤ (if contains s (add_unique t us) || contains s ts then 1 else 0) =
        unique_signers-Once (add_unique t us) ts (add_unique-Once t us h) known in
      let there : contains s (add_unique t us) ≡ contains s us || same_bytes t s =
        contains-add_unique t us in
      elim (Bool-cases (same_bytes t s)) [ inl x ↦ ground arith | inr x ↦ ground arith ]

module _ {V : Type 0} (env : Environment V) where
  -- 1 if a node's observations are one trigger event whose metadata lists a signer.
  abbrev pub vouches : Bytes → List (Option V) → ℕ
  vouches s [] = 0
  vouches s (v ∷ (w ∷ ws)) = 0
  vouches s (none ∷ []) = 0
  vouches s (some v ∷ []) = elim (env.unwrap_metadata v) [
    | none ↦ 0
    | some meta ↦ listed s meta.signers
  ]

  -- How many nodes do.
  abbrev pub vouchers : Bytes → Dict ℕ (List (Option V)) → ℕ
  vouchers s [] = 0
  vouchers s ((id, node_observations) ∷ observations) =
      vouches s node_observations + vouchers s observations

  contribution-vouches :
      (s : Bytes) (os : List (Option V)) {v : V} {ss : List Bytes} {min : ℤ}
      → contribution env os ≡ some (v, ss, min)
      → occurrences s ss ≤ vouches s os
  unfolding contribution extract_unique_signers contains
  contribution-vouches s [] h = cc
  contribution-vouches s (v ∷ (w ∷ ws)) h = cc
  contribution-vouches s (none ∷ []) h = cc
  contribution-vouches s (some v ∷ []) {ss = ss} h = elim (Option-cases (env.unwrap_metadata v)) [
    | inl missing ↦ ground (arith)
    | inr (meta, found) ↦ elim (Option-cases (unique_signers [] meta.signers)) [
      | inl bad ↦ ground (arith)
      | inr (r, good) ↦
          let is : r ≡ ss = ground arith in
          let once : occurrences s r ≤ listed s meta.signers =
            unique_signers-Once s [] meta.signers (omega arith) good in
          rw (found, vouches) (rw (← is) once)
    ]
  ]

  extract_nodes-AtMost :
      (w : Bytes → ℕ) (observations : Dict ℕ (List (Option V))) (e : Extracted V)
      → Entries (AtMost w) e.signers
      → Entries
          (AtMost (λ s. w s + vouchers s observations))
          (extract_nodes env observations e).signers
  unfolding extract_nodes extract_node
  extract_nodes-AtMost w [] e h =
      Entries-map (AtMost w) (AtMost (λ s. w s + 0)) e.signers (λ s n p. omega arith) h
  extract_nodes-AtMost w ((id, os) ∷ observations) e h =
      let next : Entries (AtMost (λ s. w s + vouches s os)) (extract_node env id os e).signers =
        elim (Option-cases (contribution env os)) [
          | inl nothing ↦
              rw (nothing, extract_node)
                (Entries-map (AtMost w) (AtMost (λ s. w s + vouches s os)) e.signers
                  (λ s n p. omega arith) h)
          | inr ((v, ss, min), given) ↦
              rw (given, extract_node)
                (Entries-map (AtMost (λ s. w s + occurrences s ss))
                  (AtMost (λ s. w s + vouches s os)) (count_signers ss e.signers)
                  (λ s n p. omega (arith, contribution-vouches s os given))
                  (count_signers-AtMost w ss e.signers h))
        ] in
      Entries-map (AtMost (λ s. w s + vouches s os + vouchers s observations))
        (AtMost (λ s. w s + vouchers s ((id, os) ∷ observations)))
        (extract_nodes env observations (extract_node env id os e)).signers (λ s n p. omega arith)
        (extract_nodes-AtMost (λ s. w s + vouches s os) observations (extract_node env id os e)
          next)

  allowed_signers-All :
      (f : ℕ) (w : Bytes → ℕ) (m : Dict Bytes ℕ)
      → Entries (AtMost w) m
      → All (λ s. f + 1 ≤ w s) (allowed_signers f m)
  unfolding allowed_signers
  allowed_signers-All f w [] h = tt
  allowed_signers-All f w ((s, n) ∷ m) h = elim (Bool-cases (leb (f + 1) n)) [
    | inl enough ↦ rw enough (ground arith, allowed_signers-All f w m h.1)
    | inr few ↦ rw few (allowed_signers-All f w m h.1)
  ]

  -- The allowed signers are vouched for by more than f nodes.
  pub allowed_signers-vouchers :
      (f : ℕ) (observations : Dict ℕ (List (Option V)))
      → All (λ s. f + 1 ≤ vouchers s observations) (signers_of env f observations)
  unfolding signers_of extract nothing_extracted
  allowed_signers-vouchers f observations =
      let m = (extract_nodes env observations nothing_extracted).signers in
      allowed_signers-All f (λ s. vouchers s observations) m
        (Entries-map (AtMost (λ s. 0 + vouchers s observations))
          (AtMost (λ s. vouchers s observations)) m (λ s n p. omega arith)
          (extract_nodes-AtMost (λ s. 0) observations nothing_extracted tt))
