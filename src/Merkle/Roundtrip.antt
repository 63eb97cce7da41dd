-- ===== src/Merkle/Roundtrip.antt =====
-- A proof of a tree, checked against the chosen leaves, gives the tree's root.
use mathlib.Core.List.{append-nil}
use chainlink_common.Base.{
  ℕ, zero, suc, ◌+◌, ◌*◌, ◌%◌, ◌≡◌, ◌≢◌, ◌≤◌, ◌<◌, inl, inr, ◌∙◌, ap, sym, refl, List, [], ◌∷◌,
  ◌++◌, some, Bool, true, false, length, arith, length-append, lt-length, ok, ◌==◌, Bool-cases, ltb,
}
use chainlink_common.Merkle.Tree.{
  Hasher, Proof, Tree, scan, hash_pairs, pad, compute_next_layer, build, new_tree,
  prove_single_layer, prove_layers, prove, last_head, root,
}
use chainlink_common.Merkle.Verify.{count_source_flags, verify_compute_root, max_number_tree_leaves}
use chainlink_common.Merkle.Queue.{process, count_source_flags-le}
use chainlink_common.Merkle.Arrays.{get_elem?-append}
use chainlink_common.Merkle.Accepts.{verify_compute_root-eq_ok}
use chainlink_common.Merkle.Layer.{Rises, Picks, scan-Rises, IsSymmetric, Climbs, layer-Climbs}

module _ {H : Type 0} (hasher : Hasher H) where
  open hasher use {hash_internal, zero_hash}

  length-hash_pairs :
      (layer : List H) → length layer % 2 ≡ 0 → 2 * length (hash_pairs hasher layer) ≡ length layer
  unfolding hash_pairs
  length-hash_pairs [] h = refl
  length-hash_pairs (x ∷ []) h = absurd (omega arith)
  length-hash_pairs (x ∷ y ∷ layer) h = omega (arith, length-hash_pairs layer (omega arith))

  pad_even : (layer : List H) → length (pad hasher layer) % 2 ≡ 0
  unfolding pad
  pad_even layer = ground (arith, length-append layer (zero_hash ∷ []))

  length-pad : (layer : List H) → length (pad hasher layer) ≤ length layer + 1
  unfolding pad
  length-pad layer = ground (arith, length-append layer (zero_hash ∷ []))

  Picks-append :
      (layer more : List H) (is : List ℕ) (vs : List H)
      → Picks layer is vs
      → Picks (layer ++ more) is vs
  Picks-append layer more [] [] p = tt
  Picks-append layer more [] (v ∷ vs) p = absurd p
  Picks-append layer more (i ∷ is) [] p = absurd p
  Picks-append layer more (i ∷ is) (v ∷ vs) p =
      (get_elem?-append layer more i p.0, Picks-append layer more is vs p.1)

  Picks-pad :
      (layer : List H) (is : List ℕ) (vs : List H)
      → Picks layer is vs
      → Picks (pad hasher layer) is vs
  unfolding pad
  Picks-pad layer is vs p = elim (Bool-cases (length layer % 2 == 0)) [
    | inl e ↦ rw e p
    | inr e ↦ rw e (Picks-append layer (zero_hash ∷ []) is vs p)
  ]

  -- The chosen elements of a layer, and the proof and the root that the layers above it give.
  record Proves (layers : List (List H)) (is : List ℕ) (vs : List H) : Type 0 where
    proof : Proof H
    top : H
    proved : prove_layers layers is ≡ ok proof
    topped : last_head layers ≡ some top
    processed : process hasher proof.source_flags vs proof.hashes ≡ some (top ∷ [], [])

  top-Proves :
      (r : H) (i : ℕ) (is : List ℕ) (vs : List H)
      → Rises 0 (i ∷ is)
      → Picks (r ∷ []) (i ∷ is) vs
      → Proves ((r ∷ []) ∷ []) (i ∷ is) vs
  unfolding prove_layers last_head process
  top-Proves r zero [] [] h p = absurd p
  top-Proves r zero [] (v ∷ []) h p = record {
    proof = record { hashes = []; source_flags = [] };
    top = r;
    proved = refl;
    topped = refl;
    processed = ground (arith, p.0);
  }
  top-Proves r zero [] (v ∷ w ∷ vs) h p = absurd p.1
  top-Proves r zero (j ∷ is) [] h p = absurd p
  top-Proves r zero (j ∷ is) (v ∷ []) h p = absurd p.1
  top-Proves r zero (j ∷ is) (v ∷ w ∷ vs) h p =
      absurd (omega (arith, lt-length (r ∷ []) j p.1.0, h.1.0))
  top-Proves r (suc i) is [] h p = absurd p
  top-Proves r (suc i) is (v ∷ vs) h p = absurd (omega (arith, lt-length (r ∷ []) (suc i) p.0))

  climb-Proves :
      (layer next : List H) (layers : List (List H)) (is : List ℕ) (vs : List H)
      (c : Climbs hasher layer is vs)
      → Proves (next ∷ layers) (scan is).next_indices c.above
      → Proves (layer ∷ next ∷ layers) is vs
  unfolding prove_layers last_head prove_single_layer
  climb-Proves layer next layers is vs c v = record {
    proof = record {
      hashes = c.sub_proof ++ v.proof.hashes;
      source_flags = (scan is).source_flags ++ v.proof.source_flags;
    };
    top = v.top;
    proved = ground (arith, c.collected, v.proved);
    topped = v.topped;
    processed =
        ap
          (λ q.
            process hasher ((scan is).source_flags ++ v.proof.source_flags) q
              (c.sub_proof ++ v.proof.hashes))
          (sym (append-nil vs))
        ∙ c.climbed [] v.proof.hashes v.proof.source_flags
        ∙ v.processed;
  }

  grown :
      (layer : List H) (layers : List (List H)) (is : List ℕ) (vs : List H)
      → ((next : List H) × (t : List (List H)) × (layers ≡ next ∷ t))
      → (c : Climbs hasher layer is vs) → Proves layers (scan is).next_indices c.above
      → Proves (layer ∷ layers) is vs
  grown layer layers is vs (next, t, e) c v = rw e (climb-Proves layer next t is vs c (rw e at v))

  build-cons :
      (fuel : ℕ) (layer : List H)
      → (h : List H) × (t : List (List H)) × (build hasher fuel layer ≡ h ∷ t)
  unfolding build
  build-cons zero layer = (layer, [], refl)
  build-cons (suc fuel) layer = elim (Bool-cases (ltb 1 (length layer))) [
    | inl e ↦ (
      (compute_next_layer hasher layer).0,
      build hasher fuel (compute_next_layer hasher layer).1,
      rw e,
    )
    | inr e ↦ (layer, [], rw e)
  ]

  build_step :
      (fuel : ℕ) (layer : List H)
      → 1 < length layer
      → build hasher (suc fuel) layer
        ≡ pad hasher layer ∷ build hasher fuel (hash_pairs hasher (pad hasher layer))
  unfolding build compute_next_layer
  build_step fuel layer h = ground arith

  scan_nonempty : (is : List ℕ) → is ≢ [] → (scan is).next_indices ≢ []
  unfolding scan
  scan_nonempty [] h = absurd (h refl)
  scan_nonempty (i ∷ []) h = λ e. cc
  scan_nonempty (i ∷ j ∷ is) h = ground arith

  build-Proves :
      (fuel : ℕ) (layer : List H) (is : List ℕ) (vs : List H)
      → IsSymmetric hasher
      → length layer ≤ fuel
      → is ≢ []
      → Rises 0 is
      → Picks layer is vs
      → Proves (build hasher fuel layer) is vs
  build-Proves fuel layer [] vs sym_h l n h p = absurd (n refl)
  build-Proves fuel layer (i ∷ is) [] sym_h l n h p = absurd p
  build-Proves zero layer (i ∷ is) (v ∷ vs) sym_h l n h p =
      absurd (omega (arith, lt-length layer i p.0))
  build-Proves (suc fuel) [] (i ∷ is) (v ∷ vs) sym_h l n h p =
      absurd (omega (arith, lt-length [] i p.0))
  build-Proves (suc fuel) (r ∷ []) (i ∷ is) (v ∷ vs) sym_h l n h p =
      unfold build in top-Proves r i is (v ∷ vs) h p
  build-Proves (suc fuel) (a ∷ b ∷ layer) (i ∷ is) (v ∷ vs) sym_h l n h p =
      let low : List H = a ∷ b ∷ layer in
      let padded : List H = pad hasher low in
      let even : length padded % 2 ≡ 0 = pad_even low in
      let c : Climbs hasher padded (i ∷ is) (v ∷ vs) =
        layer-Climbs hasher sym_h padded even (i ∷ is) (v ∷ vs)
          (Picks-pad low (i ∷ is) (v ∷ vs) p) in
      rw (build_step fuel low (omega arith)) (
        grown padded (build hasher fuel (hash_pairs hasher padded)) (i ∷ is) (v ∷ vs)
          (build-cons fuel (hash_pairs hasher padded)) c
          (build-Proves fuel (hash_pairs hasher padded) (scan (i ∷ is)).next_indices c.above sym_h
            (omega (arith, length-hash_pairs padded even, length-pad low))
            (scan_nonempty (i ∷ is) n) (scan-Rises 0 (i ∷ is) h) c.picked))

  new_tree_layers :
      (leaf_hashes : List H) (t : Tree H)
      → new_tree hasher leaf_hashes ≡ ok t
      → t.layers ≡ build hasher (length leaf_hashes) leaf_hashes
  unfolding new_tree
  new_tree_layers [] t e = cc
  new_tree_layers (h ∷ hs) t e = ground arith

  process-counts :
      (fs : List Bool) (q ps q' ps' : List H)
      → process hasher fs q ps ≡ some (q', ps')
      → (count_source_flags false fs + length ps' ≡ length ps)
        × (length q + count_source_flags false fs ≡ length q' + length fs)
  unfolding process count_source_flags
  process-counts [] q ps q' ps' e = ground arith
  process-counts (true ∷ fs) [] ps q' ps' e = cc
  process-counts (true ∷ fs) (a ∷ []) ps q' ps' e = cc
  process-counts (true ∷ fs) (a ∷ b ∷ q) ps q' ps' e = omega (
    arith,
    process-counts fs (q ++ hash_internal a b ∷ []) ps q' ps' e,
    length-append q (hash_internal a b ∷ []),
  )
  process-counts (false ∷ fs) [] ps q' ps' e = cc
  process-counts (false ∷ fs) (b ∷ q) [] q' ps' e = cc
  process-counts (false ∷ fs) (b ∷ q) (p ∷ ps) q' ps' e = omega (
    arith,
    process-counts fs (q ++ hash_internal p b ∷ []) ps q' ps' e,
    length-append q (hash_internal p b ∷ []),
  )

Picks-length :
    {H : Type 0} (layer : List H) (is : List ℕ) (vs : List H)
    → Picks layer is vs
    → length vs ≡ length is
Picks-length layer [] [] p = refl
Picks-length layer [] (v ∷ vs) p = absurd p
Picks-length layer (i ∷ is) [] p = absurd p
Picks-length layer (i ∷ is) (v ∷ vs) p = ap suc (Picks-length layer is vs p.1)

-- For a tree of any leaves, under a hasher that ignores the order of its two arguments, Prove
-- succeeds for every non-empty, strictly rising list of leaf indices, Root is defined, and
-- VerifyComputeRoot on the leaves at those indices and that proof returns the root, if leaves
-- and proof together do not exceed the limit of 256 hashes to compute.
pub verify-prove :
    {H : Type 0} (hasher : Hasher H) (nil_hash : H) (leaf_hashes : List H) (indices : List ℕ)
    (chosen : List H) (t : Tree H)
    → IsSymmetric hasher
    → new_tree hasher leaf_hashes ≡ ok t
    → indices ≢ []
    → Rises 0 indices
    → Picks leaf_hashes indices chosen
    → (proof : Proof H) × (r : H) × (prove t indices ≡ ok proof)
      × (root t ≡ ok r)
      × (length chosen + length proof.hashes ≤ max_number_tree_leaves + 1
          → verify_compute_root hasher nil_hash chosen proof ≡ ok r)
unfolding prove root
verify-prove hasher nil_hash leaf_hashes indices chosen t symmetric e n h p =
    let b =
      build-Proves hasher (length leaf_hashes) leaf_hashes indices chosen symmetric (omega arith) n
        h p in
    let shape = new_tree_layers hasher leaf_hashes t e in
    (
      b.proof,
      b.top,
      rw shape b.proved,
      rw (shape, b.topped),
      λ fits.
          let counts =
            process-counts hasher b.proof.source_flags chosen b.proof.hashes (b.top ∷ []) []
              b.processed in
          (verify_compute_root-eq_ok hasher nil_hash chosen b.proof b.top).1 (
            record {
              some_leaf = omega (arith, counts, count_source_flags-le false b.proof.source_flags);
              within = omega arith;
              flags = omega (arith, counts);
              counted = omega (arith, counts);
            },
            b.processed,
          ),
    )
