-- ===== src/Merkle/Accepts.antt =====
-- Which inputs VerifyComputeRoot accepts, what it returns for them, and when it panics.
use native.Mathlib.Decide.{dec_lt, ℕ_discrete}
use chainlink_common.Base.{
  ◌+◌, ◌-◌, ◌≡◌, ◌≢◌, ◌≤◌, ◌<◌, ◌⊎◌, ◌↔◌, inl, inr, ap, refl, List, [], ◌∷◌, some, false, length,
  arith, ok, err,
}
use chainlink_common.Merkle.Tree.{Hasher, Proof, out_of_range}
use chainlink_common.Merkle.Verify.{
  count_source_flags, total_hashes, compute_root, verify_compute_root, max_number_tree_leaves,
}
use chainlink_common.Merkle.Queue.{process, process_total, count_source_flags-le}
use chainlink_common.Merkle.Refine.{rounds-Represents, initial-Represents, finish_represented}

-- The guards, as one condition.
pub record Accepts {H : Type 0} (leaf_hashes : List H) (proof : Proof H) : Type 0 where
  pub some_leaf : 0 < length leaf_hashes
  pub within : length leaf_hashes + length proof.hashes - 1 ≤ max_number_tree_leaves
  pub flags : length leaf_hashes + length proof.hashes - 1 ≡ length proof.source_flags
  pub counted : count_source_flags false proof.source_flags ≡ length proof.hashes

empty_of_length : {A : Type 0} (xs : List A) → length xs ≡ 0 → xs ≡ []
empty_of_length [] h = refl
empty_of_length (x ∷ xs) h = absurd (omega arith)

module _ {H : Type 0} (hasher : Hasher H) (nil_hash : H) where
  computes :
      (leaf : H) (leaves : List H) (proof : Proof H)
      → Accepts (leaf ∷ leaves) proof
      → 0 < length proof.source_flags
      → (r : H) × (process hasher proof.source_flags (leaf ∷ leaves) proof.hashes
          ≡ some (r ∷ [], []))
        × (compute_root hasher nil_hash (leaf ∷ leaves) proof ≡ ok r)
  unfolding compute_root total_hashes
  computes leaf leaves proof v pos =
      let fs = proof.source_flags in
      let n = length fs in
      let (r, e) =
        process_total hasher fs (leaf ∷ leaves) proof.hashes v.counted (omega (arith, v.flags)) in
      let start = initial-Represents hasher nil_hash (leaf ∷ leaves) proof n leaf in
      let (c, e', v') =
        rounds-Represents hasher nil_hash (leaf ∷ leaves) proof fs 0 n _ _ _ _ _ (omega arith) start
          e in
      let done = finish_represented hasher nil_hash (leaf ∷ leaves) proof n c r pos v' in
      (r, e, ground (arith, v.counted, v.flags, e', done))

  accepted :
      (leaf_hashes : List H) (proof : Proof H)
      → Accepts leaf_hashes proof
      → (r : H) × (process hasher proof.source_flags leaf_hashes proof.hashes ≡ some (r ∷ [], []))
        × (verify_compute_root hasher nil_hash leaf_hashes proof ≡ ok r)
  unfolding verify_compute_root total_hashes process
  accepted [] proof v = absurd (omega (arith, v.some_leaf))
  accepted (leaf ∷ leaves) proof v = elim (dec_lt 0 (length proof.source_flags)) [
    | yes pos ↦
        let (r, e, c) = computes leaf leaves proof v pos in
        (r, e, ground (arith, v.within, v.flags, c))
    | no stop ↦
        let none_left : proof.source_flags ≡ [] =
          empty_of_length proof.source_flags (omega arith) in
        let one_leaf : leaves ≡ [] = empty_of_length leaves (omega (arith, v.flags)) in
        let no_proof : proof.hashes ≡ [] = empty_of_length proof.hashes (omega (arith, v.flags)) in
        (leaf, rw (none_left, one_leaf, no_proof, process), ground (arith, v.within, v.flags))
  ]

  rejects_no_leaf :
      (proof : Proof H)
      → (verify_compute_root hasher nil_hash [] proof ≡ err out_of_range)
        ↔ ((length proof.hashes ≡ 1) × (length proof.source_flags ≡ 0))
  unfolding verify_compute_root compute_root total_hashes
  rejects_no_leaf proof =
      (λ e. ground (arith, count_source_flags-le false proof.source_flags), λ e. ground (arith))

  fails_no_leaf : (proof : Proof H) (r : H) → verify_compute_root hasher nil_hash [] proof ≢ ok r
  unfolding verify_compute_root compute_root total_hashes
  fails_no_leaf proof r e = ground (arith, count_source_flags-le false proof.source_flags)

  -- Behind a failed guard there is neither a result nor a panic.
  abbrev Refuses : List H → Proof H → Type 0
  Refuses leaf_hashes proof =
      (verify_compute_root hasher nil_hash leaf_hashes proof ≢ err out_of_range)
      × ((r : H) → verify_compute_root hasher nil_hash leaf_hashes proof ≢ ok r)

  module _ (leaf : H) (leaves : List H) (proof : Proof H) where
    Refuses-long :
        max_number_tree_leaves < length (leaf ∷ leaves) + length proof.hashes - 1
        → Refuses (leaf ∷ leaves) proof
    unfolding verify_compute_root total_hashes
    Refuses-long h = (λ e. ground arith, λ r e. ground arith)

    Refuses-flags :
        length (leaf ∷ leaves) + length proof.hashes - 1 ≢ length proof.source_flags
        → Refuses (leaf ∷ leaves) proof
    unfolding verify_compute_root total_hashes
    Refuses-flags h = (λ e. ground arith, λ r e. ground arith)

    Refuses-count :
        length (leaf ∷ leaves) + length proof.hashes - 1 ≡ length proof.source_flags
        → count_source_flags false proof.source_flags ≢ length proof.hashes
        → Refuses (leaf ∷ leaves) proof
    unfolding verify_compute_root total_hashes compute_root
    Refuses-count f h = (
      λ e. ground (arith, count_source_flags-le false proof.source_flags),
      λ r e. ground (arith, count_source_flags-le false proof.source_flags),
    )

    passed : Accepts (leaf ∷ leaves) proof ⊎ Refuses (leaf ∷ leaves) proof
    passed =
        elim (dec_lt max_number_tree_leaves (length (leaf ∷ leaves) + length proof.hashes - 1)) [
          | yes long ↦ inr (Refuses-long long)
          | no fits ↦
              elim (ℕ_discrete (length (leaf ∷ leaves) + length proof.hashes - 1)
                (length proof.source_flags)) [
                  | no differ ↦ inr (Refuses-flags differ)
                  | yes flags ↦
                      elim (ℕ_discrete (count_source_flags false proof.source_flags)
                        (length proof.hashes)) [
                          | no differ ↦ inr (Refuses-count flags differ)
                          | yes counted ↦ inl (record {
                            some_leaf = omega arith;
                            within = omega arith;
                            flags = flags;
                            counted = counted;
                          })
                        ]
                ]
        ]

  accepted_only :
      (leaf_hashes : List H) (proof : Proof H) (r : H)
      → verify_compute_root hasher nil_hash leaf_hashes proof ≡ ok r
      → Accepts leaf_hashes proof
  accepted_only [] proof r e = absurd (fails_no_leaf proof r e)
  accepted_only (leaf ∷ leaves) proof r e = elim (passed leaf leaves proof) [
    | inl v ↦ v
    | inr refused ↦ absurd (refused.1 r e)
  ]

  never_panics :
      (leaf : H) (leaves : List H) (proof : Proof H)
      → verify_compute_root hasher nil_hash (leaf ∷ leaves) proof ≢ err out_of_range
  never_panics leaf leaves proof e = elim (passed leaf leaves proof) [
    | inl v ↦ let (r, p, e') = accepted (leaf ∷ leaves) proof v in cc
    | inr refused ↦ refused.0 e
  ]

  -- VerifyComputeRoot returns a hash exactly when there is a leaf, the hashes to compute are at
  -- most 256 and as many as the flags, and the proof has as many hashes as flags that name it;
  -- the result is then the hash that the queue of known hashes ends with.
  pub verify_compute_root-eq_ok :
      (leaf_hashes : List H) (proof : Proof H) (r : H)
      → (verify_compute_root hasher nil_hash leaf_hashes proof ≡ ok r) ↔ (
          Accepts leaf_hashes proof
          × (process hasher proof.source_flags leaf_hashes proof.hashes ≡ some (r ∷ [], [])))
  verify_compute_root-eq_ok leaf_hashes proof r = (forward, backward)
    where
      forward :
          verify_compute_root hasher nil_hash leaf_hashes proof ≡ ok r
          → Accepts leaf_hashes proof
            × (process hasher proof.source_flags leaf_hashes proof.hashes ≡ some (r ∷ [], []))
      forward e =
          let v = accepted_only leaf_hashes proof r e in
          let (r', p, e') = accepted leaf_hashes proof v in
          let same : r' ≡ r = cc in (v, rw same at p)

      backward :
          Accepts leaf_hashes proof
            × (process hasher proof.source_flags leaf_hashes proof.hashes ≡ some (r ∷ [], []))
          → verify_compute_root hasher nil_hash leaf_hashes proof ≡ ok r
      backward (v, p) = let (r', p', e) = accepted leaf_hashes proof v in cc

  -- The call panics exactly when it is given no leaf, one hash of a proof and no flag.
  pub verify_compute_root-panics :
      (leaf_hashes : List H) (proof : Proof H)
      → (verify_compute_root hasher nil_hash leaf_hashes proof ≡ err out_of_range)
        ↔ ((leaf_hashes ≡ []) × (length proof.hashes ≡ 1) × (proof.source_flags ≡ []))
  verify_compute_root-panics [] proof = (
    λ e.
        let (h, f) = (rejects_no_leaf proof).0 e in (refl, h, empty_of_length proof.source_flags f),
    λ h. (rejects_no_leaf proof).1 (h.1, ap length h.2),
  )
  verify_compute_root-panics (leaf ∷ leaves) proof =
      (λ e. absurd (never_panics leaf leaves proof e), λ h. absurd (cc (h.0)))
