-- ===== src/Merkle/Tests.antt =====
-- The theorems on pkg/merklemulti and pkg/hashutil at trees of numbers.
use chainlink_common.Base.{
  ℕ, ◌+◌, ◌≤◌, ◌≡◌, ◌↔◌, refl, List, [], ◌∷◌, some, true, false, length, arith, ok, err,
}
use chainlink_common.Merkle.Tree.{
  Hasher, Proof, Tree, new_tree, build, compute_next_layer, pad, hash_pairs, prove, root,
  out_of_range,
}
use chainlink_common.Merkle.Verify.{verify_compute_root, max_number_tree_leaves}
use chainlink_common.Merkle.Queue.{process}
use chainlink_common.Merkle.Accepts.{Accepts, verify_compute_root-eq_ok, verify_compute_root-panics}
use chainlink_common.Merkle.Layer.{IsSymmetric}
use chainlink_common.Merkle.Roundtrip.{verify-prove}

abbrev adding : Hasher ℕ
adding = record { zero_hash = 100; hash_internal = λ a b. a + b }

adding-IsSymmetric : IsSymmetric adding
adding-IsSymmetric a b = omega arith

abbrev two_of_four : Proof ℕ
two_of_four = record { hashes = 2 ∷ 3 ∷ []; source_flags = false ∷ false ∷ true ∷ [] }

verify_compute_root-eq_ok_example :
    (verify_compute_root adding 0 (1 ∷ 4 ∷ []) two_of_four ≡ ok 10) ↔ (
      Accepts (1 ∷ 4 ∷ []) two_of_four
      × (process adding two_of_four.source_flags (1 ∷ 4 ∷ []) two_of_four.hashes
          ≡ some (10 ∷ [], [])))
verify_compute_root-eq_ok_example = verify_compute_root-eq_ok adding 0 (1 ∷ 4 ∷ []) two_of_four 10

abbrev one_hash : Proof ℕ
one_hash = record { hashes = 5 ∷ []; source_flags = [] }

abbrev no_leaves_given : List ℕ
no_leaves_given = []

verify_compute_root-panics_example :
    (verify_compute_root adding 0 no_leaves_given one_hash ≡ err out_of_range)
    ↔ ((no_leaves_given ≡ []) × (length one_hash.hashes ≡ 1) × (one_hash.source_flags ≡ []))
verify_compute_root-panics_example = verify_compute_root-panics adding 0 no_leaves_given one_hash

abbrev three_leaves : Tree ℕ
three_leaves = record { layers = (1 ∷ 2 ∷ 3 ∷ 100 ∷ []) ∷ (3 ∷ 103 ∷ []) ∷ (106 ∷ []) ∷ [] }

abbrev chosen : List ℕ
chosen = 1 ∷ 3 ∷ []

new_tree-three : new_tree adding (1 ∷ 2 ∷ 3 ∷ []) ≡ ok three_leaves
unfolding new_tree build compute_next_layer pad hash_pairs
new_tree-three = refl

verify-prove_example :
    (proof : Proof ℕ) × (r : ℕ) × (prove three_leaves (0 ∷ 2 ∷ []) ≡ ok proof)
    × (root three_leaves ≡ ok r)
    × (length chosen + length proof.hashes ≤ max_number_tree_leaves + 1
        → verify_compute_root adding 0 chosen proof ≡ ok r)
verify-prove_example =
    verify-prove adding 0 (1 ∷ 2 ∷ 3 ∷ []) (0 ∷ 2 ∷ []) chosen three_leaves adding-IsSymmetric
      new_tree-three (λ e. cc) (omega arith, (omega arith, tt)) (refl, (refl, tt))
