-- ===== src/Merkle/Verify.antt =====
-- pkg/merklemulti/merkle_multi.go: VerifyComputeRoot, with its array and its three positions.
-- Lengths are small, so Go's int does not wrap.
use chainlink_common.Base.{
  ℕ, zero, suc, ◌+◌, ◌-◌, List, [], ◌∷◌, ◌++◌, Bool, false, not, ◌&&◌, ◌||◌, length, get_elem?, set,
  ltb, ◌==◌, if◌then◌else◌, Result, ok, ◌>>=◌, ◌>>◌, or_fail, refuse_if,
}
use chainlink_common.Merkle.Tree.{
  Hasher, Error, empty_input, beyond_limit, total_beyond_limit, flags_mismatch, hashes_mismatch,
  not_all_used, out_of_range, Proof,
}

abbrev pub max_number_tree_leaves : ℕ
max_number_tree_leaves = 256

-- countSourceFlags.
unfoldable pub count_source_flags : Bool → List Bool → ℕ
count_source_flags b [] = 0
count_source_flags b (flag ∷ flags) =
    let n = count_source_flags b flags in if (if b then flag else not flag) then suc n else n

unfoldable pub repeat {ℓ} : {A : Type ℓ} → ℕ → A → List A
repeat zero a = []
repeat (suc n) a = a ∷ repeat n a

-- The variables of the main loop.
pub record Cursor (H : Type 0) : Type 0 where
  pub hashes : List H
  pub leaf_pos : ℕ
  pub hash_pos : ℕ
  pub proof_pos : ℕ

module _ {H : Type 0} (hasher : Hasher H) (nil_hash : H) (leaf_hashes : List H)
    (proof : Proof H) where
  open hasher use {hash_internal}

  -- The next leaf, or the next computed hash behind the last leaf.
  unfoldable pub take_next : Cursor H → Result Error (H × Cursor H)
  take_next c =
      if ltb c.leaf_pos (length leaf_hashes)
      then (do
        h ← or_fail (get_elem? leaf_hashes c.leaf_pos) out_of_range
        ok (h, record c { leaf_pos = c.leaf_pos + 1 }))
      else (do
        h ← or_fail (get_elem? c.hashes c.hash_pos) out_of_range
        ok (h, record c { hash_pos = c.hash_pos + 1 }))

  unfoldable pub take_proof : Cursor H → Result Error (H × Cursor H)
  take_proof c = do
    h ← or_fail (get_elem? proof.hashes c.proof_pos) out_of_range
    ok (h, record c { proof_pos = c.proof_pos + 1 })

  -- One round: `hashes[i] = HashInternal(a, b)`.
  unfoldable pub round : ℕ → Bool → Cursor H → Result Error (Cursor H)
  round i flag c = do
    (a, c₁) ← (if flag then take_next c else take_proof c)
    (b, c₂) ← take_next c₁
    ok (record c₂ { hashes = set c₂.hashes i (hash_internal a b) })

  -- The rounds from `i` on; there are as many as flags, which the guards have checked.
  unfoldable pub rounds : ℕ → List Bool → Cursor H → Result Error (Cursor H)
  rounds i [] c = ok c
  rounds i (flag ∷ flags) c = do c' ← round i flag c; rounds (i + 1) flags c'

  -- The zero values that `make` gives, and the copies of the first leaf that are appended.
  unfoldable pub initial : ℕ → H → Cursor H
  initial total leaf = record {
    hashes = repeat total nil_hash ++ repeat total leaf;
    leaf_pos = 0;
    hash_pos = 0;
    proof_pos = 0;
  }

  -- The check behind the loop, and the result.
  unfoldable pub finish : ℕ → Cursor H → Result Error H
  finish total c = do
    refuse_if
        (not (c.hash_pos == total - 1)
          || not (c.leaf_pos == length leaf_hashes)
          || not (c.proof_pos == length proof.hashes))
        not_all_used
    or_fail (get_elem? c.hashes (total - 1)) out_of_range

  unfoldable pub total_hashes : ℕ
  total_hashes = length leaf_hashes + length proof.hashes - 1

  -- The part behind the guards on the lengths, if there is anything to hash.
  unfoldable pub compute_root : Result Error H
  compute_root = do
    refuse_if (not (count_source_flags false proof.source_flags == length proof.hashes))
        hashes_mismatch
    leaf ← or_fail (get_elem? leaf_hashes 0) out_of_range
    c ← rounds 0 proof.source_flags (initial total_hashes leaf)
    finish total_hashes c

  unfoldable pub verify_compute_root : Result Error H
  verify_compute_root = do
    refuse_if (length leaf_hashes == 0 && length proof.hashes == 0) empty_input
    refuse_if
        (ltb (max_number_tree_leaves + 1) (length leaf_hashes)
          || ltb (max_number_tree_leaves + 1) (length proof.hashes))
        beyond_limit
    refuse_if (ltb max_number_tree_leaves total_hashes) total_beyond_limit
    refuse_if (not (total_hashes == length proof.source_flags)) flags_mismatch
    if total_hashes == 0 then or_fail (get_elem? leaf_hashes 0) out_of_range else compute_root
