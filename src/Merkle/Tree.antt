-- ===== src/Merkle/Tree.antt =====
-- pkg/merklemulti/merkle_multi.go: NewTree, Root and Prove. Indices are ℕ, so the test that an
-- index is negative is dropped, and `idx ^ 1` is written out by the parity of `idx`.
use chainlink_common.Base.{
  ℕ, zero, suc, ◌+◌, ◌-◌, ◌/◌, ◌%◌, List, [], ◌∷◌, ◌++◌, Option, none, Bool, true, false, length,
  get_elem?, ltb, ◌==◌, if◌then◌else◌, Result, ok, err, ◌>>=◌, or_fail,
}

-- hashutil.Hasher: what the tree uses of it.
pub record Hasher (H : Type 0) : Type 0 where
  pub zero_hash : H
  pub hash_internal : H → H → H

-- The errors of the package, and the panic of an index out of range.
pub data Error : Type 0 where
  no_leaves empty_input beyond_limit total_beyond_limit flags_mismatch hashes_mismatch
        not_all_used :
      Error
  auth_out_of_bounds : ℕ → Error
  out_of_range : Error

pub record Proof (H : Type 0) : Type 0 where
  pub hashes : List H
  pub source_flags : List Bool

abbrev pub source_from_hashes : Bool
source_from_hashes = true

abbrev pub source_from_proof : Bool
source_from_proof = false

unfoldable pub parent_index : ℕ → ℕ
parent_index idx = idx / 2

unfoldable pub sibling_index : ℕ → ℕ
sibling_index idx = if idx % 2 == 0 then idx + 1 else idx - 1

-- The three slices that the loop of proveSingleLayer appends to.
pub record Scan : Type 0 where
  pub auth_indices : List ℕ
  pub next_indices : List ℕ
  pub source_flags : List Bool

unfoldable pub paired : ℕ → Scan → Scan
paired x s = record {
  auth_indices = s.auth_indices;
  next_indices = parent_index x ∷ s.next_indices;
  source_flags = source_from_hashes ∷ s.source_flags;
}

unfoldable pub single : ℕ → Scan → Scan
single x s = record {
  auth_indices = sibling_index x ∷ s.auth_indices;
  next_indices = parent_index x ∷ s.next_indices;
  source_flags = source_from_proof ∷ s.source_flags;
}

-- The loop of proveSingleLayer over `indices`.
unfoldable pub scan : List ℕ → Scan
unfolding paired single
scan [] = record { auth_indices = []; next_indices = []; source_flags = [] }
scan (x ∷ []) = single x (scan [])
scan (x ∷ y ∷ rest) =
    let both = paired x (scan rest) in
    let one = single x (scan (y ∷ rest)) in if y == sibling_index x then both else one

module _ {H : Type 0} where
  -- The loop over authIndices.
  unfoldable pub collect : List H → List ℕ → Result Error (List H)
  collect layer [] = ok []
  collect layer (i ∷ is) = do
    h ← or_fail (get_elem? layer i) (auth_out_of_bounds i)
    hs ← collect layer is
    ok (h ∷ hs)

  -- The subProof of one layer, with the slices of the loop.
  unfoldable pub prove_single_layer : List H → List ℕ → Result Error (List H × Scan)
  prove_single_layer layer indices = do
    let s = scan indices
    sub_proof ← collect layer s.auth_indices
    ok (sub_proof, s)

  -- The loop of Prove over all layers but the last; without any layer the slice panics.
  unfoldable pub prove_layers : List (List H) → List ℕ → Result Error (Proof H)
  prove_layers [] indices = err out_of_range
  prove_layers (last ∷ []) indices = ok (record { hashes = []; source_flags = [] })
  prove_layers (layer ∷ next ∷ layers) indices = do
    (sub_proof, s) ← prove_single_layer layer indices
    rest ← prove_layers (next ∷ layers) s.next_indices
    ok (record {
      hashes = sub_proof ++ rest.hashes;
      source_flags = s.source_flags ++ rest.source_flags;
    })

-- Tree, whose layers run from the padded leaves to the root.
pub record Tree (H : Type 0) : Type 0 where
  pub layers : List (List H)

module _ {H : Type 0} where
  unfoldable pub prove : Tree H → List ℕ → Result Error (Proof H)
  prove t indices = prove_layers t.layers indices

  unfoldable pub last_head : List (List H) → Option H
  last_head [] = none
  last_head (layer ∷ []) = get_elem? layer 0
  last_head (layer ∷ next ∷ layers) = last_head (next ∷ layers)

  -- Root: `layers[len(layers)-1][0]`.
  unfoldable pub root : Tree H → Result Error H
  root t = or_fail (last_head t.layers) out_of_range

module _ {H : Type 0} (hasher : Hasher H) where
  open hasher use {zero_hash, hash_internal}

  unfoldable pub pad : List H → List H
  pad layer = if length layer % 2 == 0 then layer else layer ++ zero_hash ∷ []

  -- The loop that hashes neighbours; it runs on a padded layer, whose length is even.
  unfoldable pub hash_pairs : List H → List H
  hash_pairs [] = []
  hash_pairs (a ∷ []) = []
  hash_pairs (a ∷ b ∷ rest) = hash_internal a b ∷ hash_pairs rest

  -- The padded layer and the next one.
  unfoldable pub compute_next_layer : List H → List H × List H
  compute_next_layer layer =
      if length layer == 1 then (layer, layer) else (pad layer, hash_pairs (pad layer))

  -- The loop of NewTree. A round makes the layer shorter, so its length is enough fuel.
  unfoldable pub build : ℕ → List H → List (List H)
  build zero layer = layer ∷ []
  build (suc fuel) layer =
      let (padded, next) = compute_next_layer layer in
      let taller = padded ∷ build fuel next in if ltb 1 (length layer) then taller else layer ∷ []

  unfoldable pub new_tree : List H → Result Error (Tree H)
  new_tree [] = err no_leaves
  new_tree (h ∷ hs) = ok (record { layers = build (length (h ∷ hs)) (h ∷ hs) })
