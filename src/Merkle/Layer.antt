-- ===== src/Merkle/Layer.antt =====
-- One layer of a proof: what proveSingleLayer gives, the queue of the verifier turns the chosen
-- hashes of the layer into the chosen ones of the next.
use mathlib.Core.List.{append-nil, append_assoc}
use chainlink_common.Base.{
  ℕ, zero, suc, ◌+◌, ◌-◌, ◌/◌, ◌%◌, ◌≡◌, ◌≢◌, ◌≤◌, ◌<◌, inl, inr, ◌∙◌, ap, refl, List, [], ◌∷◌,
  ◌++◌, some, Bool, length, arith, get_elem?, lt-length, ok, ◌==◌, Bool-cases, ==_iff,
}
use chainlink_common.Merkle.Tree.{
  Hasher, parent_index, sibling_index, scan, single, paired, collect, hash_pairs,
}
use chainlink_common.Merkle.Queue.{process}
use chainlink_common.Merkle.Arrays.{drop-lt}

-- The chosen indices rise strictly, from `b` on.
abbrev pub Rises : ℕ → List ℕ → Type 0
Rises b [] = Unit
Rises b (x ∷ xs) = (b ≤ x) × Rises (x + 1) xs

Rises-mono : {b c : ℕ} (xs : List ℕ) → b ≤ c → Rises c xs → Rises b xs
Rises-mono [] h r = tt
Rises-mono (x ∷ xs) h r = (omega arith, r.1)

-- The elements at the chosen indices.
abbrev pub Picks : {H : Type 0} → List H → List ℕ → List H → Type 0
Picks layer [] [] = Unit
Picks layer [] (v ∷ vs) = ⊥
Picks layer (i ∷ is) [] = ⊥
Picks layer (i ∷ is) (v ∷ vs) = (get_elem? layer i ≡ some v) × Picks layer is vs

parent_pair :
    (b x y : ℕ) → b ≤ x → x + 1 ≤ y → y ≡ sibling_index x → parent_index x + 1 ≤ (y + 1) / 2
unfolding parent_index sibling_index
parent_pair b x y h k e = ground arith

parent_apart : (x y : ℕ) → x + 1 ≤ y → y ≢ sibling_index x → parent_index x + 1 ≤ y / 2
unfolding parent_index sibling_index
parent_apart x y k e = ground arith

-- The parents of rising indices rise.
pub scan-Rises : (b : ℕ) (is : List ℕ) → Rises b is → Rises (b / 2) (scan is).next_indices
unfolding scan
scan-Rises b [] r = tt
scan-Rises b (x ∷ []) r = (unfold parent_index in omega arith, tt)
scan-Rises b (x ∷ y ∷ rest) r = elim (Bool-cases (y == sibling_index x)) [
  | inl e ↦
      rw (e, scan)
        (
          unfold parent_index in omega arith,
          Rises-mono (scan rest).next_indices
              (parent_pair b x y r.0 r.1.0 ((==_iff y (sibling_index x)).0 e))
              (scan-Rises (y + 1) rest r.1.1),
        )
  | inr e ↦
      rw (e, scan)
        (
          unfold parent_index in omega arith,
          Rises-mono (scan (y ∷ rest)).next_indices
              (parent_apart x y r.1.0 (λ q. cc ((==_iff y (sibling_index x)).1 q)))
              (scan-Rises y (y ∷ rest) (omega arith, r.1.1)),
        )
]

abbrev double : ℕ → ℕ
double zero = zero
double (suc k) = suc (suc (double k))

double_lem : (k : ℕ) → double k ≡ k + k
double_lem zero = omega arith
double_lem (suc k) = omega (arith, double_lem k)

-- A hasher that does not look at the order of its arguments.
abbrev pub IsSymmetric : {H : Type 0} → Hasher H → Type 0
IsSymmetric {H} hasher = (a b : H) → hasher.hash_internal a b ≡ hasher.hash_internal b a

module _ {H : Type 0} (hasher : Hasher H) where
  open hasher use {hash_internal}

  get_elem?-hash_pairs :
      (layer : List H) (k : ℕ) {a b : H}
      → get_elem? layer (double k) ≡ some a
      → get_elem? layer (suc (double k)) ≡ some b
      → get_elem? (hash_pairs hasher layer) k ≡ some (hash_internal a b)
  unfolding hash_pairs
  get_elem?-hash_pairs [] k p q = cc
  get_elem?-hash_pairs (x ∷ []) k p q = cc
  get_elem?-hash_pairs (x ∷ y ∷ layer) zero p q = ground arith
  get_elem?-hash_pairs (x ∷ y ∷ layer) (suc k) p q = get_elem?-hash_pairs layer k p q

  module _ (symmetric : IsSymmetric hasher) (layer : List H) where
    even_parent :
        (x : ℕ) (a b : H)
        → get_elem? layer x ≡ some a
        → get_elem? layer (x + 1) ≡ some b
        → x % 2 ≡ 0
        → get_elem? (hash_pairs hasher layer) (x / 2) ≡ some (hash_internal a b)
    even_parent x a b p q h = get_elem?-hash_pairs layer (x / 2) (rw (low) p) (rw (high) q)
      where
        low : double (x / 2) ≡ x
        low = omega (arith, double_lem (x / 2))

        high : suc (double (x / 2)) ≡ x + 1
        high = omega (arith, double_lem (x / 2))

    -- The parent of `x` is the hash of its element and its sibling's, in either order.
    sibling_parent :
        (x : ℕ) (a b : H)
        → get_elem? layer x ≡ some a
        → get_elem? layer (sibling_index x) ≡ some b
        → get_elem? (hash_pairs hasher layer) (parent_index x) ≡ some (hash_internal a b)
    unfolding sibling_index parent_index
    sibling_parent x a b p q = elim (Bool-cases (x % 2 == 0)) [
      | inl e ↦ even_parent x a b p (rw e at q) (ground arith)
      | inr e ↦
          let y : ℕ = x - 1 in
          let same : x / 2 ≡ y / 2 = ground arith in
          rw (same, symmetric a b)
            (even_parent y b a (rw e at q) (let z : y + 1 ≡ x = ground arith in rw z p)
              (ground arith))
    ]

  -- What the flags and hashes of one layer do to the queue.
  pub record Climbs (layer : List H) (is : List ℕ) (vs : List H) : Type 0 where
    pub sub_proof : List H
    pub above : List H
    pub collected : collect layer (scan is).auth_indices ≡ ok sub_proof
    pub picked : Picks (hash_pairs hasher layer) (scan is).next_indices above
    pub climbed :
        (w ps : List H) (fs : List Bool)
        → process hasher ((scan is).source_flags ++ fs) (vs ++ w) (sub_proof ++ ps)
          ≡ process hasher fs (w ++ above) ps

  -- The same behind a hash that was put at the end of the queue.
  climbed_on :
      (layer : List H) (is : List ℕ) (vs : List H) (c : Climbs layer is vs) (h : H) (w ps : List H)
      (fs : List Bool)
      → process hasher ((scan is).source_flags ++ fs) ((vs ++ w) ++ h ∷ []) (c.sub_proof ++ ps)
        ≡ process hasher fs (w ++ h ∷ c.above) ps
  climbed_on layer is vs c h w ps fs = rw append_assoc (
      c.climbed (w ++ h ∷ []) ps fs
      ∙ ap (λ q. process hasher fs q ps) (append_assoc w (h ∷ []) c.above))

  module _ (symmetric : IsSymmetric hasher) (layer : List H) (even : length layer % 2 ≡ 0) where
    sibling_bound : (x : ℕ) → x < length layer → sibling_index x < length layer
    unfolding sibling_index
    sibling_bound x h = ground arith

    single-Climbs :
        (x : ℕ) (is : List ℕ) (a : H) (vs : List H)
        → scan (x ∷ is) ≡ single x (scan is)
        → get_elem? layer x ≡ some a
        → Climbs layer is vs
        → Climbs layer (x ∷ is) (a ∷ vs)
    unfolding process collect single
    single-Climbs x is a vs s p c =
        let (b, _, q) = drop-lt (sibling_index x) layer (sibling_bound x (lt-length layer x p)) in
        record {
          sub_proof = b ∷ c.sub_proof;
          above = hash_internal b a ∷ c.above;
          collected = rw s (ground (arith, c.collected, q));
          picked = rw (s, symmetric b a) (sibling_parent symmetric layer x a b p q, c.picked);
          climbed = λ w ps fs. rw s (climbed_on layer is vs c (hash_internal b a) w ps fs);
        }

    paired-Climbs :
        (x y : ℕ) (is : List ℕ) (a b : H) (vs : List H)
        → scan (x ∷ y ∷ is) ≡ paired x (scan is)
        → y ≡ sibling_index x
        → get_elem? layer x ≡ some a
        → get_elem? layer y ≡ some b
        → Climbs layer is vs
        → Climbs layer (x ∷ y ∷ is) (a ∷ b ∷ vs)
    unfolding process paired
    paired-Climbs x y is a b vs s e p q c = record {
      sub_proof = c.sub_proof;
      above = hash_internal a b ∷ c.above;
      collected = rw s c.collected;
      picked = rw s (sibling_parent symmetric layer x a b p (rw e at q), c.picked);
      climbed = λ w ps fs. rw s (climbed_on layer is vs c (hash_internal a b) w ps fs);
    }

    pub layer-Climbs : (is : List ℕ) (vs : List H) → Picks layer is vs → Climbs layer is vs
    unfolding scan collect
    layer-Climbs [] [] p = record {
      sub_proof = [];
      above = [];
      collected = refl;
      picked = tt;
      climbed = λ w ps fs. rw append-nil;
    }
    layer-Climbs [] (v ∷ vs) p = absurd p
    layer-Climbs (x ∷ is) [] p = absurd p
    layer-Climbs (x ∷ []) (a ∷ vs) p = single-Climbs x [] a vs refl p.0 (layer-Climbs [] vs p.1)
    layer-Climbs (x ∷ y ∷ is) (a ∷ []) p = absurd p.1
    layer-Climbs (x ∷ y ∷ is) (a ∷ b ∷ vs) p = elim (Bool-cases (y == sibling_index x)) [
      | inl e ↦
          paired-Climbs x y is a b vs (rw (e, scan)) ((==_iff y (sibling_index x)).0 e) p.0 p.1.0
            (layer-Climbs is vs p.1.1)
      | inr e ↦
          single-Climbs x (y ∷ is) a (b ∷ vs) (rw (e, scan)) p.0
            (layer-Climbs (y ∷ is) (b ∷ vs) p.1)
    ]
