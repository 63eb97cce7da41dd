-- ===== src/DataFeeds/Counts.antt =====
-- Maps whose entries stay within a bound of their keys, for the counts of feeds_aggregator.go.
use chainlink_common.Base.{
  ℕ, suc, ◌+◌, ◌≡◌, ◌≤◌, refl, inl, inr, List, [], ◌∷◌, Option-cases, some, if◌then◌else◌, Dict, Eq,
  lookup, insert, Bool-cases, arith,
}
use chainlink_common.Base.Int.{int_eq}
use chainlink_common.Base.Bytes.{Bytes, bytes_eq}
use chainlink_common.DataFeeds.Signers.{count_of, increment, count_signers}

module _ {K V : Type 0} where
  -- Every entry of a map is within a bound of its key.
  abbrev pub Entries : (K → V → Type 0) → Dict K V → Type 0
  Entries P [] = Unit
  Entries P ((k, v) ∷ m) = P k v × Entries P m

  pub Entries-map :
      (P Q : K → V → Type 0) (m : Dict K V)
      → ((k : K) (v : V) → P k v → Q k v)
      → Entries P m
      → Entries Q m
  Entries-map P Q [] f h = tt
  Entries-map P Q ((k, v) ∷ m) f h = (f k v h.0, Entries-map P Q m f h.1)

module _ {K V : Type 0} ⦃e : Eq K⦄ (P : K → V → Type 0) where
  pub lookup-Entries : (k : K) (m : Dict K V) {v : V} → Entries P m → lookup k m ≡ some v → P k v
  unfolding lookup
  lookup-Entries k [] h found = cc
  lookup-Entries k ((j, w) ∷ m) {v = v} h found = elim (Bool-cases (e.beq j k)) [
    | inl same ↦
        let at : j ≡ k = (e.beq_iff j k).0 same in
        let is : w ≡ v = ground arith in rw (← at) (rw (← is) h.0)
    | inr apart ↦ lookup-Entries k m h.1 (ground arith)
  ]

  pub insert-Entries :
      (k : K) (v : V) (m : Dict K V) → P k v → Entries P m → Entries P (insert k v m)
  unfolding insert
  insert-Entries k v [] p h = (p, tt)
  insert-Entries k v ((j, w) ∷ m) p h = elim (Bool-cases (e.beq j k)) [
    | inl same ↦ let at : j ≡ k = (e.beq_iff j k).0 same in rw (same, insert, at) (p, h.1)
    | inr apart ↦ rw (apart, insert) (h.0, insert-Entries k v m p h.1)
  ]

abbrev pub AtMost : {K : Type 0} → (K → ℕ) → K → ℕ → Type 0
AtMost w k n = n ≤ w k

module _ {K : Type 0} ⦃e : Eq K⦄ where
  -- 1 if two keys are the same.
  abbrev pub hit : K → K → ℕ
  hit j k = if e.beq j k then 1 else 0

  abbrev pub occurrences : K → List K → ℕ
  occurrences k [] = 0
  occurrences k (j ∷ js) = hit j k + occurrences k js

  count_of-le : (w : K → ℕ) (k : K) (m : Dict K ℕ) → Entries (AtMost w) m → count_of k m ≤ w k
  unfolding count_of
  count_of-le w k m h = elim (Option-cases (lookup k m)) [
    | inl missing ↦ rw (missing, count_of) (omega arith)
    | inr (n, found) ↦ rw (found, count_of) (lookup-Entries (AtMost w) k m h found)
  ]

  -- A count that goes up by one stays within a bound that goes up by one.
  pub increment-AtMost :
      (w : K → ℕ) (k : K) (m : Dict K ℕ)
      → Entries (AtMost w) m
      → Entries (AtMost (λ j. w j + hit k j)) (increment k m)
  unfolding increment
  increment-AtMost w k m h =
      insert-Entries (AtMost (λ j. w j + hit k j)) k (suc (count_of k m)) m
        (rw ((e.beq_iff k k).1 refl) (omega (arith, count_of-le w k m h)))
        (Entries-map (AtMost w) (AtMost (λ j. w j + hit k j)) m (λ j n p. omega arith) h)

pub count_signers-AtMost :
    (w : Bytes → ℕ) (ss : List Bytes) (m : Dict Bytes ℕ)
    → Entries (AtMost w) m
    → Entries (AtMost (λ s. w s + occurrences s ss)) (count_signers ss m)
unfolding count_signers
count_signers-AtMost w [] m h =
    Entries-map (AtMost w) (AtMost (λ s. w s + 0)) m (λ s n p. omega arith) h
count_signers-AtMost w (t ∷ ts) m h =
    Entries-map (AtMost (λ s. w s + hit t s + occurrences s ts))
      (AtMost (λ s. w s + occurrences s (t ∷ ts))) (count_signers ts (increment t m))
      (λ s n p. omega arith)
      (count_signers-AtMost (λ s. w s + hit t s) ts (increment t m) (increment-AtMost w t m h))
