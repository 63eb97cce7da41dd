-- ===== src/Aggregators/MostFrequent.antt =====
-- What the mode is: a value that stands most often among the observations.
use Prim.Native.String.{String}
use text.Mathlib.TextEquality.{eq_iff}
use chainlink_common.Base.{
  ℕ, suc, ◌+◌, ◌≡◌, ◌≤◌, refl, subst, inl, inr, List, [], ◌∷◌, Option, none, some, ◌==◌,
  if◌then◌else◌, Dict, lookup, string_eq, Result-cases, ok, arith, Option-cases, Bool-cases,
  beq_refl,
}
use chainlink_common.Aggregators.Identical.{Counter, bump}
use chainlink_common.Aggregators.Counters.{
  keyed, lookup-keyed, counted, Tallied, bump-Tallied, bump-counted,
}
use chainlink_common.Aggregators.Mode.{
  max_count, modes, first_mode, count_items, mode, mode_has_quorum,
}
use chainlink_common.Aggregators.ReduceConfig.{quorum_ocr}

module _ {Val : Type 0} where
  max_count-ge : (n : ℕ) (m : Dict String (Counter Val)) → n ≤ max_count n m
  unfolding max_count
  max_count-ge n [] = omega arith
  max_count-ge n ((k, c) ∷ m) = ground (arith, max_count-ge n m, max_count-ge c.count m)

  max_count-counted :
      (sha : String) (n : ℕ) (m : Dict String (Counter Val)) → counted sha m ≤ max_count n m
  unfolding max_count lookup
  max_count-counted sha n [] = omega arith
  max_count-counted sha n ((k, c) ∷ m) = ground (
    arith,
    max_count-ge n m,
    max_count-ge c.count m,
    max_count-counted sha n m,
    max_count-counted sha c.count m,
  )

  -- A mode is the observation of a counter with that count.
  modes-entry :
      (n count : ℕ) (v : Option Val) (m : Dict String (Counter Val))
      → ((sha : String) → keyed sha m ≤ 1)
      → first_mode n (modes n m) ≡ ok (v, count)
      → (n ≡ count)
        × ((sha : String) × (c : Counter Val) × (lookup sha m ≡ some c)
            × (c.count ≡ n)
            × (c.full_observation ≡ v))
  unfolding modes first_mode lookup
  modes-entry n count v [] d e = cc
  modes-entry n count v ((k, c) ∷ m) d e = elim (Bool-cases (c.count == n)) [
    | inl same ↦ (ground arith, (k, c, ground (arith, beq_refl k), ground arith, ground arith))
    | inr other ↦
        let (a, (sha, c', l, b, g)) =
          modes-entry n count v m (λ s. ground (arith, d s)) (ground arith) in
        (a, (sha, c', ground (arith, eq_iff k sha, d sha, lookup-keyed sha m c' l), b, g))
  ]

quorum-reached : (count f : ℕ) → mode_has_quorum quorum_ocr count f ≡ ok tt → f + 1 ≤ count
unfolding mode_has_quorum
quorum-reached count f q = ground arith

module _ {Val : Type 0} (hash : Option Val → Option String) where
  -- The specification: how many of the observations have a hash.
  abbrev pub occurrences : String → List (Option Val) → ℕ
  occurrences sha [] = 0
  occurrences sha (item ∷ items) =
      let n = occurrences sha items in
      elim (hash item) [ none ↦ n | some h ↦ if string_eq.beq h sha then suc n else n ]

  count_items-counted :
      (items : List (Option Val)) (m m' : Dict String (Counter Val))
      → count_items hash items m ≡ ok m'
      → Tallied hash m
      → Tallied hash m' × ((sha : String) → counted sha m' ≡ counted sha m + occurrences sha items)
  unfolding count_items
  count_items-counted [] m m' e v =
      let same : m ≡ m' = ground arith in (subst (Tallied hash) same v, λ sha. ground (arith, same))
  count_items-counted (item ∷ items) m m' e v = elim (Option-cases (hash item)) [
    | inl n ↦ absurd (ground arith)
    | inr (h, n) ↦
        let (v', c) =
          count_items-counted items (bump h item m) m' (ground arith)
            (bump-Tallied hash h item m n v) in
        (v', λ sha. ground (arith, c sha, bump-counted h sha item m))
  ]

  empty-Tallied : Tallied hash []
  unfolding lookup
  empty-Tallied = record { one_key = λ sha. omega arith; hashed = λ sha c e. cc }

  counted-nil : (sha : String) → counted {Val = Val} sha [] ≡ 0
  unfolding lookup
  counted-nil sha = refl

  -- The mode with its count is an observation, by its hash, that stands as often as any other;
  -- where the OCR quorum is asked for and reached, more than F of the observations have it.
  pub mode-most :
      (items : List (Option Val)) (v : Option Val) (count : ℕ)
      → mode hash items ≡ ok (v, count)
      → (sha : String) × (hash v ≡ some sha)
        × (occurrences sha items ≡ count)
        × ((other : String) → occurrences other items ≤ count)
        × ((f : ℕ) → mode_has_quorum quorum_ocr count f ≡ ok tt → f + 1 ≤ occurrences sha items)
  unfolding mode
  mode-most [] v count e = cc
  mode-most (item ∷ items) v count e = elim (Result-cases (count_items hash (item ∷ items) [])) [
    | inr (x, n) ↦ absurd (ground arith)
    | inl (m, n) ↦
        let all = item ∷ items in
        let (t, c) = count_items-counted all [] m n empty-Tallied in
        let (a, (sha, k, l, b, g)) =
          modes-entry (max_count 0 m) count v m t.one_key (ground arith) in
        (
          sha,
          ground (arith, t.hashed sha k l),
          ground (arith, c sha, counted-nil sha),
          λ other. ground (arith, c other, counted-nil other, max_count-counted other 0 m),
          λ f q. ground (arith, c sha, counted-nil sha, quorum-reached count f q),
        )
  ]
