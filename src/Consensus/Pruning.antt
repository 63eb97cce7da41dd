-- ===== src/Consensus/Pruning.antt =====
-- The pruning loop of Outcome: what is left of each workflow.
use Prim.Native.String.{String}
use text.Mathlib.TextEquality.{eq_iff}
use chainlink_common.Base.{
  ℕ, zero, suc, ◌+◌, ◌≡◌, ◌≢◌, ◌≤◌, ◌<◌, ◌↔◌, refl, inl, inr, List, [], ◌∷◌, Option, none, some,
  Dict, lookup, insert, string_eq, length, length-append, get_elem?, set, get_elem?-set_self, ltb,
  ◌==◌, if◌then◌else◌, arith, Option-cases,
}
use chainlink_common.Consensus.Types.{AggregationOutcome}
use chainlink_common.Consensus.Round.{Round, load, deref, is_seen, is_stale, prune, read_outcomes}

-- How many entries have a key, and how many point to a place.
abbrev pub keyed : {A : Type 0} → String → Dict String A → ℕ
keyed w [] = 0
keyed w ((k, _) ∷ m) = let n = keyed w m in if string_eq.beq k w then suc n else n

abbrev pub points : ℕ → Dict String ℕ → ℕ
points p [] = 0
points p ((_, q) ∷ m) = let n = points p m in if q == p then suc n else n

lookup-keyed : {A : Type 0} (w : String) (m : Dict String A) → (lookup w m ≢ none) ↔ (keyed w m ≢ 0)
unfolding lookup
lookup-keyed w [] = ground arith
lookup-keyed w ((k, a) ∷ m) = ground (arith, lookup-keyed w m)

pub lookup-points : (w : String) (p : ℕ) (m : Dict String ℕ) → lookup w m ≡ some p → points p m ≢ 0
unfolding lookup
lookup-points w p [] e = cc
lookup-points w p ((k, q) ∷ m) e = ground (arith, lookup-points w p m)

get_elem?-set_other :
    {A : Type 0} (xs : List A) (i j : ℕ) (a : A) → i ≢ j → get_elem? (set xs i a) j ≡ get_elem? xs j
get_elem?-set_other [] i j a h = refl
get_elem?-set_other (x ∷ xs) zero zero a h = absurd (h refl)
get_elem?-set_other (x ∷ xs) zero (suc j) a h = refl
get_elem?-set_other (x ∷ xs) (suc i) zero a h = refl
get_elem?-set_other (x ∷ xs) (suc i) (suc j) a h = get_elem?-set_other xs i j a (omega arith)

module _ {V C : Type 0} (f threshold seq_nr : ℕ) (seen : Dict String ℕ) where
  -- The specification: what becomes of the outcome of a workflow.
  abbrev pub pruned : String → Option (AggregationOutcome V C) → Option (AggregationOutcome V C)
  pruned w none = none
  pruned w (some o) =
      if is_seen f seen w
      then some (record o { last_seen_at = seq_nr })
      else if is_stale threshold seq_nr o.last_seen_at
      then none
      else some o

  pub prune-keyed :
      (w : String) (m : Dict String ℕ) (heap : List (AggregationOutcome V C))
      → keyed w (prune f threshold seq_nr seen m heap).0 ≤ keyed w m
  unfolding prune
  prune-keyed w [] heap = omega arith
  prune-keyed w ((k, p) ∷ m) heap = elim (Option-cases (get_elem? heap p)) [
    | inl e ↦ ground (arith, prune-keyed w m heap)
    | inr (o, e) ↦ ground (
      arith,
      prune-keyed w m heap,
      prune-keyed w m (set heap p (record o { last_seen_at = seq_nr })),
    )
  ]

  prune-heap :
      (q : ℕ) (m : Dict String ℕ) (heap : List (AggregationOutcome V C))
      → points q m ≡ 0
      → get_elem? (prune f threshold seq_nr seen m heap).1 q ≡ get_elem? heap q
  unfolding prune
  prune-heap q [] heap h = refl
  prune-heap q ((k, p) ∷ m) heap h = elim (Option-cases (get_elem? heap p)) [
    | inl e ↦ ground (arith, prune-heap q m heap)
    | inr (o, e) ↦
        let o' : AggregationOutcome V C = record o { last_seen_at = seq_nr } in
        ground (
          arith,
          prune-heap q m heap,
          prune-heap q m (set heap p o'),
          get_elem?-set_other heap p q o',
        )
  ]

  pub prune-lookup :
      (w : String) (m : Dict String ℕ) (heap : List (AggregationOutcome V C))
      → ((p : ℕ) → points p m ≤ 1)
      → keyed w m ≤ 1
      → let (m', heap', _) = prune f threshold seq_nr seen m heap in
        deref heap' (lookup w m') ≡ pruned w (deref heap (lookup w m))
  unfolding prune deref lookup
  prune-lookup w [] heap d h = refl
  prune-lookup w ((k, p) ∷ m) heap d h =
      let d' : (q : ℕ) → points q m ≤ 1 = λ q. ground (arith, d q) in
      let apart : points p m ≡ 0 = ground (arith, d p) in
      elim (Option-cases (get_elem? heap p)) [
        | inl e ↦ ground (
          arith,
          eq_iff k w,
          prune-lookup w m heap d',
          lookup-keyed w m,
          prune-keyed w m heap,
          lookup-keyed w (prune f threshold seq_nr seen m heap).0,
        )
        | inr (o, e) ↦
            let o' : AggregationOutcome V C = record o { last_seen_at = seq_nr } in
            let heap' = set heap p o' in
            elim (Option-cases (lookup w m)) [
              | inl n ↦ ground (
                arith,
                eq_iff k w,
                prune-lookup w m heap d',
                prune-lookup w m heap' d',
                prune-heap p m heap apart,
                prune-heap p m heap' apart,
                get_elem?-set_self heap p o' e,
                lookup-keyed w m,
                prune-keyed w m heap,
                lookup-keyed w (prune f threshold seq_nr seen m heap).0,
              )
              | inr (q, n) ↦ ground (
                arith,
                eq_iff k w,
                prune-lookup w m heap d',
                prune-lookup w m heap' d',
                prune-heap p m heap apart,
                prune-heap p m heap' apart,
                get_elem?-set_self heap p o' e,
                lookup-keyed w m,
                prune-keyed w m heap,
                lookup-keyed w (prune f threshold seq_nr seen m heap).0,
                lookup-points w q m n,
                get_elem?-set_other heap p q o',
              )
            ]
      ]

  pub read_outcomes-lookup :
      (w : String) (m : Dict String ℕ) (heap : List (AggregationOutcome V C))
      → keyed w m ≤ 1
      → lookup w (read_outcomes heap m) ≡ deref heap (lookup w m)
  unfolding read_outcomes deref lookup
  read_outcomes-lookup w [] heap h = refl
  read_outcomes-lookup w ((k, p) ∷ m) heap h = elim (Option-cases (get_elem? heap p)) [
    | inl e ↦ ground (arith, eq_iff k w, read_outcomes-lookup w m heap, lookup-keyed w m)
    | inr (o, e) ↦ ground (arith, eq_iff k w, read_outcomes-lookup w m heap)
  ]

pub keyed-insert :
    (w k : String) (p : ℕ) (m : Dict String ℕ)
    → keyed w (insert k p m)
      ≡ (if string_eq.beq k w then (if keyed w m == 0 then 1 else keyed w m) else keyed w m)
unfolding insert
keyed-insert w k p [] = refl
keyed-insert w k p ((j, q) ∷ m) =
    ground (arith, eq_iff k w, eq_iff j w, eq_iff j k, keyed-insert w k p m)

pub points-insert :
    (k : String) (p q : ℕ) (m : Dict String ℕ)
    → points q (insert k p m) ≤ (if p == q then 1 else 0) + points q m
unfolding insert
points-insert k p q [] = ground arith
points-insert k p q ((j, i) ∷ m) = ground (arith, points-insert k p q m)

-- The map of outcomes owns its places in the heap: no key and no place is in it twice.
module _ {V C : Type 0} where
  pub record Owned (s : Round V C) : Type 0 where
    pub one_key : (w : String) → keyed w s.outcomes ≤ 1
    pub one_place : (p : ℕ) → points p s.outcomes ≤ 1
    pub in_heap : (p : ℕ) → points p s.outcomes ≢ 0 → p < length s.heap

  pub load-counts :
      (m : Dict String (AggregationOutcome V C)) (w : String) (p : ℕ)
      → (keyed w (load m).outcomes ≡ keyed w m)
        × (length (load m).heap ≡ length m)
        × (points p (load m).outcomes ≡ (if ltb p (length m) then 1 else 0))
  unfolding load
  load-counts [] w p = ground arith
  load-counts ((k, o) ∷ m) w p =
      ground (arith, load-counts m w p, length-append (load m).heap (o ∷ []))

  pub load-Owned :
      (m : Dict String (AggregationOutcome V C)) → ((w : String) → keyed w m ≤ 1) → Owned (load m)
  load-Owned m d = record {
    one_key = λ w. ground (arith, load-counts m w 0, d w);
    one_place = λ p. ground (arith, load-counts m "" p);
    in_heap = λ p h. ground (arith, load-counts m "" p);
  }
