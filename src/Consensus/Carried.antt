-- ===== src/Consensus/Carried.antt =====
-- The loop over the query of Outcome: the map of outcomes owns its places in the heap, and
-- LastSeenAt is carried.
use Prim.Native.String.{String}
use chainlink_common.Base.{
  ℕ, zero, suc, ◌+◌, ◌*◌, ◌≡◌, ◌≤◌, ◌<◌, refl, inl, inr, List, [], ◌∷◌, ◌++◌, Option, none, some,
  Dict, lookup, insert, lookup-insert, string_eq, length, length-append, get_elem?, ltb,
  if◌then◌else◌, arith, Option-cases, Bool-cases, Result-cases, ok,
}
use chainlink_common.Consensus.Types.{RequestId, Time, AggregationOutcome, Wire, Plugin, Aggregate}
use chainlink_common.Consensus.Votes.{Votes}
use chainlink_common.Consensus.Round.{
  Round, deref, agreed_encoder, carry_last_seen, set_encoder, new_outcome, report_id, report_ids,
  id_panics,
}
use chainlink_common.Consensus.Pruning.{Owned, keyed-insert, points-insert, lookup-points}

pub get_elem?-last :
    {A : Type 0} (xs : List A) (x : A) → get_elem? (xs ++ x ∷ []) (length xs) ≡ some x
get_elem?-last [] x = refl
get_elem?-last (y ∷ xs) x = get_elem?-last xs x

pub get_elem?-append :
    {A : Type 0} (xs ys : List A) (i : ℕ) → i < length xs → get_elem? (xs ++ ys) i ≡ get_elem? xs i
get_elem?-append [] ys i h = absurd (omega arith)
get_elem?-append (x ∷ xs) ys zero h = refl
get_elem?-append (x ∷ xs) ys (suc i) h = get_elem?-append xs ys i (omega arith)

module _ {B L C Val V : Type 0} (wire : Wire B L C Val V) (r : Plugin C Val V) where
  -- What the aggregators return: LastSeenAt is not theirs.
  abbrev pub ZeroLastSeen : Type 0
  ZeroLastSeen =
      (w : String) (aggregate : Aggregate C Val V) (previous : Option (AggregationOutcome V C))
      (obs : Dict ℕ (List Val)) (o : AggregationOutcome V C)
      → r.get_aggregator w ≡ some aggregate
      → aggregate previous obs r.f ≡ ok o
      → o.last_seen_at ≡ 0

  abbrev last_seen : Option (AggregationOutcome V C) → ℕ
  last_seen none = 0
  last_seen (some o) = o.last_seen_at

  set_encoder-last_seen :
      (e : Option (String × C)) (o : AggregationOutcome V C)
      → (set_encoder e o).last_seen_at ≡ o.last_seen_at
  unfolding set_encoder
  set_encoder-last_seen none o = refl
  set_encoder-last_seen (some (n, c)) o = refl

  -- An outcome takes the last round of the previous one.
  new_outcome-last_seen :
      (votes : Votes C Val) (time : Option Time) (id : RequestId)
      (previous : Option (AggregationOutcome V C)) {o : AggregationOutcome V C}
      → ZeroLastSeen
      → new_outcome wire r votes time id previous ≡ some o
      → o.last_seen_at ≡ last_seen previous
  unfolding new_outcome carry_last_seen
  new_outcome-last_seen votes time id previous zeroes e =
      elim (Option-cases (lookup id.workflow_execution_id votes.exec_id_to_oracle_observations)) [
        | inl n ↦ absurd (ground arith)
        | inr (obs, a) ↦ elim (Bool-cases (ltb (length obs) (2 * r.f + 1))) [
          | inl n ↦ absurd (ground arith)
          | inr _ ↦ elim (Option-cases (r.get_aggregator id.workflow_id)) [
            | inl n ↦ absurd (ground arith)
            | inr (aggregate, g) ↦ elim (Result-cases (aggregate previous obs r.f)) [
              | inr n ↦ absurd (ground arith)
              | inl (o', b) ↦
                  elim (Option-cases
                    (lookup id.workflow_execution_id votes.exec_id_to_encoder_sha_to_count)) [
                      | inl n ↦ absurd (ground arith)
                      | inr (counts, c) ↦
                          let e' = agreed_encoder r.f votes.sha_to_encoder counts in
                          ground (
                            arith,
                            zeroes id.workflow_id aggregate previous obs o' g b,
                            set_encoder-last_seen e'
                                (record (carry_last_seen previous o') { timestamp = time }),
                          )
                    ]
            ]
          ]
        ]
      ]

  -- What the loop over the query keeps: the map owns its places, and no outcome is from the future.
  pub record Kept (seq_nr : ℕ) (s : Round V C) : Type 0 where
    pub owned : Owned s
    pub old :
        (w : String) (o : AggregationOutcome V C)
        → deref s.heap (lookup w s.outcomes) ≡ some o
        → o.last_seen_at ≤ seq_nr

  added-Owned :
      (s : Round V C) (k : String) (o : AggregationOutcome V C) (reports : List (ℕ × RequestId))
      → Owned s
      → Owned (record {
        heap = s.heap ++ o ∷ [];
        outcomes = insert k (length s.heap) s.outcomes;
        current_reports = reports;
        panicked = s.panicked;
      })
  added-Owned s k o reports v = record {
    one_key = λ w. ground (arith, keyed-insert w k (length s.heap) s.outcomes, v.one_key w);
    one_place = λ p.
        ground (arith, points-insert k (length s.heap) p s.outcomes, v.one_place p, v.in_heap p);
    in_heap = λ p h. ground (
      arith,
      points-insert k (length s.heap) p s.outcomes,
      v.in_heap p,
      length-append s.heap (o ∷ []),
    );
  }

  added-old :
      (s : Round V C) (k : String) (o : AggregationOutcome V C) (w : String)
      → Owned s
      → deref (s.heap ++ o ∷ []) (lookup w (insert k (length s.heap) s.outcomes))
        ≡ (if string_eq.beq k w then some o else deref s.heap (lookup w s.outcomes))
  unfolding deref
  added-old s k o w v = elim (Option-cases (lookup w s.outcomes)) [
    | inl n ↦ ground (arith, lookup-insert k w (length s.heap) s.outcomes, get_elem?-last s.heap o)
    | inr (q, n) ↦ ground (
      arith,
      lookup-insert k w (length s.heap) s.outcomes,
      get_elem?-last s.heap o,
      get_elem?-append s.heap (o ∷ []) q (v.in_heap q (lookup-points w q s.outcomes n)),
    )
  ]

  report_id-Kept :
      (votes : Votes C Val) (time : Option Time) (seq_nr : ℕ) (id : Option RequestId)
      (s : Round V C)
      → ZeroLastSeen
      → Kept seq_nr s
      → Kept seq_nr (report_id wire r votes time id s)
  unfolding report_id
  report_id-Kept votes time seq_nr none s zeroes v = v
  report_id-Kept votes time seq_nr (some id) s zeroes v =
      go (new_outcome wire r votes time id previous) refl
    where
      previous : Option (AggregationOutcome V C)
      previous = deref s.heap (lookup id.workflow_id s.outcomes)

      go :
          (x : Option (AggregationOutcome V C))
          → new_outcome wire r votes time id previous ≡ x
          → Kept seq_nr (report_id wire r votes time (some id) s)
      go none e = rw (e, report_id) v
      go (some o) e =
          let known : o.last_seen_at ≡ last_seen previous =
            new_outcome-last_seen votes time id previous zeroes e in
          let fine : o.last_seen_at ≤ seq_nr = elim (Option-cases previous) [
            | inl n ↦ ground arith
            | inr (p, n) ↦ ground (arith, v.old id.workflow_id p n)
          ] in
          rw (e, report_id)
            (record {
              owned =
                  added-Owned s id.workflow_id o (s.current_reports ++ (length s.heap, id) ∷ [])
                    v.owned;
              old = λ w q h. ground (arith, added-old s id.workflow_id o w v.owned, v.old w q);
            })

  pub report_ids-Kept :
      (votes : Votes C Val) (time : Option Time) (seq_nr : ℕ) (ids : List (Option RequestId))
      (s : Round V C)
      → ZeroLastSeen
      → Kept seq_nr s
      → Kept seq_nr (report_ids wire r votes time ids s)
  unfolding report_ids
  report_ids-Kept votes time seq_nr [] s zeroes v = v
  report_ids-Kept votes time seq_nr (id ∷ ids) s zeroes v =
      elim (Bool-cases (id_panics wire r votes id s)) [
        | inl ends ↦
            rw (ends, report_ids)
              (record {
                owned = record {
                  one_key = v.owned.one_key;
                  one_place = v.owned.one_place;
                  in_heap = v.owned.in_heap;
                };
                old = v.old;
              })
        | inr goes ↦
            rw (goes, report_ids)
              (report_ids-Kept votes time seq_nr ids _ zeroes
                (report_id-Kept votes time seq_nr id s zeroes v))
      ]
