-- ===== src/Consensus/Quorum.antt =====
-- Every report of an outcome answers a query and rests on enough oracles, and when Outcome fails.
use Prim.Native.String.{String}
use chainlink_common.Base.{
  ℕ, ◌+◌, ◌*◌, ◌≡◌, ◌≤◌, refl, sym, subst, ◌≢◌, inl, inr, List, [], ◌∷◌, ◌++◌, Option, none, some,
  Dict, lookup, string_eq, length, get_elem?, All, ok, err, arith, Option-cases, Bool-cases,
}
use chainlink_common.Consensus.Types.{
  RequestId, Time, AggregationOutcome, Outcome, Wire, Plugin, Aggregate, aggregate_panicked,
}
use chainlink_common.Consensus.Votes.{Votes, count_observations, no_votes}
use chainlink_common.Consensus.Oracles.{count_observations-oracles}
use chainlink_common.Consensus.Tally.{oracles_of, supporters}
use chainlink_common.Consensus.Round.{
  Round, load, read_reports, new_outcome, report_id, report_ids, conclude, outcome, final_timestamp,
  deref, id_panics,
}

-- An ID of a query.
pub data Asked : RequestId → List (Option RequestId) → Type 0 where
  here : (id : RequestId) (ids : List (Option RequestId)) → Asked id (some id ∷ ids)
  there :
      (id : RequestId) (x : Option RequestId) (ids : List (Option RequestId))
      → Asked id ids
      → Asked id (x ∷ ids)

module _ {B L C Val V : Type 0} (wire : Wire B L C Val V) (r : Plugin C Val V) where
  new_outcome-oracles :
      (votes : Votes C Val) (time : Option Time) (id : RequestId)
      (previous : Option (AggregationOutcome V C)) {o : AggregationOutcome V C}
      → new_outcome wire r votes time id previous ≡ some o
      → 2 * r.f + 1 ≤ oracles_of id.workflow_execution_id votes
  unfolding new_outcome
  new_outcome-oracles votes time id previous e = ground arith

  -- The reports rest on enough oracles and answer IDs of the query.
  abbrev Backed : Votes C Val → List (Option RequestId) → List (ℕ × RequestId) → Type 0
  Backed votes ids =
      All (λ (p, id). (2 * r.f + 1 ≤ oracles_of id.workflow_execution_id votes) × Asked id ids)

  Backed-append :
      (votes : Votes C Val) (ids : List (Option RequestId)) (xs : List (ℕ × RequestId))
      (x : ℕ × RequestId)
      → Backed votes ids xs
      → Backed votes ids (x ∷ [])
      → Backed votes ids (xs ++ x ∷ [])
  Backed-append votes ids [] x a b = b
  Backed-append votes ids (y ∷ xs) x (h, a) b = (h, Backed-append votes ids xs x a b)

  report_id-Backed :
      (votes : Votes C Val) (time : Option Time) (ids : List (Option RequestId))
      (id : Option RequestId) (s : Round V C)
      → ((i : RequestId) → id ≡ some i → Asked i ids)
      → Backed votes ids s.current_reports
      → Backed votes ids (report_id wire r votes time id s).current_reports
  unfolding report_id
  report_id-Backed votes time ids none s asked v = v
  report_id-Backed votes time ids (some id) s asked v =
      go (new_outcome wire r votes time id previous) refl
    where
      previous : Option (AggregationOutcome V C)
      previous = deref s.heap (lookup id.workflow_id s.outcomes)

      go :
          (o : Option (AggregationOutcome V C))
          → new_outcome wire r votes time id previous ≡ o
          → Backed votes ids (report_id wire r votes time (some id) s).current_reports
      go none e = rw (e, report_id) v
      go (some o) e =
          rw (e, report_id)
            (Backed-append votes ids s.current_reports (length s.heap, id) v
              ((new_outcome-oracles votes time id previous e, asked id refl), tt))

  report_ids-Backed :
      (votes : Votes C Val) (time : Option Time) (all ids : List (Option RequestId)) (s : Round V C)
      → ((i : RequestId) → Asked i ids → Asked i all)
      → Backed votes all s.current_reports
      → Backed votes all (report_ids wire r votes time ids s).current_reports
  unfolding report_ids
  report_ids-Backed votes time all [] s sub v = v
  report_ids-Backed votes time all (id ∷ ids) s sub v =
      elim (Bool-cases (id_panics wire r votes id s)) [
        | inl ends ↦ rw (ends, report_ids) v
        | inr goes ↦
            rw (goes, report_ids)
              (report_ids-Backed votes time all ids (report_id wire r votes time id s)
                (λ i h. sub i (there i id ids h))
                (report_id-Backed votes time all id s
                  (λ i e. sub i (subst (λ x. Asked i (x ∷ ids)) (sym e) (here i ids))) v))
      ]

  load-no_reports : (m : Dict String (AggregationOutcome V C)) → (load m).current_reports ≡ []
  unfolding load
  load-no_reports [] = refl
  load-no_reports (x ∷ m) = refl

  -- The specification: a report that answers the query, for an execution that enough of the
  -- attributed observations give values for.
  abbrev pub Supported :
      List (ℕ × B) → List (Option RequestId) → AggregationOutcome V C × RequestId → Type 0
  Supported aos ids (o, id) =
      (2 * r.f + 1 ≤ supporters wire id.workflow_execution_id aos) × Asked id ids

  read_reports-Supported :
      (aos : List (ℕ × B)) (ids : List (Option RequestId)) (heap : List (AggregationOutcome V C))
      (xs : List (ℕ × RequestId))
      → Backed (count_observations wire aos no_votes) ids xs
      → All (Supported aos ids) (read_reports heap xs)
  unfolding read_reports
  read_reports-Supported aos ids heap [] v = tt
  read_reports-Supported aos ids heap ((p, id) ∷ xs) ((h, a), v) =
      elim (Option-cases (get_elem? heap p)) [
        | inl e ↦ rw (e, read_reports) (read_reports-Supported aos ids heap xs v)
        | inr (o, e) ↦
            rw (e, read_reports)
              (
                (omega (arith, count_observations-oracles wire id.workflow_execution_id aos), a),
                read_reports-Supported aos ids heap xs v,
              )
      ]

  conclude-Supported :
      (aos : List (ℕ × B)) (time : Option Time) (seq_nr : ℕ) (ids : List (Option RequestId))
      (previous : Dict String (AggregationOutcome V C))
      → All
          (Supported aos ids)
          (conclude wire r
            (count_observations wire aos no_votes)
            time
            seq_nr
            ids
            previous).0.current_reports
  unfolding conclude
  conclude-Supported aos time seq_nr ids previous = read_reports-Supported aos ids _ _ (
      report_ids-Backed (count_observations wire aos no_votes) time ids ids (load previous)
        (λ i h. h)
        (subst (Backed (count_observations wire aos no_votes) ids) (sym (load-no_reports previous))
          tt))

  -- Each report of an outcome is for an ID of the query, and at least 2F+1 of the attributed
  -- observations have values for its execution.
  pub outcome-Supported :
      (seq_nr : ℕ) (previous query : B) (aos : List (ℕ × B)) (raw : B) (gone : List String)
      → outcome wire r seq_nr previous query aos ≡ ok (raw, gone)
      → (ids : List (Option RequestId)) × (result : Outcome V C) × (wire.unmarshal_query query
          ≡ some ids)
        × (wire.marshal_outcome result ≡ some raw)
        × All (Supported aos ids) result.current_reports
  unfolding outcome
  outcome-Supported seq_nr previous query aos raw gone e =
      let votes = count_observations wire aos no_votes in
      elim (Option-cases (final_timestamp votes.timestamps)) [
        | inl n ↦ absurd (ground arith)
        | inr (time, t) ↦ elim (Option-cases (wire.unmarshal_query query)) [
          | inl n ↦ absurd (ground arith)
          | inr (ids, q) ↦ elim (Option-cases (wire.unmarshal_outcome previous)) [
            | inl n ↦ absurd (ground arith)
            | inr (p, o) ↦ (
              ids,
              (conclude wire r votes time seq_nr ids p.outcomes).0,
              q,
              ground arith,
              conclude-Supported aos time seq_nr ids p.outcomes,
            )
          ]
        ]
      ]

  -- No aggregator panics, whatever the previous outcome and the observations.
  abbrev pub Calm : Type 0
  Calm =
      (w : String) (aggregate : Aggregate C Val V) (previous : Option (AggregationOutcome V C))
      (obs : Dict ℕ (List Val))
      → r.get_aggregator w ≡ some aggregate
      → aggregate previous obs r.f ≢ err aggregate_panicked
